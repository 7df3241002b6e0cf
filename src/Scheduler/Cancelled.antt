-- ===== src/Scheduler/Cancelled.antt =====
-- A call whose context ends leaves the scheduler's invariant as it is.
use share_bridge.Prelude.{
  ℕ, ◌+◌, ◌≡◌, refl, sym, subst, inl, inr, Bool, true, false, List, [], ◌∷◌, some, arith, ◌==◌,
  if◌then◌else◌, length, same_refl, Bool-cases, Option-cases,
}
use share_bridge.Lane.{TrafficClass, class_key}
use share_bridge.Scheduler.State.{
  Scheduler, Request, Waiter, SendError, put, reset_empty_lane, set_queue,
}
use share_bridge.Scheduler.Admission.{
  admit_waiters, without_waiter, without_request, remove_waiter, remove_queued,
}
use share_bridge.Scheduler.Steps.{withdrawn, cancel_waiting, give_back, cancelled, cancel_queued}
use share_bridge.Scheduler.Selected.{set_queue-choice}
use share_bridge.Scheduler.Turns.{OnTurn}
use share_bridge.Scheduler.Progress.{reset_choice-OnTurn, set_queue-OnTurn}
use share_bridge.Scheduler.Invariant.{
  Fits, AllRequests, AllWaiters, total, QueueOk, Inv, OnlyAt, OnlyAt-trans,
}
use share_bridge.Scheduler.Admitted.{resolve-Inv, admit_waiters-Inv}

without_waiter-AllWaiters :
    (c : TrafficClass) (call : ℕ) (ws left : List Waiter)
    → without_waiter call ws ≡ some left
    → AllWaiters c ws
    → AllWaiters c left
unfolding without_waiter
without_waiter-AllWaiters c call [] left e a = absurd (cc)
without_waiter-AllWaiters c call (w ∷ ws) left e a = elim (Bool-cases (w.call == call)) [
  | inl m ↦ let same : ws ≡ left = ground arith in subst (AllWaiters c) same a.1
  | inr m ↦ elim (Option-cases (without_waiter call ws)) [
    | inl n ↦ absurd (ground arith)
    | inr (l, p) ↦
        let same : w ∷ l ≡ left = ground arith in
        subst (AllWaiters c) same (a.0, without_waiter-AllWaiters c call ws l p a.1)
  ]
]

-- A request that is taken out of a queue: it fits, and it takes its bytes with it.
record TakenOut (c : TrafficClass) (call : ℕ) (queue : List Request) (r : Request)
    (left : List Request) : Type 0 where
  fits : Fits c r.class r.payload
  rest : AllRequests c left
  size : total queue ≡ length r.payload + total left

without_request-TakenOut :
    (c : TrafficClass) (call : ℕ) (queue left : List Request) (r : Request)
    → without_request call queue ≡ some (r, left)
    → AllRequests c queue
    → TakenOut c call queue r left
unfolding without_request
without_request-TakenOut c call [] left r e a = absurd (cc)
without_request-TakenOut c call (x ∷ xs) left r e a = elim (Bool-cases (x.call == call)) [
  | inl m ↦
      let same : xs ≡ left = ground arith in
      let found : x ≡ r = ground arith in
      record {
        fits = subst (λ (y : Request). Fits c y.class y.payload) found a.0;
        rest = subst (AllRequests c) same a.1;
        size = ground arith;
      }
  | inr m ↦ elim (Option-cases (without_request call xs)) [
    | inl n ↦ absurd (ground arith)
    | inr (p, q) ↦
        let h = without_request-TakenOut c call xs p.1 p.0 q a.1 in
        let same : x ∷ p.1 ≡ left = ground arith in
        let found : p.0 ≡ r = ground arith in
        record {
          fits = subst (λ (y : Request). Fits c y.class y.payload) found h.fits;
          rest = subst (AllRequests c) same (a.0, h.rest);
          size = ground (arith, h.size);
        }
  ]
]

reset_empty_lane-OnlyAt : (d c : TrafficClass) (s : Scheduler) → OnlyAt d s (reset_empty_lane c s)
unfolding reset_empty_lane
reset_empty_lane-OnlyAt d c s = record {
  same_queue = λ e n. refl;
  same_bytes = λ e n. refl;
  same_waiters = λ e n. refl;
  same_active = refl;
  same_terminal = refl;
}

-- A class whose queue and waiters are good, whether or not its first waiter fits by now.
record AlmostOk (c : TrafficClass) (s t : Scheduler) : Type 0 where
  only : OnlyAt c s t
  queue : QueueOk c (t.queues c) (t.bytes c) t.active
  waiting : AllWaiters c (t.admission_waiters c)
  turns : OnTurn t.choice

AlmostOk-Inv :
    (c : TrafficClass) (s t : Scheduler) → Inv s → AlmostOk c s t → Inv (admit_waiters c t)
AlmostOk-Inv c s t i a =
    admit_waiters-Inv c s t a.only (λ d _. i.classes d) a.queue a.waiting a.turns

AlmostOk-reset :
    (c : TrafficClass) (s t : Scheduler) → AlmostOk c s t → AlmostOk c s (reset_empty_lane c t)
unfolding reset_empty_lane
AlmostOk-reset c s t a = record {
  only = OnlyAt-trans a.only (reset_empty_lane-OnlyAt c c t);
  queue = a.queue;
  waiting = a.waiting;
  turns = reset_choice-OnTurn c t a.turns;
}

withdrawn-Inv :
    (call : ℕ) (c : TrafficClass) (e : SendError) (s : Scheduler) (b : Bool) (t : Scheduler)
    → Inv s
    → AlmostOk c s t
    → Inv (withdrawn call c e (true, if b then reset_empty_lane c t else t))
unfolding withdrawn
withdrawn-Inv call c e s true t i a =
    resolve-Inv call (some e) _ (AlmostOk-Inv c s (reset_empty_lane c t) i (AlmostOk-reset c s t a))
withdrawn-Inv call c e s false t i a = resolve-Inv call (some e) _ (AlmostOk-Inv c s t i a)

pub cancel_waiting-Inv :
    (call : ℕ) (c : TrafficClass) (e : SendError) (s : Scheduler)
    → Inv s
    → Inv (cancel_waiting call c e s)
unfolding cancel_waiting
cancel_waiting-Inv call c e s i =
    elim (Option-cases (without_waiter call (s.admission_waiters c))) [
      | inl n ↦ rw (n, remove_waiter) (unfold withdrawn in i)
      | inr (left, p) ↦
          rw (p, remove_waiter)
            (withdrawn-Inv call c e s _
              (record s { admission_waiters = put c left s.admission_waiters }) i
              (record {
                only = record {
                  same_queue = λ d n. refl;
                  same_bytes = λ d n. refl;
                  same_waiters = λ d n. rw n;
                  same_active = refl;
                  same_terminal = refl;
                };
                queue = (i.classes c).queue;
                waiting = simp same_refl (
                    without_waiter-AllWaiters c call (s.admission_waiters c) left p
                      (i.classes c).waiting);
                turns = i.turns;
              }))
    ]

-- A queue with one request less, and its bytes given back.
given_back-AlmostOk :
    (c : TrafficClass) (call : ℕ) (r : Request) (left : List Request) (s : Scheduler)
    → Inv s
    → TakenOut c call (s.queues c) r left
    → AlmostOk c s (give_back c (length r.payload) (set_queue c left s))
unfolding give_back
given_back-AlmostOk c call r left s i t =
    let k = i.classes c in
    subst (λ u. AlmostOk c s (give_back c (length r.payload) u)) (sym (set_queue-choice c left s))
      (record {
        only = record {
          same_queue = λ d n. rw n;
          same_bytes = λ d n. rw n;
          same_waiters = λ d n. refl;
          same_active = refl;
          same_terminal = refl;
        };
        queue = simp same_refl (record {
          queued = t.rest;
          accounted = omega (arith, k.queue.accounted, t.size);
          within = omega (arith, k.queue.within);
        });
        waiting = k.waiting;
        turns = set_queue-OnTurn c left s i.turns;
      })

pub cancel_queued-Inv :
    (call : ℕ) (c : TrafficClass) (e : SendError) (s : Scheduler)
    → Inv s
    → Inv (cancel_queued call c e s)
unfolding cancel_queued
cancel_queued-Inv call c e s i = elim (Option-cases (without_request call (s.queues c))) [
  | inl n ↦ rw (n, remove_queued) (unfold cancelled in i)
  | inr (p, q) ↦
      let taken =
        without_request-TakenOut c call (s.queues c) p.1 p.0 q (i.classes c).queue.queued in
      rw (q, remove_queued)
        (unfold cancelled in
          resolve-Inv call (some e) _
            (AlmostOk-Inv c s _ i (given_back-AlmostOk c call p.0 p.1 s i taken)))
]
