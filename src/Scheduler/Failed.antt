-- ===== src/Scheduler/Failed.antt =====
-- Closing the scheduler fails what waits and what is queued, and keeps the invariant.
use share_bridge.Prelude.{
  ◌-◌, ◌≡◌, refl, sym, ap, subst, ◌∙◌, inl, inr, List, [], ◌∷◌, some, arith, if◌then◌else◌, length,
  ◌=?◌, Bool-cases,
}
use share_bridge.Lane.{TrafficClass, class_key, same_class_iff}
use share_bridge.Scheduler.State.{Scheduler, Request, Waiter, SendError, put}
use share_bridge.Scheduler.Admission.{resolve}
use share_bridge.Scheduler.Steps.{
  give_back, classes, fail_waiters_in, fail_waiters_of, fail_admission_waiters, fail_requests_in,
  fail_queued_of, fail_queued, terminate,
}
use share_bridge.Scheduler.Turns.{OnTurn}
use share_bridge.Scheduler.Invariant.{AllWaiters, total, QueueOk, Inv}

pub fail_waiters_in-eq :
    (e : SendError) (ws : List Waiter) (s : Scheduler)
    → fail_waiters_in e ws s ≡ record s { resolved = (fail_waiters_in e ws s).resolved }
unfolding fail_waiters_in
fail_waiters_in-eq e [] s = refl
fail_waiters_in-eq e (w ∷ ws) s = fail_waiters_in-eq e ws (resolve w.call (some e) s)

pub fail_requests_in-eq :
    (e : SendError) (c : TrafficClass) (rs : List Request) (s : Scheduler)
    → let t = fail_requests_in e c rs s in t ≡ record s { bytes = t.bytes; resolved = t.resolved }
unfolding fail_requests_in
fail_requests_in-eq e c [] s = refl
fail_requests_in-eq e c (r ∷ rs) s = fail_requests_in-eq e c rs _

pub bytes-fail_requests_in :
    (e : SendError) (c d : TrafficClass) (rs : List Request) (s : Scheduler)
    → (fail_requests_in e c rs s).bytes d ≡ (if c =? d then s.bytes d - total rs else s.bytes d)
unfolding fail_requests_in
bytes-fail_requests_in e c d [] s = ground arith
bytes-fail_requests_in e c d (r ∷ rs) s = ground (
  arith,
  bytes-fail_requests_in e c d rs (resolve r.call (some e) (give_back c (length r.payload) s)),
  same_class_iff c d,
)

-- The invariant of a closed scheduler: nobody waits to fit.
pub record Ended (s : Scheduler) : Type 0 where
  pub queue : (c : TrafficClass) → QueueOk c (s.queues c) (s.bytes c) s.active
  pub waiting : (c : TrafficClass) → AllWaiters c (s.admission_waiters c)
  pub turns : OnTurn s.choice

pub Ended-Inv : (s : Scheduler) (e : SendError) → s.terminal ≡ some e → Ended s → Inv s
Ended-Inv s e t h = record {
  classes = λ c. record {
    queue = h.queue c;
    waiting = h.waiting c;
    blocked = λ n. absurd (ground arith);
  };
  turns = h.turns;
}

fail_waiters_of-Ended :
    (e : SendError) (c : TrafficClass) (s : Scheduler) → Ended s → Ended (fail_waiters_of e c s)
unfolding fail_waiters_of
fail_waiters_of-Ended e c s h =
    subst (λ (u : Scheduler). Ended (record u { admission_waiters = put c [] u.admission_waiters }))
      (sym (fail_waiters_in-eq e (s.admission_waiters c) s))
      (record {
        queue = h.queue;
        waiting = λ d. elim (Bool-cases (c =? d)) [ inl y ↦ rw y tt | inr n ↦ rw n (h.waiting d) ];
        turns = h.turns;
      })

fail_queued_of-Ended :
    (e : SendError) (c : TrafficClass) (s : Scheduler) → Ended s → Ended (fail_queued_of e c s)
unfolding fail_queued_of
fail_queued_of-Ended e c s h =
    let t = fail_requests_in e c (s.queues c) s in
    subst (λ (u : Scheduler). Ended (record u { queues = put c [] u.queues }))
      (sym (fail_requests_in-eq e c (s.queues c) s))
      (record {
        queue = λ d.
            let b = bytes-fail_requests_in e c d (s.queues c) s in
            elim (Bool-cases (c =? d)) [
              | inl y ↦
                  let b' : t.bytes d ≡ s.bytes d - total (s.queues c) = b ∙ rw y in
                  let same = ap (λ x. total (s.queues x)) ((same_class_iff c d).0 y) in
                  let k = h.queue d in
                  rw y (record {
                    queued = tt;
                    accounted = omega (arith, b', same, k.accounted);
                    within = omega (arith, b', k.within);
                  })
              | inr n ↦ rw (n, b, n) (h.queue d)
            ];
        waiting = h.waiting;
        turns = h.turns;
      })

fail_admission_waiters-Ended :
    (e : SendError) (cs : List TrafficClass) (s : Scheduler)
    → Ended s
    → Ended (fail_admission_waiters e cs s)
unfolding fail_admission_waiters
fail_admission_waiters-Ended e [] s h = h
fail_admission_waiters-Ended e (c ∷ cs) s h =
    fail_admission_waiters-Ended e cs (fail_waiters_of e c s) (fail_waiters_of-Ended e c s h)

fail_queued-Ended :
    (e : SendError) (cs : List TrafficClass) (s : Scheduler) → Ended s → Ended (fail_queued e cs s)
unfolding fail_queued
fail_queued-Ended e [] s h = h
fail_queued-Ended e (c ∷ cs) s h =
    fail_queued-Ended e cs (fail_queued_of e c s) (fail_queued_of-Ended e c s h)

terminal-fail_waiters :
    (e : SendError) (cs : List TrafficClass) (s : Scheduler)
    → (fail_admission_waiters e cs s).terminal ≡ s.terminal
unfolding fail_admission_waiters fail_waiters_of
terminal-fail_waiters e [] s = refl
terminal-fail_waiters e (c ∷ cs) s =
    terminal-fail_waiters e cs (fail_waiters_of e c s)
    ∙ ap (λ (u : Scheduler). u.terminal) (fail_waiters_in-eq e (s.admission_waiters c) s)

terminal-fail_queued :
    (e : SendError) (cs : List TrafficClass) (s : Scheduler)
    → (fail_queued e cs s).terminal ≡ s.terminal
unfolding fail_queued fail_queued_of
terminal-fail_queued e [] s = refl
terminal-fail_queued e (c ∷ cs) s =
    terminal-fail_queued e cs (fail_queued_of e c s)
    ∙ ap (λ (u : Scheduler). u.terminal) (fail_requests_in-eq e c (s.queues c) s)

pub terminal-terminate : (e : SendError) (s : Scheduler) → (terminate e s).terminal ≡ some e
unfolding terminate
terminal-terminate e s =
    terminal-fail_queued e classes
      (fail_admission_waiters e classes (record s { terminal = some e }))
    ∙ terminal-fail_waiters e classes (record s { terminal = some e })

pub terminate-Inv : (e : SendError) (s : Scheduler) → Ended s → Inv (terminate e s)
unfolding terminate
terminate-Inv e s h = Ended-Inv _ e (terminal-terminate e s) (
    fail_queued-Ended e classes _ (
      fail_admission_waiters-Ended e classes (record s { terminal = some e })
        (record { queue = h.queue; waiting = h.waiting; turns = h.turns })))

pub Inv-Ended : (s : Scheduler) → Inv s → Ended s
Inv-Ended s i = record {
  queue = λ c. (i.classes c).queue;
  waiting = λ c. (i.classes c).waiting;
  turns = i.turns;
}
