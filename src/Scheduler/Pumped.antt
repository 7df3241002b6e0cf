-- ===== src/Scheduler/Pumped.antt =====
-- Close and the pump keep the scheduler's invariant, and so does every sequence of events.
use share_bridge.Prelude.{
  ◌≡◌, refl, sym, ap, subst, ◌∙◌, inl, inr, false, List, [], ◌∷◌, Option, none, some, arith, length,
  ◌=?◌, same_refl, Bool-cases, Option-cases,
}
use share_bridge.Lane.{TrafficClass, control, class_key, same_class_iff}
use share_bridge.Scheduler.State.{
  Scheduler, Choice, Request, SendError, put, scheduler_closed, new_scheduler,
}
use share_bridge.Scheduler.Select.{next}
use share_bridge.Scheduler.Steps.{
  give_back, close, set_active, pump_take, after_write, pump_complete, Event, sends,
  cancels_waiting, cancels_queued, closes, takes, completes, step, run,
}
use share_bridge.Scheduler.Selected.{Popped, Chosen, next-Chosen}
use share_bridge.Scheduler.Turns.{WellQueued, OnTurn}
use share_bridge.Scheduler.Progress.{next-OnTurn}
use share_bridge.Scheduler.Invariant.{
  AllRequests, AllWaiters, in_flight, QueueOk, ClassOk, Inv, OnlyAt, OnlyAt-refl, Inv-at,
}
use share_bridge.Scheduler.Admitted.{resolve-Inv, admit_waiters-Inv, send-Inv}
use share_bridge.Scheduler.Cancelled.{cancel_waiting-Inv, cancel_queued-Inv}
use share_bridge.Scheduler.Failed.{Ended, Ended-Inv, terminate-Inv, Inv-Ended}

-- The invariant gives what the choice needs of the queues.
pub Inv-WellQueued : (s : Scheduler) → Inv s → WellQueued s.queues
Inv-WellQueued s i c r rest e =
    let f : AllRequests c (r ∷ rest) = subst (AllRequests c) e (i.classes c).queue.queued in
    (f.0.own, f.0.small)

close-Inv : (s : Scheduler) → Inv s → Inv (close s)
unfolding close
close-Inv s i = elim (Option-cases s.terminal) [
  | inl o ↦ rw (o, close) (terminate-Inv scheduler_closed s (Inv-Ended s i))
  | inr (e, o) ↦ rw (o, close) i
]

-- The request that is taken is counted as in flight.
Popped-Inv :
    (s t : Scheduler) (r : Request)
    → s.active ≡ none
    → Inv s
    → Popped s r t
    → OnTurn t.choice
    → Inv (record t { active = some r })
Popped-Inv s t r idle i p turns =
    subst (λ (u : Scheduler). Inv (record u { active = some r })) (sym p.others)
      (record {
        classes = λ c. elim (Bool-cases (p.class =? c)) [
          | inl y ↦ subst (ClassOk after) ((same_class_iff p.class c).0 y) here
          | inr n ↦ elsewhere c n
        ];
        turns = turns;
      })
  where
    after : Scheduler
    after = record s { queues = put p.class p.rest s.queues; choice = t.choice; active = some r }

    whole : QueueOk p.class (r ∷ p.rest) (s.bytes p.class) s.active
    whole =
        subst (λ q. QueueOk p.class q (s.bytes p.class) s.active) p.head (i.classes p.class).queue

    here : ClassOk after p.class
    here =
        let k = i.classes p.class in
        let none_before = ap (in_flight p.class) idle in
        let own = (same_class_iff r.class p.class).1 whole.queued.0.own in
        record {
          queue = record {
            queued = simp same_refl whole.queued.1;
            accounted = simp (same_refl, own) (omega (arith, whole.accounted, none_before));
            within = k.queue.within;
          };
          waiting = k.waiting;
          blocked = k.blocked;
        }

    elsewhere : (c : TrafficClass) → (p.class =? c) ≡ false → ClassOk after c
    elsewhere c n =
        let k = i.classes c in
        let none_before = ap (in_flight c) idle in
        let other : (r.class =? c) ≡ false = ap (λ d. d =? c) whole.queued.0.own ∙ n in
        record {
          queue = record {
            queued = rw n k.queue.queued;
            accounted = rw (n, other) (omega (arith, k.queue.accounted, none_before));
            within = k.queue.within;
          };
          waiting = k.waiting;
          blocked = k.blocked;
        }

OnlyAt-choice : (s : Scheduler) (h : Choice) → OnlyAt control s (record s { choice = h })
OnlyAt-choice s h = record {
  same_queue = λ c n. refl;
  same_bytes = λ c n. refl;
  same_waiters = λ c n. refl;
  same_active = refl;
  same_terminal = refl;
}

pump_take-Inv : (s : Scheduler) → Inv s → Inv (pump_take s)
unfolding pump_take
pump_take-Inv s i = elim (Option-cases s.terminal) [
  | inr (e, o) ↦ rw (o, pump_take) i
  | inl o ↦ elim (Option-cases s.active) [
    | inr (r, a) ↦ rw (o, a, pump_take) i
    | inl a ↦
        rw (o, a, pump_take)
          (taken (next s) (next-Chosen s) (next-OnTurn s (Inv-WellQueued s i) i.turns) a)
  ]
]
  where
    taken :
        (p : Option Request × Scheduler)
        → Chosen s p
        → OnTurn p.1.choice
        → s.active ≡ none
        → Inv (set_active p)
    taken (none, t) c turns idle = subst Inv (sym c) (
        Inv-at control s (record s { choice = t.choice }) (OnlyAt-choice s t.choice) i
          (let k = i.classes control in
            record { queue = k.queue; waiting = k.waiting; blocked = k.blocked })
          turns)
    taken (some r, t) c turns idle = Popped-Inv s t r idle i c turns

-- The state in which the pump admits waiters: the write is over and its bytes are given back.
record Written (s : Scheduler) (r : Request) : Type 0 where
  others : (c : TrafficClass) → (r.class =? c) ≡ false → ClassOk s c
  queue : QueueOk r.class (s.queues r.class) (s.bytes r.class) s.active
  waiting : AllWaiters r.class (s.admission_waiters r.class)
  turns : OnTurn s.choice

written :
    (s : Scheduler) (r : Request)
    → Inv s
    → s.active ≡ some r
    → Written (give_back r.class (length r.payload) (record s { active = none })) r
unfolding give_back
written s r i a =
    let flight = λ (c : TrafficClass). ap (in_flight c) a in
    let k = i.classes r.class in
    let own : in_flight r.class s.active ≡ length r.payload = flight r.class ∙ simp same_refl in
    record {
      others = λ c n.
          let o = i.classes c in
          let f : in_flight c s.active ≡ 0 = flight c ∙ rw n in
          record {
            queue = rw n (record {
              queued = o.queue.queued;
              accounted = omega (arith, o.queue.accounted, f);
              within = o.queue.within;
            });
            waiting = o.waiting;
            blocked = λ t. rw n (o.blocked t);
          };
      queue = simp same_refl (record {
        queued = k.queue.queued;
        accounted = omega (arith, k.queue.accounted, own);
        within = omega (arith, k.queue.within);
      });
      waiting = k.waiting;
      turns = i.turns;
    }

after_write-Inv :
    (r : Request) (e : Option SendError) (s : Scheduler)
    → Written s r
    → Inv (after_write r.class e s)
unfolding after_write
after_write-Inv r e s w = elim (Option-cases s.terminal) [
  | inr (x, t) ↦ rw (t, after_write) (Ended-Inv s x t ended)
  | inl t ↦ elim (Option-cases e) [
    | inl n ↦
        rw (t, n, after_write)
          (admit_waiters-Inv r.class s s (OnlyAt-refl r.class s) w.others w.queue w.waiting w.turns)
    | inr (x, n) ↦ rw (t, n, after_write) (terminate-Inv x s ended)
  ]
]
  where
    ended : Ended s
    ended = record {
      queue = λ c. elim (Bool-cases (r.class =? c)) [
        | inl y ↦
            subst (λ d. QueueOk d (s.queues d) (s.bytes d) s.active)
              ((same_class_iff r.class c).0 y) w.queue
        | inr n ↦ (w.others c n).queue
      ];
      waiting = λ c. elim (Bool-cases (r.class =? c)) [
        | inl y ↦
            subst (λ d. AllWaiters d (s.admission_waiters d)) ((same_class_iff r.class c).0 y)
              w.waiting
        | inr n ↦ (w.others c n).waiting
      ];
      turns = w.turns;
    }

pump_complete-Inv : (e : Option SendError) (s : Scheduler) → Inv s → Inv (pump_complete e s)
unfolding pump_complete
pump_complete-Inv e s i = elim (Option-cases s.active) [
  | inl a ↦ rw (a, pump_complete) i
  | inr (r, a) ↦
      rw (a, pump_complete) (resolve-Inv r.call e _ (after_write-Inv r e _ (written s r i a)))
]

-- Every event keeps the invariant: each class's bytes are those of its queue and of what is being
-- written, they stay within its cap, the requests and waiters of a class are its own, non-empty and
-- within the cap, while the scheduler is open the first waiter of a class does not fit in, and the
-- turns of the round-robins stay in range.
pub step-Inv : (x : Event) (s : Scheduler) → Inv s → Inv (step x s)
unfolding step
step-Inv (sends call class kind payload ctx_err) s i = send-Inv call class kind payload ctx_err s i
step-Inv (cancels_waiting call class e) s i = cancel_waiting-Inv call class e s i
step-Inv (cancels_queued call class e) s i = cancel_queued-Inv call class e s i
step-Inv closes s i = close-Inv s i
step-Inv takes s i = pump_take-Inv s i
step-Inv (completes e) s i = pump_complete-Inv e s i

run-Inv : (xs : List Event) (s : Scheduler) → Inv s → Inv (run xs s)
unfolding run
run-Inv [] s i = i
run-Inv (x ∷ xs) s i = run-Inv xs (step x s) (step-Inv x s i)

new_scheduler-Inv : Inv new_scheduler
unfolding new_scheduler
new_scheduler-Inv = record {
  classes = λ c. record {
    queue = record { queued = tt; accounted = omega arith; within = omega arith };
    waiting = tt;
    blocked = λ _. tt;
  };
  turns = record { outer = omega arith; inner = omega arith };
}

-- After any interleaving of Send calls, cancellations, Close and the pump, from the start, every
-- class's byte count is exact and within its cap, and while the scheduler is open the first waiter of a
-- class does not fit. A waiter behind it waits its turn, whether it would fit or not.
pub run_new-Inv : (xs : List Event) → Inv (run xs new_scheduler)
run_new-Inv xs = run-Inv xs new_scheduler new_scheduler-Inv
