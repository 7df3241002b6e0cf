-- ===== src/Scheduler/Selected.antt =====
-- What the choice of a request leaves alone: of the scheduler it changes the choice's own fields and
-- the queue that it takes from.
use share_bridge.Prelude.{
  ◌≡◌, refl, inl, inr, List, [], ◌∷◌, Option, none, some, Bool-cases, subst, ap, ◌+◌, ltb, not,
  ◌&&◌, ◌||◌,
}
use share_bridge.Lane.{TrafficClass, control, class_key}
use share_bridge.Scheduler.State.{
  Scheduler, Choice, control_burst_limit, Request, put, set_queue, pop, pop_from,
}
use share_bridge.Scheduler.Select.{
  pop_found, next_data, set_burst, take_control, after_data, next, control_waiting, has_data,
}

-- `t` is `s` with the head of one queue taken out.
pub record Popped (s : Scheduler) (r : Request) (t : Scheduler) : Type 0 where
  pub class : TrafficClass
  pub rest : List Request
  pub head : s.queues class ≡ r ∷ rest
  pub others : t ≡ record s { queues = put class rest s.queues; choice = t.choice }

-- What a choice does: it takes a request out, or finds nothing and changes its own fields only.
abbrev pub Chosen : Scheduler → Option Request × Scheduler → Type 0
Chosen s (none, t) = t ≡ record s { choice = t.choice }
Chosen s (some r, t) = Popped s r t

pub set_queue-choice :
    (c : TrafficClass) (queue : List Request) (s : Scheduler)
    → set_queue c queue s
      ≡ record s { queues = put c queue s.queues; choice = (set_queue c queue s).choice }
unfolding set_queue
set_queue-choice c [] s = refl
set_queue-choice c (r ∷ queue) s = refl

pop_from-Chosen :
    (c : TrafficClass) (queue : List Request) (s : Scheduler) (h : Choice)
    → s.queues c ≡ queue
    → Chosen s (pop_from c queue (record s { choice = h }))
unfolding pop_from
pop_from-Chosen c [] s h e = refl
pop_from-Chosen c (r ∷ queue) s h e = record {
  class = c;
  rest = queue;
  head = e;
  others = set_queue-choice c queue (record s { choice = h });
}

pop-Chosen :
    (c : TrafficClass) (s : Scheduler) (h : Choice) → Chosen s (pop c (record s { choice = h }))
unfolding pop
pop-Chosen c s h = pop_from-Chosen c (s.queues c) s h refl

take_control-Chosen : (s : Scheduler) → Chosen s (take_control s)
unfolding take_control
take_control-Chosen s =
    pop-Chosen control s (record s.choice { control_burst = s.choice.control_burst + 1 })

pop_found-Chosen : (s : Scheduler) (p : Option TrafficClass × Choice) → Chosen s (pop_found s p)
unfolding pop_found
pop_found-Chosen s (none, h) = refl
pop_found-Chosen s (some c, h) = pop-Chosen c s h

-- A choice from a scheduler with other fields of its own.
Chosen-choice :
    (s : Scheduler) (h : Choice) (p : Option Request × Scheduler)
    → Chosen (record s { choice = h }) p
    → Chosen s p
Chosen-choice s h (none, t) e = e
Chosen-choice s h (some r, t) e = record {
  class = e.class;
  rest = e.rest;
  head = e.head;
  others = e.others;
}

after_data-Chosen :
    (s : Scheduler) (p : Option Request × Scheduler) → Chosen s p → Chosen s (after_data p)
unfolding after_data
after_data-Chosen s (some r, t) h = record {
  class = h.class;
  rest = h.rest;
  head = h.head;
  others = ap (λ (u : Scheduler). record u { choice = (set_burst 0 t).choice }) h.others;
}
after_data-Chosen s (none, t) h = elim (Bool-cases (control_waiting t.queues)) [
  | inl e ↦
      rw (e, after_data)
        (Chosen-choice s t.choice (take_control t)
          (subst (λ u. Chosen u (take_control t)) h (take_control-Chosen t)))
  | inr e ↦ rw (e, after_data) h
]

-- `next` takes the head of one class's queue and leaves the rest of that queue, the other queues,
-- the waiters, the byte counts, the active request and the terminal error as they are; when it
-- finds nothing it changes none of these.
pub next-Chosen : (s : Scheduler) → Chosen s (next s)
unfolding next
next-Chosen s =
    elim (Bool-cases (
      control_waiting s.queues
      && (ltb s.choice.control_burst control_burst_limit || not (has_data s.queues)))) [
        | inl e ↦ rw (e, next) (take_control-Chosen s)
        | inr e ↦ elim (Bool-cases (has_data s.queues)) [
          | inl d ↦
              rw (e, d, next)
                (after_data-Chosen s (next_data s) (unfold next_data in pop_found-Chosen s _))
          | inr d ↦ rw (e, d, next) (after_data-Chosen s (none, s) refl)
        ]
      ]
