-- ===== src/Scheduler/Progress.antt =====
-- nextLocked: it leaves nothing waiting, and control traffic cannot keep the other classes out.
use share_bridge.Prelude.{
  ◌+◌, ◌≤◌, ◌<◌, ◌≡◌, ◌≢◌, refl, ap, ◌⊎◌, inl, inr, Bool, true, false, ◌&&◌, ◌||◌, not, List, [],
  ◌∷◌, Option, none, some, arith, Bool-cases, ltb,
}
use share_bridge.Lane.{TrafficClass, control}
use share_bridge.Scheduler.State.{
  Scheduler, Choice, Request, put, control_burst_limit, is_empty, reset_class, reset_choice,
  set_queue, pop, pop_from,
}
use share_bridge.Scheduler.Select.{
  data_loop, data_fuel, start_outer, has_data, pop_found, next_data, set_burst, take_control,
  control_waiting, after_data, next,
}
use share_bridge.Scheduler.Turns.{WellQueued, OnTurn, DataFound, data_loop_finds}

pub reset_class-OnTurn : (c : TrafficClass) (h : Choice) → OnTurn h → OnTurn (reset_class c h)
unfolding reset_class
reset_class-OnTurn control h t = t
reset_class-OnTurn c h t = ground arith

pub reset_choice-OnTurn :
    (c : TrafficClass) (s : Scheduler) → OnTurn s.choice → OnTurn (reset_choice c s)
unfolding reset_choice
reset_choice-OnTurn c s t = let r = reset_class-OnTurn c s.choice t in ground arith

pub set_queue-OnTurn :
    (c : TrafficClass) (queue : List Request) (s : Scheduler)
    → OnTurn s.choice
    → OnTurn (set_queue c queue s).choice
unfolding set_queue
set_queue-OnTurn c [] s t = reset_choice-OnTurn c (record s { queues = put c [] s.queues }) t
set_queue-OnTurn c (r ∷ queue) s t = t

-- What a pop returns, where a request waits.
pop-head :
    (c : TrafficClass) (s : Scheduler) (r : Request) (rest : List Request)
    → s.queues c ≡ r ∷ rest
    → pop c s ≡ (some r, set_queue c rest s)
unfolding pop
pop-head c s r rest e = ap (λ queue. pop_from c queue s) e

-- A request of the class `c`, other than control, is popped.
pub record FromData (s : Scheduler) (p : Option Request × Scheduler) : Type 0 where
  pub class : TrafficClass
  pub request : Request
  pub rest : List Request
  pub before : Choice
  pub head : s.queues class ≡ request ∷ rest
  pub data_class : class ≢ control
  pub turns : OnTurn before
  pub result : p ≡ (some request, set_queue class rest (record s { choice = before }))

pop_found-FromData :
    (s : Scheduler) (p : Option TrafficClass × Choice)
    → DataFound s.queues p
    → FromData s (pop_found s p)
unfolding pop_found
pop_found-FromData s (none, h) d = absurd d
pop_found-FromData s (some c, h) ((r, rest, e, n), t) = record {
  class = c;
  request = r;
  rest = rest;
  before = h;
  head = e;
  data_class = n;
  turns = t;
  result = pop-head c (record s { choice = h }) r rest e;
}

pub next_data-FromData :
    (s : Scheduler)
    → WellQueued s.queues
    → OnTurn s.choice
    → has_data s.queues ≡ true
    → FromData s (next_data s)
unfolding next_data
next_data-FromData s w t d =
    pop_found-FromData s (data_loop data_fuel s.queues (start_outer s.queues s.choice))
      (data_loop_finds s.queues s.choice d w t)

-- Where data waits and control does not come first, `next` takes from data.
pub next-eq-next_data :
    (s : Scheduler)
    → has_data s.queues ≡ true
    → (control_waiting s.queues ≡ false) ⊎ (control_burst_limit ≤ s.choice.control_burst)
    → next s ≡ after_data (next_data s)
unfolding next
next-eq-next_data s d late =
    let last : (control_waiting s.queues
          && (ltb s.choice.control_burst control_burst_limit || not (has_data s.queues)))
        ≡ false =
      ground arith in
    rw (last, d, next)

-- Where control comes first, `next` takes the head of its queue.
pub next-eq-take_control :
    (s : Scheduler)
    → control_waiting s.queues ≡ true
    → (has_data s.queues ≡ false) ⊎ (s.choice.control_burst < control_burst_limit)
    → next s ≡ take_control s
unfolding next
next-eq-take_control s c early =
    let first : (control_waiting s.queues
          && (ltb s.choice.control_burst control_burst_limit || not (has_data s.queues)))
        ≡ true =
      ground arith in
    rw (first, next)

-- Whether a choice found a request.
abbrev pub finds : Option Request × Scheduler → Bool
finds (none, t) = false
finds (some r, t) = true

finds-pop_from :
    (c : TrafficClass) (queue : List Request) (s : Scheduler)
    → finds (pop_from c queue s) ≡ not (is_empty queue)
unfolding pop_from
finds-pop_from c [] s = refl
finds-pop_from c (r ∷ queue) s = refl

finds-take_control : (s : Scheduler) → finds (take_control s) ≡ control_waiting s.queues
unfolding take_control control_waiting
finds-take_control s =
    finds-pop_from control (s.queues control) (set_burst (s.choice.control_burst + 1) s)

finds-after_data : (p : Option Request × Scheduler) → finds p ≡ true → finds (after_data p) ≡ true
unfolding after_data
finds-after_data (none, t) h = cc
finds-after_data (some r, t) h = refl

-- Which of the two comes first.
pub data TurnOf (s : Scheduler) : Type 0 where
  control_first :
      control_waiting s.queues ≡ true
      → (has_data s.queues ≡ false) ⊎ (s.choice.control_burst < control_burst_limit)
      → TurnOf s
  data_first :
      has_data s.queues ≡ true
      → (control_waiting s.queues ≡ false) ⊎ (control_burst_limit ≤ s.choice.control_burst)
      → TurnOf s
  idle : control_waiting s.queues ≡ false → has_data s.queues ≡ false → TurnOf s

pub turn_of : (s : Scheduler) → TurnOf s
turn_of s = elim (Bool-cases (has_data s.queues)) [
  | inr d ↦ elim (Bool-cases (control_waiting s.queues)) [
    | inl c ↦ control_first c (inl d)
    | inr c ↦ idle c d
  ]
  | inl d ↦ elim (Bool-cases (control_waiting s.queues)) [
    | inr c ↦ data_first d (inl c)
    | inl c ↦ elim (Bool-cases (ltb s.choice.control_burst control_burst_limit)) [
      | inl b ↦ control_first c (inr (ground arith))
      | inr b ↦ data_first d (inr (ground arith))
    ]
  ]
]

next-idle :
    (s : Scheduler)
    → control_waiting s.queues ≡ false
    → has_data s.queues ≡ false
    → next s ≡ (none, s)
unfolding next
next-idle s c d = rw (c, d, next, after_data)

-- Where every queued request is of its queue's class and within its cap, and the turns of both
-- round-robins are 0 or 1, nextLocked finds a request exactly when one waits, in the control queue or
-- in a data queue: the fuel of the loops does not run out first.
pub next-finds :
    (s : Scheduler)
    → WellQueued s.queues
    → OnTurn s.choice
    → finds (next s) ≡ (control_waiting s.queues || has_data s.queues)
next-finds s w t = elim (turn_of s) [
  | control_first c e ↦ ground (arith, ap finds (next-eq-take_control s c e), finds-take_control s)
  | data_first d e ↦
      let f = next_data-FromData s w t d in
      ground (
        arith,
        ap finds (next-eq-next_data s d e),
        finds-after_data (next_data s) (ap finds f.result),
      )
  | idle c d ↦ ground (arith, ap finds (next-idle s c d))
]

-- The invariant of the choice is kept.
FromData-OnTurn :
    (s : Scheduler) (p : Option Request × Scheduler) → FromData s p → OnTurn (after_data p).1.choice
unfolding after_data set_burst
FromData-OnTurn s (none, t) f = absurd (let e = f.result in cc)
FromData-OnTurn s (some r, t) f =
    let o = set_queue-OnTurn f.class f.rest (record s { choice = f.before }) f.turns in
    let e : t ≡ set_queue f.class f.rest (record s { choice = f.before }) = cc f.result in
    rw e (record { outer = o.outer; inner = o.inner })

OnTurn-pop_from :
    (c : TrafficClass) (queue : List Request) (s : Scheduler)
    → OnTurn s.choice
    → OnTurn (pop_from c queue s).1.choice
unfolding pop_from
OnTurn-pop_from c [] s t = t
OnTurn-pop_from c (r ∷ queue) s t = set_queue-OnTurn c queue s t

OnTurn-take_control : (s : Scheduler) → OnTurn s.choice → OnTurn (take_control s).1.choice
unfolding take_control
OnTurn-take_control s t =
    OnTurn-pop_from control (s.queues control) (set_burst (s.choice.control_burst + 1) s)
      (unfold set_burst in record { outer = t.outer; inner = t.inner })

pub next-OnTurn : (s : Scheduler) → WellQueued s.queues → OnTurn s.choice → OnTurn (next s).1.choice
next-OnTurn s w t = elim (turn_of s) [
  | control_first c e ↦ rw (next-eq-take_control s c e) (OnTurn-take_control s t)
  | data_first d e ↦
      rw (next-eq-next_data s d e) (FromData-OnTurn s (next_data s) (next_data-FromData s w t d))
  | idle c d ↦ rw (next-idle s c d) t
]
