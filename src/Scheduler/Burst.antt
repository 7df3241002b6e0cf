-- ===== src/Scheduler/Burst.antt =====
-- nextLocked's limit on control traffic while data waits.
use share_bridge.Prelude.{
  ◌+◌, ◌<◌, ◌≡◌, ◌≢◌, refl, sym, ◌∙◌, ◌⊎◌, inl, inr, true, not, List, [], ◌∷◌, Option, some, arith,
}
use share_bridge.Lane.{TrafficClass, control}
use share_bridge.Scheduler.State.{
  Scheduler, Choice, Request, put, control_burst_limit, is_empty, reset_class, reset_choice,
  set_queue, pop, pop_from,
}
use share_bridge.Scheduler.Select.{
  has_data, next_data, set_burst, take_control, control_waiting, after_data, next,
}
use share_bridge.Scheduler.Turns.{WellQueued, OnTurn}
use share_bridge.Scheduler.Progress.{
  FromData, next_data-FromData, next-eq-next_data, next-eq-take_control, turn_of, control_first,
  data_first, idle,
}

burst-reset_class :
    (c : TrafficClass) (h : Choice) → (reset_class c h).control_burst ≡ h.control_burst
unfolding reset_class
burst-reset_class c h = ground arith

burst-reset_choice :
    (c : TrafficClass) (s : Scheduler) → (reset_choice c s).control_burst ≡ s.choice.control_burst
unfolding reset_choice
burst-reset_choice c s = ground (arith, burst-reset_class c s.choice)

burst-set_queue :
    (c : TrafficClass) (queue : List Request) (s : Scheduler)
    → (set_queue c queue s).choice.control_burst ≡ s.choice.control_burst
unfolding set_queue
burst-set_queue c [] s = burst-reset_choice c (record s { queues = put c [] s.queues })
burst-set_queue c (r ∷ queue) s = refl

-- What a pick says where data waits: control goes first and the burst grows, from below its limit, or
-- another class goes and the burst ends.
abbrev pub Picked : Scheduler → Option Request × Scheduler → Type 0
Picked s p =
    (r : Request) × (p.0 ≡ some r)
    × (((r.class ≡ control)
          × (s.choice.control_burst < control_burst_limit)
          × (p.1.choice.control_burst ≡ s.choice.control_burst + 1))
        ⊎ ((r.class ≢ control) × (p.1.choice.control_burst ≡ 0)))

pop_control-Picked :
    (s t : Scheduler) (queue : List Request)
    → s.queues control ≡ queue
    → not (is_empty queue) ≡ true
    → WellQueued s.queues
    → s.choice.control_burst < control_burst_limit
    → t.choice.control_burst ≡ s.choice.control_burst + 1
    → Picked s (pop_from control queue t)
unfolding pop_from
pop_control-Picked s t [] e waits w small up = absurd (ground arith)
pop_control-Picked s t (r ∷ rest) e waits w small up =
    (r, refl, inl ((w control r rest e).0, small, burst-set_queue control rest t ∙ up))

after_data-Picked :
    (s : Scheduler) (p : Option Request × Scheduler)
    → WellQueued s.queues
    → FromData s p
    → Picked s (after_data p)
unfolding after_data set_burst
after_data-Picked s p w f = rw f.result (
  f.request,
  refl,
  inr ((λ c. f.data_class (sym (w f.class f.request f.rest f.head).0 ∙ c)), refl),
)

-- Where data waits, in a well-formed state, nextLocked returns a request: one of control only while
-- fewer than eight of control have gone since the last of another class, which it counts, and one of
-- another class otherwise, which starts the count again.
pub next-Picked :
    (s : Scheduler)
    → WellQueued s.queues
    → OnTurn s.choice
    → has_data s.queues ≡ true
    → Picked s (next s)
next-Picked s w t d = elim (turn_of s) [
  | control_first c (inl none_waits) ↦ absurd (ground arith)
  | control_first c (inr small) ↦ rw (next-eq-take_control s c (inr small)) (
      unfold take_control pop control_waiting in
      pop_control-Picked s (set_burst (s.choice.control_burst + 1) s) (s.queues control) refl c w
        small refl)
  | data_first e late ↦
      rw (next-eq-next_data s e late)
        (after_data-Picked s (next_data s) w (next_data-FromData s w t d))
  | idle c none_waits ↦ absurd (ground arith)
]
