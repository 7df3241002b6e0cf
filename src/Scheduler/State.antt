-- ===== src/Scheduler/State.antt =====
-- The scheduler's state and the operations on one class. A pointer to a request or a waiter is the
-- number of the Send call that made it: a call makes at most one of each. `resolved` is what the
-- done and ready channels have delivered: a call with its error, or with `none` for success.
use share_bridge.Prelude.{
  ℕ, ◌*◌, Bool, true, false, ◌&&◌, ◌||◌, not, List, [], ◌∷◌, Option, none, some, if◌then◌else◌,
  ◌=?◌,
}
use share_bridge.Lane.{
  TrafficClass, control, interactive_media, thumbnail, bulk, unassigned, class_key,
}

abbrev pub base_quantum_bytes : ℕ
base_quantum_bytes = 64 * 1024

abbrev pub control_burst_limit : ℕ
control_burst_limit = 8

abbrev pub control_queue_cap_bytes : ℕ
control_queue_cap_bytes = 8 * 1024 * 1024

abbrev pub interactive_queue_cap_bytes : ℕ
interactive_queue_cap_bytes = 512 * 1024

abbrev pub thumbnail_queue_cap_bytes : ℕ
thumbnail_queue_cap_bytes = 2 * 1024 * 1024

abbrev pub bulk_queue_cap_bytes : ℕ
bulk_queue_cap_bytes = 256 * 1024

pub data SendError : Type 0 where
  unknown_class : TrafficClass → SendError
  request_too_large : TrafficClass → ℕ → ℕ → SendError
  unknown_kind : ℕ → SendError
  empty_payload scheduler_closed : SendError
  write_error context_error : ℕ → SendError

pub record Request : Type 0 where
  pub call : ℕ
  pub class : TrafficClass
  pub kind : ℕ
  pub payload : List ℕ

pub record Waiter : Type 0 where
  pub call : ℕ
  pub class : TrafficClass
  pub kind : ℕ
  pub payload : List ℕ

-- A Go map keyed by class, read with the zero value for a missing key.
abbrev pub ByClass : Type 0 → Type 0
ByClass A = TrafficClass → A

abbrev pub put : {A : Type 0} → TrafficClass → A → ByClass A → ByClass A
put c v m d = if c =? d then v else m d

-- What the choice of the next request keeps: the control burst, and for the two round-robins whose
-- turn it is, the deficits, and whether the first quanta have been handed out.
pub record Choice : Type 0 where
  pub control_burst : ℕ
  pub outer_current : ℕ
  pub outer_deficit0 : ℕ
  pub outer_deficit1 : ℕ
  pub outer_started : Bool
  pub inner_current : ℕ
  pub inner_deficit0 : ℕ
  pub inner_deficit1 : ℕ
  pub inner_started : Bool

pub record Scheduler : Type 0 where
  pub queues : ByClass (List Request)
  pub bytes : ByClass ℕ
  pub admission_waiters : ByClass (List Waiter)
  pub terminal : Option SendError
  pub active : Option Request
  pub choice : Choice
  pub resolved : List (ℕ × Option SendError)

unfoldable pub new_scheduler : Scheduler
new_scheduler = record {
  queues = λ c. [];
  bytes = λ c. 0;
  admission_waiters = λ c. [];
  terminal = none;
  active = none;
  choice = record {
    control_burst = 0;
    outer_current = 0;
    outer_deficit0 = 0;
    outer_deficit1 = 0;
    outer_started = false;
    inner_current = 0;
    inner_deficit0 = 0;
    inner_deficit1 = 0;
    inner_started = false;
  };
  resolved = [];
}

unfoldable pub class_cap : TrafficClass → Option ℕ
class_cap control = some control_queue_cap_bytes
class_cap interactive_media = some interactive_queue_cap_bytes
class_cap thumbnail = some thumbnail_queue_cap_bytes
class_cap bulk = some bulk_queue_cap_bytes
class_cap (unassigned b) = none

abbrev pub is_empty : {A : Type 0} → List A → Bool
is_empty [] = true
is_empty (x ∷ xs) = false

unfoldable pub has_media : ByClass (List Request) → Bool
has_media queues = not (is_empty (queues interactive_media)) || not (is_empty (queues thumbnail))

unfoldable pub has_class_demand : TrafficClass → Scheduler → Bool
has_class_demand c s = not (is_empty (s.queues c)) || not (is_empty (s.admission_waiters c))

unfoldable pub has_media_demand : Scheduler → Bool
unfolding has_class_demand
has_media_demand s = has_class_demand interactive_media s || has_class_demand thumbnail s

-- The switch on the class of resetEmptyLaneLocked.
unfoldable pub reset_class : TrafficClass → Choice → Choice
reset_class interactive_media h = record h { inner_deficit0 = 0 }
reset_class thumbnail h = record h { inner_deficit1 = 0 }
reset_class bulk h = record h { outer_deficit1 = 0 }
reset_class control h = h
reset_class (unassigned b) h = h

unfoldable pub reset_media : Choice → Choice
reset_media h = record h {
  outer_deficit0 = 0;
  inner_current = 0;
  inner_deficit0 = 0;
  inner_deficit1 = 0;
  inner_started = false;
}

unfoldable pub reset_outer : Choice → Choice
reset_outer h = record h {
  outer_current = 0;
  outer_deficit0 = 0;
  outer_deficit1 = 0;
  outer_started = false;
}

-- The three tests read the queues and the waiters alone, which no reset changes.
unfoldable pub reset_choice : TrafficClass → Scheduler → Choice
unfolding reset_class reset_media reset_outer has_class_demand has_media_demand
reset_choice c s =
    let h1 = if not (has_class_demand c s) then reset_class c s.choice else s.choice in
    let h2 = if not (has_media_demand s) then reset_media h1 else h1 in
    if not (has_media_demand s) && not (has_class_demand bulk s) then reset_outer h2 else h2

unfoldable pub reset_empty_lane : TrafficClass → Scheduler → Scheduler
unfolding reset_choice
reset_empty_lane c s = record s { choice = reset_choice c s }

-- The queue of a class is replaced; an empty one resets its lane.
unfoldable pub set_queue : TrafficClass → List Request → Scheduler → Scheduler
unfolding reset_empty_lane
set_queue c queue s =
    let s' = record s { queues = put c queue s.queues } in
    if is_empty queue then reset_empty_lane c s' else s'

-- `none` is the panic on an empty queue.
unfoldable pub pop_from : TrafficClass → List Request → Scheduler → Option Request × Scheduler
pop_from c [] s = (none, s)
pop_from c (request ∷ rest) s = (some request, set_queue c rest s)

unfoldable pub pop : TrafficClass → Scheduler → Option Request × Scheduler
unfolding pop_from
pop c s = pop_from c (s.queues c) s
