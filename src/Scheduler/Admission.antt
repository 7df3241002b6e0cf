-- ===== src/Scheduler/Admission.antt =====
-- Admission to the bounded queues of agent/internal/multilane/scheduler.go, and the removal of a
-- waiter or a queued request whose caller gives up.
use share_bridge.Prelude.{
  ℕ, ◌+◌, Bool, true, false, List, [], ◌∷◌, ◌++◌, Option, none, some, leb, ◌==◌, if◌then◌else◌,
  length,
}
use share_bridge.Lane.{TrafficClass, class_key}
use share_bridge.Scheduler.State.{
  Scheduler, Request, Waiter, SendError, put, class_cap, is_empty, reset_empty_lane, set_queue,
}

unfoldable pub enqueue : ℕ → TrafficClass → ℕ → List ℕ → Scheduler → Scheduler
enqueue call class kind payload s =
    let request : Request = record { call = call; class = class; kind = kind; payload = payload } in
    record s {
      bytes = put class (s.bytes class + length payload) s.bytes;
      queues = put class (s.queues class ++ request ∷ []) s.queues;
    }

unfoldable pub resolve : ℕ → Option SendError → Scheduler → Scheduler
resolve call e s = record s { resolved = (call, e) ∷ s.resolved }

-- The cap that admission reads: 0 for a class without one.
unfoldable pub cap_or_zero : TrafficClass → ℕ
unfolding class_cap
cap_or_zero c = elim (class_cap c) [ none ↦ 0 | some cap ↦ cap ]

-- The loop of admitWaitersLocked, over the waiters that are left.
unfoldable pub admit_loop : TrafficClass → List Waiter → Scheduler → List Waiter × Scheduler
unfolding cap_or_zero enqueue
admit_loop c [] s = ([], s)
admit_loop c (w ∷ ws) s =
    let rest = admit_loop c ws (enqueue w.call w.class w.kind w.payload s) in
    if leb (s.bytes c + length w.payload) (cap_or_zero c) then rest else (w ∷ ws, s)

unfoldable pub admit_waiters : TrafficClass → Scheduler → Scheduler
unfolding admit_loop
admit_waiters c s =
    let (left, s') = admit_loop c (s.admission_waiters c) s in
    record s' { admission_waiters = put c left s'.admission_waiters }

-- The first element with the given call, taken out.
unfoldable pub without_waiter : ℕ → List Waiter → Option (List Waiter)
without_waiter call [] = none
without_waiter call (w ∷ ws) =
    let rest = without_waiter call ws in
    if w.call == call then some ws else elim rest [ none ↦ none | some l ↦ some (w ∷ l) ]

-- The request comes with the rest of the queue: the caller holds the pointer and reads its size.
unfoldable pub without_request : ℕ → List Request → Option (Request × List Request)
without_request call [] = none
without_request call (r ∷ rs) =
    let rest = without_request call rs in
    if r.call == call
    then some (r, rs)
    else elim rest [ none ↦ none | some (x, l) ↦ some (x, r ∷ l) ]

unfoldable pub remove_waiter : ℕ → TrafficClass → Scheduler → Bool × Scheduler
unfolding without_waiter reset_empty_lane
remove_waiter call c s = elim (without_waiter call (s.admission_waiters c)) [
  | none ↦ (false, s)
  | some left ↦
      let s' = record s { admission_waiters = put c left s.admission_waiters } in
      (true, if is_empty (s'.queues c) then reset_empty_lane c s' else s')
]

unfoldable pub remove_queued : ℕ → TrafficClass → Scheduler → Option Request × Scheduler
unfolding without_request set_queue
remove_queued call c s = elim (without_request call (s.queues c)) [
  | none ↦ (none, s)
  | some (request, left) ↦ (some request, set_queue c left s)
]
