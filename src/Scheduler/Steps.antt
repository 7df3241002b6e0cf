-- ===== src/Scheduler/Steps.antt =====
-- The sections of agent/internal/multilane/scheduler.go that run under the lock: Send up to its
-- first wait, the two ways in which its context ends a wait, Close, and the two halves of the
-- pump's loop, before and after the write. Any interleaving of Send calls, Close and the pump is a
-- list of events.
use share_bridge.Prelude.{
  ℕ, ◌+◌, ◌-◌, Bool, true, false, ◌&&◌, not, List, [], ◌∷◌, ◌++◌, Option, none, some, ltb, leb,
  ◌==◌, if◌then◌else◌, length,
}
use share_bridge.Lane.{
  TrafficClass, control, interactive_media, thumbnail, bulk, class_key, kind_text, kind_binary,
}
use share_bridge.Scheduler.State.{
  Scheduler, Request, Waiter, SendError, unknown_class, request_too_large, unknown_kind,
  empty_payload, scheduler_closed, put, class_cap, is_empty,
}
use share_bridge.Scheduler.Admission.{enqueue, resolve, admit_waiters, remove_waiter, remove_queued}
use share_bridge.Scheduler.Select.{next}

-- The checks of Send before it takes the lock; `none` lets the request through.
unfoldable pub validate : TrafficClass → ℕ → List ℕ → Option SendError → Option SendError
unfolding class_cap
validate class kind payload ctx_err = elim (class_cap class) [
  | none ↦ some (unknown_class class)
  | some cap ↦
      if ltb cap (length payload)
      then some (request_too_large class (length payload) cap)
      else if not (kind == kind_text) && not (kind == kind_binary)
      then some (unknown_kind kind)
      else if length payload == 0
      then some empty_payload
      else ctx_err
]

-- With room and nobody waiting the request is queued, and it waits for admission otherwise.
unfoldable pub admit_or_wait : ℕ → TrafficClass → ℕ → List ℕ → ℕ → Scheduler → Scheduler
unfolding enqueue
admit_or_wait call class kind payload cap s =
    if is_empty (s.admission_waiters class) && leb (s.bytes class + length payload) cap
    then enqueue call class kind payload s
    else (let waiter : Waiter = record {
      call = call;
      class = class;
      kind = kind;
      payload = payload;
    } in
        record s {
          admission_waiters =
              put class (s.admission_waiters class ++ waiter ∷ []) s.admission_waiters;
        })

unfoldable pub send_locked : ℕ → TrafficClass → ℕ → List ℕ → ℕ → Scheduler → Scheduler
unfolding admit_or_wait resolve
send_locked call class kind payload cap s = elim s.terminal [
  | some e ↦ resolve call (some e) s
  | none ↦ admit_or_wait call class kind payload cap s
]

-- Send, up to its first wait. `ctx_err` is what ctx.Err() returns.
unfoldable pub send : ℕ → TrafficClass → ℕ → List ℕ → Option SendError → Scheduler → Scheduler
unfolding validate send_locked
send call class kind payload ctx_err s = elim (validate class kind payload ctx_err) [
  | some e ↦ resolve call (some e) s
  | none ↦ elim (class_cap class) [
    | none ↦ s
    | some cap ↦ send_locked call class kind payload cap s
  ]
]

unfoldable pub withdrawn : ℕ → TrafficClass → SendError → Bool × Scheduler → Scheduler
unfolding admit_waiters resolve
withdrawn call class e (true, s) = resolve call (some e) (admit_waiters class s)
withdrawn call class e (false, s) = s

-- ctx.Done() while the call waits for admission. A waiter that is gone was admitted or failed
-- before, and the call goes on to wait for that.
unfoldable pub cancel_waiting : ℕ → TrafficClass → SendError → Scheduler → Scheduler
unfolding remove_waiter withdrawn
cancel_waiting call class e s = withdrawn call class e (remove_waiter call class s)

unfoldable pub give_back : TrafficClass → ℕ → Scheduler → Scheduler
give_back c n s = record s { bytes = put c (s.bytes c - n) s.bytes }

unfoldable pub cancelled : ℕ → TrafficClass → SendError → Option Request × Scheduler → Scheduler
unfolding give_back admit_waiters resolve
cancelled call class e (none, s) = s
cancelled call class e (some request, s) =
    resolve call (some e) (admit_waiters class (give_back class (length request.payload) s))

-- ctx.Done() while the request is queued or written.
unfoldable pub cancel_queued : ℕ → TrafficClass → SendError → Scheduler → Scheduler
unfolding remove_queued cancelled
cancel_queued call class e s = cancelled call class e (remove_queued call class s)

-- The classes that the maps can have as keys.
abbrev pub classes : List TrafficClass
classes = control ∷ interactive_media ∷ thumbnail ∷ bulk ∷ []

unfoldable pub fail_waiters_in : SendError → List Waiter → Scheduler → Scheduler
unfolding resolve
fail_waiters_in e [] s = s
fail_waiters_in e (w ∷ ws) s = fail_waiters_in e ws (resolve w.call (some e) s)

unfoldable pub fail_waiters_of : SendError → TrafficClass → Scheduler → Scheduler
unfolding fail_waiters_in
fail_waiters_of e c s =
    let s' = fail_waiters_in e (s.admission_waiters c) s in
    record s' { admission_waiters = put c [] s'.admission_waiters }

unfoldable pub fail_admission_waiters : SendError → List TrafficClass → Scheduler → Scheduler
unfolding fail_waiters_of
fail_admission_waiters e [] s = s
fail_admission_waiters e (c ∷ cs) s = fail_admission_waiters e cs (fail_waiters_of e c s)

unfoldable pub fail_requests_in : SendError → TrafficClass → List Request → Scheduler → Scheduler
unfolding give_back resolve
fail_requests_in e c [] s = s
fail_requests_in e c (r ∷ rs) s =
    fail_requests_in e c rs (resolve r.call (some e) (give_back c (length r.payload) s))

unfoldable pub fail_queued_of : SendError → TrafficClass → Scheduler → Scheduler
unfolding fail_requests_in
fail_queued_of e c s =
    let s' = fail_requests_in e c (s.queues c) s in record s' { queues = put c [] s'.queues }

unfoldable pub fail_queued : SendError → List TrafficClass → Scheduler → Scheduler
unfolding fail_queued_of
fail_queued e [] s = s
fail_queued e (c ∷ cs) s = fail_queued e cs (fail_queued_of e c s)

unfoldable pub terminate : SendError → Scheduler → Scheduler
terminate e s =
    fail_queued e classes (fail_admission_waiters e classes (record s { terminal = some e }))

unfoldable pub close : Scheduler → Scheduler
unfolding terminate
close s = elim s.terminal [ none ↦ terminate scheduler_closed s | some e ↦ s ]

unfoldable pub set_active : Option Request × Scheduler → Scheduler
set_active (none, s) = s
set_active (some request, s) = record s { active = some request }

-- The pump before the write: it takes the next request, or waits to be notified.
unfoldable pub pump_take : Scheduler → Scheduler
unfolding next set_active
pump_take s = elim s.terminal [
  | some e ↦ s
  | none ↦ elim s.active [ some r ↦ s | none ↦ set_active (next s) ]
]

-- What the pump does with the write's error, if the scheduler is still open.
unfoldable pub after_write : TrafficClass → Option SendError → Scheduler → Scheduler
unfolding terminate admit_waiters
after_write class e s = elim s.terminal [
  | some t ↦ s
  | none ↦ elim e [ none ↦ admit_waiters class s | some x ↦ terminate x s ]
]

-- The pump after the write of the active request returned `e`.
unfoldable pub pump_complete : Option SendError → Scheduler → Scheduler
unfolding give_back after_write resolve
pump_complete e s = elim s.active [
  | none ↦ s
  | some r ↦
      resolve r.call e
        (after_write r.class e (give_back r.class (length r.payload) (record s { active = none })))
]

pub data Event : Type 0 where
  sends : ℕ → TrafficClass → ℕ → List ℕ → Option SendError → Event
  cancels_waiting cancels_queued : ℕ → TrafficClass → SendError → Event
  closes takes : Event
  completes : Option SendError → Event

unfoldable pub step : Event → Scheduler → Scheduler
unfolding send cancel_waiting cancel_queued close pump_take pump_complete
step (sends call class kind payload ctx_err) s = send call class kind payload ctx_err s
step (cancels_waiting call class e) s = cancel_waiting call class e s
step (cancels_queued call class e) s = cancel_queued call class e s
step closes s = close s
step takes s = pump_take s
step (completes e) s = pump_complete e s

unfoldable pub run : List Event → Scheduler → Scheduler
unfolding step
run [] s = s
run (x ∷ xs) s = run xs (step x s)
