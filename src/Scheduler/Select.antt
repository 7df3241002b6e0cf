-- ===== src/Scheduler/Select.antt =====
-- The choice of the next request in agent/internal/multilane/scheduler.go: control first, within its
-- burst limit, then media against bulk, 3 to 1 by bytes, and within media the interactive class
-- against thumbnails, 3 to 1 again. The two round-robin loops take fuel.
use share_bridge.Prelude.{
  ℕ, zero, suc, ◌+◌, ◌-◌, ◌*◌, ◌%◌, Bool, true, false, ◌&&◌, ◌||◌, not, List, [], ◌∷◌, Option, none,
  some, ltb, leb, ◌==◌, if◌then◌else◌, length,
}
use share_bridge.Lane.{TrafficClass, control, interactive_media, thumbnail, bulk}
use share_bridge.Scheduler.State.{
  Scheduler, Choice, Request, ByClass, base_quantum_bytes, control_burst_limit, is_empty, has_media,
  pop,
}

abbrev pub Queues : Type 0
Queues = ByClass (List Request)

-- How a turn of a round-robin ends: the turn passes on, or something is found.
pub data Round (A : Type 0) : Type 0 where
  again : Choice → Round A
  found : A → Choice → Round A

unfoldable pub add_inner_round : Queues → Choice → Choice
add_inner_round q h = record h {
  inner_deficit0 =
      if not (is_empty (q interactive_media)) then h.inner_deficit0 + 3 * base_quantum_bytes else 0;
  inner_deficit1 =
      if not (is_empty (q thumbnail)) then h.inner_deficit1 + base_quantum_bytes else 0;
}

unfoldable pub advance_inner : Queues → Choice → Choice
unfolding add_inner_round
advance_inner q h =
    let h' = record h { inner_current = (h.inner_current + 1) % 2 } in
    if h'.inner_current == 0 then add_inner_round q h' else h'

unfoldable pub inner_class : Choice → TrafficClass
inner_class h = if h.inner_current == 1 then thumbnail else interactive_media

-- s.innerDeficit[s.innerCurrent]
unfoldable pub inner_deficit : Choice → ℕ
inner_deficit h = if h.inner_current == 0 then h.inner_deficit0 else h.inner_deficit1

unfoldable pub set_inner_deficit : ℕ → Choice → Choice
set_inner_deficit d h =
    if h.inner_current == 0
    then record h { inner_deficit0 = d }
    else record h { inner_deficit1 = d }

unfoldable pub peek_head : Queues → List Request → Choice → Round Request
unfolding set_inner_deficit inner_deficit advance_inner
peek_head q [] h = again (advance_inner q (set_inner_deficit 0 h))
peek_head q (request ∷ rest) h =
    if leb (length request.payload) (inner_deficit h)
    then found request (set_inner_deficit (inner_deficit h - length request.payload) h)
    else again (advance_inner q h)

-- The body of peekMediaLocked's loop.
unfoldable pub peek_round : Queues → Choice → Round Request
unfolding peek_head inner_class
peek_round q h = peek_head q (q (inner_class h)) h

unfoldable pub peek_loop : ℕ → Queues → Choice → Option Request × Choice
unfolding has_media
peek_loop zero q h = (none, h)
peek_loop (suc fuel) q h = elim (has_media q) [
  | false ↦ (none, h)
  | true ↦ elim (peek_round q h) [ again h' ↦ peek_loop fuel q h' | found r h' ↦ (some r, h') ]
]

-- Twice the rounds that a thumbnail of the largest size waits for, and the turn before them.
abbrev pub peek_fuel : ℕ
peek_fuel = 66

unfoldable pub start_inner : Queues → Choice → Choice
unfolding add_inner_round
start_inner q h =
    if not h.inner_started then record (add_inner_round q h) { inner_started = true } else h

unfoldable pub peek_media : Queues → Choice → Option Request × Choice
unfolding start_inner
peek_media q h = peek_loop peek_fuel q (start_inner q h)

unfoldable pub add_outer_round : Queues → Choice → Choice
unfolding has_media
add_outer_round q h = record h {
  outer_deficit0 = if has_media q then h.outer_deficit0 + 3 * base_quantum_bytes else 0;
  outer_deficit1 = if not (is_empty (q bulk)) then h.outer_deficit1 + base_quantum_bytes else 0;
}

unfoldable pub advance_outer : Queues → Choice → Choice
unfolding add_outer_round
advance_outer q h =
    let h' = record h { outer_current = (h.outer_current + 1) % 2 } in
    if h'.outer_current == 0 then add_outer_round q h' else h'

-- The inner round-robin of `old` put back.
unfoldable pub restore_inner : Choice → Choice → Choice
restore_inner old h = record h {
  inner_current = old.inner_current;
  inner_deficit0 = old.inner_deficit0;
  inner_deficit1 = old.inner_deficit1;
  inner_started = old.inner_started;
}

-- What peekMediaLocked found is taken if the media deficit covers it; `found` gives the class whose
-- queue is popped. Where it found nothing the source would dereference nil.
unfoldable pub take_media : Queues → Choice → Option Request × Choice → Round TrafficClass
unfolding restore_inner advance_outer
take_media q h (none, h') = again h'
take_media q h (some request, h') =
    let size = length request.payload in
    if leb size h'.outer_deficit0
    then found request.class (record h' { outer_deficit0 = h'.outer_deficit0 - size })
    else again (advance_outer q (restore_inner h h'))

unfoldable pub take_bulk : Queues → List Request → Choice → Round TrafficClass
unfolding advance_outer
take_bulk q [] h = again (advance_outer q (record h { outer_deficit1 = 0 }))
take_bulk q (request ∷ rest) h =
    let size = length request.payload in
    if leb size h.outer_deficit1
    then found bulk (record h { outer_deficit1 = h.outer_deficit1 - size })
    else again (advance_outer q h)

-- The body of nextDataLocked's loop.
unfoldable pub data_round : Queues → Choice → Round TrafficClass
unfolding take_media take_bulk peek_media has_media
data_round q h =
    if h.outer_current == 0
    then (if not (has_media q)
        then again (advance_outer q (record h { outer_deficit0 = 0 }))
        else take_media q h (peek_media q h))
    else take_bulk q (q bulk) h

unfoldable pub has_data : Queues → Bool
unfolding has_media
has_data q = has_media q || not (is_empty (q bulk))

unfoldable pub data_loop : ℕ → Queues → Choice → Option TrafficClass × Choice
unfolding has_data
data_loop zero q h = (none, h)
data_loop (suc fuel) q h = elim (has_data q) [
  | false ↦ (none, h)
  | true ↦ elim (data_round q h) [ again h' ↦ data_loop fuel q h' | found c h' ↦ (some c, h') ]
]

-- Twice the rounds that a media request of the largest size waits for, and the turn before them.
abbrev pub data_fuel : ℕ
data_fuel = 24

unfoldable pub start_outer : Queues → Choice → Choice
unfolding add_outer_round
start_outer q h =
    if not h.outer_started then record (add_outer_round q h) { outer_started = true } else h

unfoldable pub pop_found : Scheduler → Option TrafficClass × Choice → Option Request × Scheduler
unfolding pop
pop_found s (none, h) = (none, record s { choice = h })
pop_found s (some c, h) = pop c (record s { choice = h })

unfoldable pub next_data : Scheduler → Option Request × Scheduler
unfolding pop_found start_outer
next_data s = pop_found s (data_loop data_fuel s.queues (start_outer s.queues s.choice))

unfoldable pub set_burst : ℕ → Scheduler → Scheduler
set_burst n s = record s { choice = record s.choice { control_burst = n } }

unfoldable pub take_control : Scheduler → Option Request × Scheduler
unfolding pop set_burst
take_control s = pop control (set_burst (s.choice.control_burst + 1) s)

unfoldable pub control_waiting : Queues → Bool
control_waiting q = not (is_empty (q control))

-- What nextLocked does after it has asked nextDataLocked.
unfoldable pub after_data : Option Request × Scheduler → Option Request × Scheduler
unfolding take_control control_waiting set_burst
after_data (some request, s) = (some request, set_burst 0 s)
after_data (none, s) = if control_waiting s.queues then take_control s else (none, s)

unfoldable pub next : Scheduler → Option Request × Scheduler
unfolding after_data has_data control_waiting
next s =
    if control_waiting s.queues
      && (ltb s.choice.control_burst control_burst_limit || not (has_data s.queues))
    then take_control s
    else if has_data s.queues
    then after_data (next_data s)
    else after_data (none, s)
