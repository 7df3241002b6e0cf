-- ===== src/Scheduler/Turns.antt =====
-- The outer round-robin, nextDataLocked: while media or bulk requests wait, it finds one within
-- `data_fuel` turns, so nextLocked never leaves a request waiting.
use share_bridge.Prelude.{
  ℕ, zero, suc, ◌+◌, ◌-◌, ◌*◌, ◌≤◌, ◌<◌, ◌≡◌, ◌≢◌, refl, inl, inr, true, false, List, [], ◌∷◌,
  Option, none, some, arith, length, subst, sym, Bool-cases, ◌==◌,
}
use share_bridge.Lane.{TrafficClass, control, interactive_media, thumbnail, bulk}
use share_bridge.Scheduler.State.{
  Choice, Request, base_quantum_bytes, has_media, thumbnail_queue_cap_bytes,
}
use share_bridge.Scheduler.Admission.{cap_or_zero}
use share_bridge.Scheduler.Select.{
  Queues, again, found, advance_outer, peek_media, take_media, take_bulk, data_round, data_loop,
  has_data, data_fuel, start_outer,
}
use share_bridge.Scheduler.Peek.{
  Round-cases, MediaHead, interactive_head, thumbnail_head, MediaFits, Peeked, peek_media-Peeked,
}

-- Each queue holds requests of its own class, within the cap of the class.
abbrev pub WellQueued : Queues → Type 0
WellQueued q =
    (c : TrafficClass) (r : Request) (rest : List Request)
    → q c ≡ r ∷ rest
    → (r.class ≡ c) × (length r.payload ≤ cap_or_zero c)

-- Whose turn it is, is 0 or 1 in both round-robins.
pub record OnTurn (h : Choice) : Type 0 where
  pub outer : h.outer_current < 2
  pub inner : h.inner_current < 2

WellQueued-MediaFits : (q : Queues) → WellQueued q → MediaFits q
unfolding cap_or_zero
WellQueued-MediaFits q w = record {
  interactive = λ r rest e. (w interactive_media r rest e).1;
  thumb = λ r rest e. (w thumbnail r rest e).1;
}

-- A turn that passes on.
record OuterPassed (q : Queues) (h k : Choice) : Type 0 where
  turns : OnTurn k
  other : k.outer_current + h.outer_current ≡ 1
  media :
      has_media q ≡ true
      → (h.outer_deficit0 + 3 * base_quantum_bytes * h.outer_current ≤ k.outer_deficit0)
        × (h.outer_current ≡ 0 → h.outer_deficit0 < thumbnail_queue_cap_bytes)
  bulks :
      (r : Request) (rest : List Request)
      → q bulk ≡ r ∷ rest
      → (h.outer_deficit1 + base_quantum_bytes * h.outer_current ≤ k.outer_deficit1)
        × (h.outer_current ≡ 1 → h.outer_deficit1 < length r.payload)

-- A request of a class other than control waits there.
abbrev pub HasHead : Queues → TrafficClass → Type 0
HasHead q c = (r : Request) × (rest : List Request) × (q c ≡ r ∷ rest) × (c ≢ control)

abbrev pub DataFound : Queues → Option TrafficClass × Choice → Type 0
DataFound q (none, k) = ⊥
DataFound q (some c, k) = HasHead q c × OnTurn k

media_size :
    (q : Queues) (r : Request)
    → WellQueued q
    → MediaHead q r
    → length r.payload ≤ thumbnail_queue_cap_bytes
unfolding cap_or_zero
media_size q r w (interactive_head rest e) = let f = (w interactive_media r rest e).1 in omega arith
media_size q r w (thumbnail_head rest e) = (w thumbnail r rest e).1

HasHead-class :
    (q : Queues) (r : Request) (rest : List Request) (c : TrafficClass)
    → r.class ≡ c
    → q c ≡ r ∷ rest
    → c ≢ control
    → HasHead q r.class
HasHead-class q r rest c k e n = subst (HasHead q) (sym k) (r, rest, e, n)

media_class : (q : Queues) (r : Request) → WellQueued q → MediaHead q r → HasHead q r.class
media_class q r w (interactive_head rest e) =
    HasHead-class q r rest _ (w interactive_media r rest e).0 e (λ n. cc)
media_class q r w (thumbnail_head rest e) =
    HasHead-class q r rest _ (w thumbnail r rest e).0 e (λ n. cc)

take_media-again :
    (q : Queues) (h k : Choice) (p : Option Request × Choice)
    → WellQueued q
    → OnTurn h
    → h.outer_current ≡ 0
    → has_media q ≡ true
    → Peeked q h p
    → take_media q h p ≡ again k
    → OuterPassed q h k
unfolding take_media
take_media-again q h k (some r, l) w t z m (head, s) e =
    let size = media_size q r w head in
    record {
      turns = ground arith;
      other = ground arith;
      media = λ _. ground arith;
      bulks = λ x xs b. ground arith;
    }
take_media-again q h k (none, l) w t z m p e = absurd p

take_media-found :
    (q : Queues) (h k : Choice) (c : TrafficClass) (p : Option Request × Choice)
    → WellQueued q
    → OnTurn h
    → Peeked q h p
    → take_media q h p ≡ found c k
    → HasHead q c × OnTurn k
unfolding take_media
take_media-found q h k c (some r, l) w t (head, s) e =
    (subst (HasHead q) (ground arith) (media_class q r w head), ground arith)
take_media-found q h k c (none, l) w t p e = absurd p

take_bulk-again :
    (q : Queues) (queue : List Request) (h k : Choice)
    → OnTurn h
    → h.outer_current ≡ 1
    → q bulk ≡ queue
    → take_bulk q queue h ≡ again k
    → OuterPassed q h k
unfolding take_bulk
take_bulk-again q [] h k t o b e = record {
  turns = ground arith;
  other = ground arith;
  media = λ m. ground arith;
  bulks = λ x xs b'. ground arith;
}
take_bulk-again q (r ∷ rest) h k t o b e = record {
  turns = ground arith;
  other = ground arith;
  media = λ m. ground arith;
  bulks = λ x xs b'. ground arith;
}

take_bulk-found :
    (q : Queues) (queue : List Request) (h k : Choice) (c : TrafficClass)
    → OnTurn h
    → q bulk ≡ queue
    → take_bulk q queue h ≡ found c k
    → HasHead q c × OnTurn k
unfolding take_bulk
take_bulk-found q [] h k c t b e = absurd (ground arith)
take_bulk-found q (r ∷ rest) h k c t b e =
    ((r, rest, ground arith, λ n. ground arith), ground arith)

no_media-again :
    (q : Queues) (h : Choice)
    → OnTurn h
    → h.outer_current ≡ 0
    → has_media q ≡ false
    → OuterPassed q h (advance_outer q (record h { outer_deficit0 = 0 }))
unfolding advance_outer
no_media-again q h t z m = record {
  turns = ground arith;
  other = ground arith;
  media = λ m'. ground arith;
  bulks = λ x xs b'. ground arith;
}

data_round-again :
    (q : Queues) (h k : Choice)
    → WellQueued q
    → OnTurn h
    → data_round q h ≡ again k
    → OuterPassed q h k
unfolding data_round
data_round-again q h k w t e = elim (Bool-cases (h.outer_current == 0)) [
  | inr z ↦ take_bulk-again q (q bulk) h k t (ground arith) refl (rw z at e)
  | inl z ↦ elim (Bool-cases (has_media q)) [
    | inr m ↦ subst (OuterPassed q h) (ground arith) (no_media-again q h t (ground arith) m)
    | inl m ↦
        take_media-again q h k (peek_media q h) w t (ground arith) m
          (peek_media-Peeked q h m (WellQueued-MediaFits q w) t.inner) (rw (z, m) at e)
  ]
]

data_round-found :
    (q : Queues) (h k : Choice) (c : TrafficClass)
    → WellQueued q
    → OnTurn h
    → data_round q h ≡ found c k
    → HasHead q c × OnTurn k
unfolding data_round
data_round-found q h k c w t e = elim (Bool-cases (h.outer_current == 0)) [
  | inr z ↦ take_bulk-found q (q bulk) h k c t refl (rw z at e)
  | inl z ↦ elim (Bool-cases (has_media q)) [
    | inr m ↦ absurd (ground arith)
    | inl m ↦
        take_media-found q h k c (peek_media q h) w t
          (peek_media-Peeked q h m (WellQueued-MediaFits q w) t.inner) (rw (z, m) at e)
  ]
]

-- The loop's step, where a data request waits.
data_loop-DataFound :
    (fuel : ℕ) (q : Queues) (h : Choice)
    → has_data q ≡ true
    → WellQueued q
    → OnTurn h
    → ((k : Choice) → OuterPassed q h k → DataFound q (data_loop fuel q k))
    → DataFound q (data_loop (suc fuel) q h)
unfolding data_loop
data_loop-DataFound fuel q h d w t rest = elim (Round-cases (data_round q h)) [
  | inl (k, e) ↦ rw (d, e, data_loop) (rest k (data_round-again q h k w t e))
  | inr (c, k, e) ↦ rw (d, e, data_loop) (data_round-found q h k c w t e)
]

-- A bulk request waits, and `n` more quanta cover it.
data_loop_bulk :
    (fuel n : ℕ) (q : Queues) (h : Choice) (x : Request) (xs : List Request)
    → WellQueued q
    → OnTurn h
    → q bulk ≡ x ∷ xs
    → length x.payload ≤ h.outer_deficit1 + base_quantum_bytes * n
    → 2 * n + 2 ≤ fuel + h.outer_current
    → DataFound q (data_loop fuel q h)
data_loop_bulk zero n q h x xs w t e covered f = absurd (omega (arith, t.outer))
data_loop_bulk (suc fuel) n q h x xs w t e covered f =
    data_loop-DataFound fuel q h (unfold has_data in ground arith) w t λ k p.
      let b = p.bulks x xs e in
      let o = p.other in
      data_loop_bulk fuel (n - h.outer_current) q k x xs w p.turns e (ground (arith, t.outer))
        (ground (arith, t.outer))

-- A media request waits, and `n` more media quanta cover any.
data_loop_media :
    (fuel n : ℕ) (q : Queues) (h : Choice)
    → WellQueued q
    → OnTurn h
    → has_media q ≡ true
    → thumbnail_queue_cap_bytes ≤ h.outer_deficit0 + 3 * base_quantum_bytes * (n + h.outer_current)
    → 2 * n + 1 + h.outer_current ≤ fuel
    → DataFound q (data_loop fuel q h)
data_loop_media zero n q h w t m covered f = absurd (omega arith)
data_loop_media (suc fuel) n q h w t m covered f =
    data_loop-DataFound fuel q h (unfold has_data in ground arith) w t λ k p.
      let b = p.media m in
      let o = p.other in
      data_loop_media fuel (n - k.outer_current) q k w p.turns m (ground (arith, t.outer))
        (ground (arith, t.outer))

start_outer-OnTurn : (q : Queues) (h : Choice) → OnTurn h → OnTurn (start_outer q h)
unfolding start_outer
start_outer-OnTurn q h t = ground arith

-- The loop of nextDataLocked finds a class with a request waiting whenever data waits.
pub data_loop_finds :
    (q : Queues) (h : Choice)
    → has_data q ≡ true
    → WellQueued q
    → OnTurn h
    → DataFound q (data_loop data_fuel q (start_outer q h))
data_loop_finds q h d w t =
    let t' = start_outer-OnTurn q h t in
    elim (Bool-cases (has_media q)) [
      | inl m ↦
          data_loop_media data_fuel 11 q _ w t' m (omega (arith, t'.outer))
            (omega (arith, t'.outer))
      | inr m ↦ by_bulk t' m (q bulk) refl
    ]
  where
    by_bulk :
        OnTurn (start_outer q h)
        → has_media q ≡ false
        → (queue : List Request) → q bulk ≡ queue
        → DataFound q (data_loop data_fuel q (start_outer q h))
    by_bulk t' m (x ∷ xs) e =
        data_loop_bulk data_fuel 4 q _ x xs w t' e
          (unfold cap_or_zero in omega (arith, (w bulk x xs e).1)) (omega (arith, t'.outer))
    by_bulk t' m [] e = absurd (unfold has_data in ground arith)
