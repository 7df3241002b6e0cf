-- ===== src/Scheduler/Peek.antt =====
-- The inner round-robin, peekMediaLocked: while a media request waits, one is found, and within
-- `peek_fuel` turns.
use share_bridge.Prelude.{
  ℕ, zero, suc, ◌+◌, ◌-◌, ◌*◌, ◌≤◌, ◌<◌, ◌≡◌, refl, ◌⊎◌, inl, inr, true, List, [], ◌∷◌, Option,
  none, some, arith, length, Bool-cases, ◌==◌,
}
use share_bridge.Lane.{interactive_media, thumbnail}
use share_bridge.Scheduler.State.{
  Choice, Request, base_quantum_bytes, has_media, interactive_queue_cap_bytes,
  thumbnail_queue_cap_bytes,
}
use share_bridge.Scheduler.Select.{
  Queues, Round, again, found, inner_class, peek_head, peek_round, peek_loop, start_inner,
  peek_media, peek_fuel,
}

pub Round-cases :
    {A : Type 0} (r : Round A)
    → ((h : Choice) × (r ≡ again h)) ⊎ ((a : A) × (h : Choice) × (r ≡ found a h))
Round-cases (again h) = inl (h, refl)
Round-cases (found a h) = inr (a, h, refl)

-- The inner round-robin changes its own fields only.
pub record SameOuter (h k : Choice) : Type 0 where
  pub burst : k.control_burst ≡ h.control_burst
  pub current : k.outer_current ≡ h.outer_current
  pub deficit0 : k.outer_deficit0 ≡ h.outer_deficit0
  pub deficit1 : k.outer_deficit1 ≡ h.outer_deficit1
  pub started : k.outer_started ≡ h.outer_started
  pub turn : k.inner_current < 2

-- `r` is the head of a media queue.
pub data MediaHead (q : Queues) (r : Request) : Type 0 where
  interactive_head : (rest : List Request) → q interactive_media ≡ r ∷ rest → MediaHead q r
  thumbnail_head : (rest : List Request) → q thumbnail ≡ r ∷ rest → MediaHead q r

abbrev pub Peeked : Queues → Choice → Option Request × Choice → Type 0
Peeked q h (none, k) = ⊥
Peeked q h (some r, k) = MediaHead q r × SameOuter h k

Peeked-trans :
    (q : Queues) (h k : Choice) (p : Option Request × Choice)
    → SameOuter h k
    → Peeked q k p
    → Peeked q h p
Peeked-trans q h k (none, l) s e = e
Peeked-trans q h k (some r, l) s e = (e.0, ground arith)

peek_head-found :
    (q : Queues) (queue : List Request) (h k : Choice) (r : Request)
    → h.inner_current < 2
    → peek_head q queue h ≡ found r k
    → (rest : List Request) × (queue ≡ r ∷ rest) × SameOuter h k
unfolding peek_head
peek_head-found q [] h k r lt e = absurd (ground arith)
peek_head-found q (x ∷ xs) h k r lt e = (xs, ground arith, ground arith)

-- A turn that finds something.
peek_round-found :
    (q : Queues) (h k : Choice) (r : Request)
    → h.inner_current < 2
    → peek_round q h ≡ found r k
    → Peeked q h (some r, k)
unfolding peek_round
peek_round-found q h k r lt e = elim (Bool-cases (h.inner_current == 1)) [
  | inl one ↦
      let (rest, head, s) = peek_head-found q (q thumbnail) h k r lt (rw (one, inner_class) at e) in
      (thumbnail_head rest head, s)
  | inr not_one ↦
      let (rest, head, s) =
        peek_head-found q (q interactive_media) h k r lt (rw (not_one, inner_class) at e) in
      (interactive_head rest head, s)
]

-- A turn that passes on: the other class is next, a class that waits keeps its deficit and gets its
-- quanta when a round begins, and one whose turn it was has a head that the deficit did not cover.
record Passed (q : Queues) (h k : Choice) : Type 0 where
  outer : SameOuter h k
  other : k.inner_current + h.inner_current ≡ 1
  interactive :
      (r : Request) (rest : List Request)
      → q interactive_media ≡ r ∷ rest
      → (h.inner_deficit0 + 3 * base_quantum_bytes * h.inner_current ≤ k.inner_deficit0)
        × (h.inner_current ≡ 0 → h.inner_deficit0 < length r.payload)
  thumb :
      (r : Request) (rest : List Request)
      → q thumbnail ≡ r ∷ rest
      → (h.inner_deficit1 + base_quantum_bytes * h.inner_current ≤ k.inner_deficit1)
        × (h.inner_current ≡ 1 → h.inner_deficit1 < length r.payload)

peek_head-Passed :
    (q : Queues) (queue : List Request) (h k : Choice)
    → q (inner_class h) ≡ queue
    → h.inner_current < 2
    → peek_head q queue h ≡ again k
    → Passed q h k
unfolding peek_head inner_class
peek_head-Passed q [] h k w lt e = record {
  outer = ground arith;
  other = ground arith;
  interactive = λ r rest i. ground arith;
  thumb = λ r rest i. ground arith;
}
peek_head-Passed q (x ∷ xs) h k w lt e = record {
  outer = ground arith;
  other = ground arith;
  interactive = λ r rest i. ground arith;
  thumb = λ r rest i. ground arith;
}

peek_round-Passed :
    (q : Queues) (h k : Choice) → h.inner_current < 2 → peek_round q h ≡ again k → Passed q h k
unfolding peek_round
peek_round-Passed q h k lt e = peek_head-Passed q (q (inner_class h)) h k refl lt e

-- The loop's step, where a media request waits.
peek_loop-Peeked :
    (fuel : ℕ) (q : Queues) (h : Choice)
    → has_media q ≡ true
    → h.inner_current < 2
    → ((k : Choice) → peek_round q h ≡ again k → Passed q h k → Peeked q k (peek_loop fuel q k))
    → Peeked q h (peek_loop (suc fuel) q h)
unfolding peek_loop
peek_loop-Peeked fuel q h m lt rest = elim (Round-cases (peek_round q h)) [
  | inl (k, e) ↦
      let p = peek_round-Passed q h k lt e in
      rw (m, e, peek_loop) (Peeked-trans q h k (peek_loop fuel q k) p.outer (rest k e p))
  | inr (r, k, e) ↦ rw (m, e, peek_loop) (peek_round-found q h k r lt e)
]

-- A thumbnail waits, and `n` more quanta cover it.
peek_loop_thumb :
    (fuel n : ℕ) (q : Queues) (h : Choice) (x : Request) (xs : List Request)
    → q thumbnail ≡ x ∷ xs
    → h.inner_current < 2
    → length x.payload ≤ h.inner_deficit1 + base_quantum_bytes * n
    → 2 * n + 2 ≤ fuel + h.inner_current
    → Peeked q h (peek_loop fuel q h)
peek_loop_thumb zero n q h x xs e lt covered f = absurd (omega arith)
peek_loop_thumb (suc fuel) n q h x xs e lt covered f =
    peek_loop-Peeked fuel q h (unfold has_media in ground arith) lt λ k _ p.
      let t = p.thumb x xs e in
      let o = p.other in
      peek_loop_thumb fuel (n - h.inner_current) q k x xs e p.outer.turn (ground arith)
        (ground arith)

-- An interactive request waits, and `n` more quanta of its class cover it.
peek_loop_interactive :
    (fuel n : ℕ) (q : Queues) (h : Choice) (x : Request) (xs : List Request)
    → q interactive_media ≡ x ∷ xs
    → h.inner_current < 2
    → length x.payload ≤ h.inner_deficit0 + 3 * base_quantum_bytes * (n + h.inner_current)
    → 2 * n + 1 + h.inner_current ≤ fuel
    → Peeked q h (peek_loop fuel q h)
peek_loop_interactive zero n q h x xs e lt covered f = absurd (omega arith)
peek_loop_interactive (suc fuel) n q h x xs e lt covered f =
    peek_loop-Peeked fuel q h (unfold has_media in ground arith) lt λ k _ p.
      let t = p.interactive x xs e in
      let o = p.other in
      peek_loop_interactive fuel (n - k.inner_current) q k x xs e p.outer.turn (ground arith)
        (ground arith)

-- No request at the head of a media queue is larger than its class allows.
pub record MediaFits (q : Queues) : Type 0 where
  pub interactive :
      (r : Request) (rest : List Request)
      → q interactive_media ≡ r ∷ rest
      → length r.payload ≤ interactive_queue_cap_bytes
  pub thumb :
      (r : Request) (rest : List Request)
      → q thumbnail ≡ r ∷ rest
      → length r.payload ≤ thumbnail_queue_cap_bytes

start_inner-SameOuter :
    (q : Queues) (h : Choice) → h.inner_current < 2 → SameOuter h (start_inner q h)
unfolding start_inner
start_inner-SameOuter q h lt = ground arith

-- peekMediaLocked finds the head of a media queue whenever one waits.
pub peek_media-Peeked :
    (q : Queues) (h : Choice)
    → has_media q ≡ true
    → MediaFits q
    → h.inner_current < 2
    → Peeked q h (peek_media q h)
unfolding peek_media
peek_media-Peeked q h m fits lt =
    let s = start_inner-SameOuter q h lt in
    Peeked-trans q h _ (peek_loop peek_fuel q (start_inner q h)) s
      (by_queue (q thumbnail) (q interactive_media) refl refl s.turn)
  where
    by_queue :
        (t i : List Request)
        → q thumbnail ≡ t
        → q interactive_media ≡ i
        → (start_inner q h).inner_current < 2
        → Peeked q (start_inner q h) (peek_loop peek_fuel q (start_inner q h))
    by_queue (x ∷ xs) i et ei turn =
        peek_loop_thumb peek_fuel 32 q (start_inner q h) x xs et turn
          (omega (arith, fits.thumb x xs et)) (omega arith)
    by_queue [] (x ∷ xs) et ei turn =
        peek_loop_interactive peek_fuel 3 q (start_inner q h) x xs ei turn
          (omega (arith, fits.interactive x xs ei)) (omega arith)
    by_queue [] [] et ei turn = absurd (unfold has_media in ground arith)
