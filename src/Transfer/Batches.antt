-- ===== src/Transfer/Batches.antt =====
-- The thumbnail batches of a gallery: each request identifier once, and each thumbnail with the index
-- of its item.
use share_bridge.Prelude.{
  ℕ, ◌+◌, ◌≤◌, ◌<◌, ◌^◌, ◌%◌, ◌==◌, ◌≡◌, ◌∙◌, sym, refl, ap, subst, Bool, true, false, not, ◌&&◌,
  ◌||◌, List, [], ◌∷◌, String, Option, none, some, ltb, leb, ◌=?◌, string_key, if◌then◌else◌,
  if_elim, length, take, drop, get_elem?, get_elem?-take, get_elem?-drop, ◌*◌, length-take,
  length-drop, arith, same_refl, ◌++◌, ==_iff,
}
use share_bridge.Prelude.Int.{ℤ, pos, negsuc}
use share_bridge.Transfer.Frames.{encode_thumbnail_frame, binary_frame_thumbnail}
use share_bridge.Transfer.Thumbnails.{
  thumbnail, max_thumbnail_batch_size, max_advertised_gallery_items, GallerySent, Gallery, Batch,
  is_waiting, is_pull, is_legacy, new_gallery, tell, cancel_gallery, publish, arm_fallback,
  announce, start_legacy, is_cancelled, finish_legacy, seen, refuse_batch, begin_batch,
  request_in_range, range_of, request_range, handle_thumbnail_batch_request, clear_batch,
  finish_batch, send_thumbnail, handle_close, Event, publishes, announces, falls_back, ends_legacy,
  ends_batch, requests, sends, closes, step, run, error, thumbnail_complete, thumbnail_list,
}

-- The items stay, and so do the identifiers that were used.
record Kept (g g' : Gallery) : Type 0 where
  items : g'.items ≡ g.items
  used : (r : String) → seen r g.seen_request_ids ≡ true → seen r g'.seen_request_ids ≡ true

kept : (g : Gallery) → Kept g g
kept g = record { items = refl; used = λ r h. h }

tell-Kept : (x : GallerySent) (g : Gallery) → Kept g (tell x g)
unfolding tell
tell-Kept x g = record { items = refl; used = λ r h. h }

-- What a request is answered: it is refused, or a batch of the gallery's items begins.
data Asked (r : String) (g : Gallery) : Option Batch × Gallery → Type 0 where
  turned_away : {g' : Gallery} → Kept g g' → Asked r g (none, g')
  begun :
      (start count : ℕ)
      → start < length g.items
      → 1 ≤ count
      → count ≤ max_thumbnail_batch_size
      → seen r g.seen_request_ids ≡ false
      → Asked r g (begin_batch start count r g)

refuse-Asked : (r message : String) (g : Gallery) → Asked r g (refuse_batch r message g)
unfolding refuse_batch
refuse-Asked r message g = turned_away (tell-Kept (error r message) g)

in_range-Asked :
    (start count : ℕ) (r : String) (g : Gallery)
    → 1 ≤ count
    → count ≤ max_thumbnail_batch_size
    → Asked r g (request_in_range start count r g)
unfolding request_in_range
in_range-Asked start count r g low high =
    if_elim (Asked r g) (leb (length g.items) start) (λ b. refuse-Asked r _ g)
      λ inside.
        if_elim (Asked r g) (is_legacy g.mode) (λ b. refuse-Asked r _ g)
          λ b.
            if_elim (Asked r g) (seen r g.seen_request_ids) (λ b. refuse-Asked r _ g)
              λ new.
                if_elim (Asked r g) g.batch_active (λ b. refuse-Asked r _ g)
                  λ b. begun start count (ground (arith, inside)) low high new

range-Asked :
    (start count : ℤ) (r : String) (g : Gallery)
    → Asked r g (request_range (range_of start count) r g)
unfolding request_range range_of
range-Asked (pos start) (pos count) r g =
    if_elim (λ (o : Option (ℕ × ℕ)). Asked r g (request_range o r g))
      (ltb count 1 || ltb max_thumbnail_batch_size count) (λ b. refuse-Asked r _ g)
      (λ b. in_range-Asked start count r g (ground (arith, b)) (ground (arith, b)))
range-Asked (pos start) (negsuc count) r g = refuse-Asked r _ g
range-Asked (negsuc start) count r g = refuse-Asked r _ g

request-Asked :
    (start count : ℤ) (r : String) (g : Gallery)
    → Asked r g (handle_thumbnail_batch_request start count r g)
unfolding handle_thumbnail_batch_request
request-Asked start count r g =
    if_elim (Asked r g) (r =? "") (λ b. refuse-Asked r _ g) λ b. range-Asked start count r g

asked-Kept : (r : String) (g : Gallery) (p : Option Batch × Gallery) → Asked r g p → Kept g p.1
unfolding begin_batch seen
asked-Kept r g _ (turned_away k) = k
asked-Kept r g _ (begun start count a b c d) = record {
  items = refl;
  used = λ s h. ground (arith, h);
}

announce-Kept :
    (accepts : Bool) (generation : ℕ) (items : List String) (g : Gallery)
    → Kept g (announce accepts generation items g)
unfolding announce arm_fallback tell
announce-Kept true generation items g =
    if_elim (Kept g) (g.generation == generation && is_waiting g.mode)
      (λ b. record { items = refl; used = λ r h. h }) (λ b. tell-Kept (thumbnail_list items) g)
announce-Kept false generation items g = kept g

-- Every step but a new list.
abbrev pub NoList : Event → Type 0
NoList (publishes context items) = true ≡ false
NoList (announces accepts generation items) = Unit
NoList (falls_back generation) = Unit
NoList (ends_legacy accepts n failed b) = Unit
NoList (ends_batch accepts n failed b) = Unit
NoList (requests start count r) = Unit
NoList (sends accepts b i jpg) = Unit
NoList closes = Unit

abbrev pub NoLists : List Event → Type 0
NoLists [] = Unit
NoLists (x ∷ xs) = NoList x × NoLists xs

step-Kept : (x : Event) (g : Gallery) → NoList x → Kept g (step x g)
unfolding step start_legacy finish_legacy finish_batch clear_batch send_thumbnail handle_close
    cancel_gallery tell
step-Kept (publishes context items) g n = absurd (cc n)
step-Kept (announces accepts generation items) g n = announce-Kept accepts generation items g
step-Kept (falls_back generation) g n =
    if_elim (λ (p : Option Batch × Gallery). Kept g p.1)
      (not (g.generation == generation) || not (is_waiting g.mode)) (λ b. kept g)
      (λ b. record { items = refl; used = λ r h. h })
step-Kept (ends_legacy accepts k failed b) g n =
    if_elim (Kept g)
      (not (g.generation == b.generation)
        || not (is_legacy g.mode)
        || is_cancelled b.context g.cancelled)
      (λ t. kept g)
      (λ t. if_elim (Kept g) accepts (λ a. tell-Kept (thumbnail_complete k failed) g) (λ a. kept g))
step-Kept (ends_batch accepts k failed b) g n =
    if_elim (Kept g)
      (not (g.generation == b.generation)
        || not (is_pull g.mode)
        || not (g.batch_request_id =? b.request_id)
        || is_cancelled b.context g.cancelled)
      (λ t. kept g)
      (λ t.
        if_elim (λ (f : Gallery). Kept g (clear_batch f)) accepts
          (λ a. record { items = refl; used = λ r h. h })
          (λ a. record { items = refl; used = λ r h. h }))
step-Kept (requests start count r) g n = asked-Kept r g _ (request-Asked start count r g)
step-Kept (sends accepts b i jpg) g n =
    let P : Bool × Gallery → Type 0 = λ p. Kept g p.1 in
    if_elim P (is_cancelled b.context g.cancelled) (λ t. kept g)
      λ t.
        if_elim P (not (g.generation == b.generation)) (λ t. kept g)
          λ t. if_elim P accepts (λ t. tell-Kept _ g) λ t. kept g
step-Kept closes g n =
    if_elim
      (λ (f : Gallery). Kept g (record f {
        fallback = none;
        has_cancel = false;
        generation = (g.generation + 1) % 2 ^ 64;
        batch_active = false;
        batch_request_id = "";
      }))
      g.has_cancel (λ t. record { items = refl; used = λ r h. h })
      (λ t. record { items = refl; used = λ r h. h })

run-Kept : (xs : List Event) (g : Gallery) → NoLists xs → Kept g (run xs g)
unfolding run
run-Kept [] g n = kept g
run-Kept (x ∷ xs) g n =
    let a = step-Kept x g n.0 in
    let b = run-Kept xs (step x g) n.1 in
    record { items = b.items ∙ a.items; used = λ r h. b.used r (a.used r h) }

-- The batch that an answer began.
begun_inv :
    (r : String) (g : Gallery) (b : Batch) (g' : Gallery)
    → Asked r g (some b, g')
    → (seen r g'.seen_request_ids ≡ true)
      × (b.start < length g.items)
      × (count : ℕ) × (1 ≤ count)
      × (count ≤ max_thumbnail_batch_size)
      × (b.items ≡ take count (drop b.start g.items))
unfolding begin_batch seen
begun_inv r g _ _ (begun start count a b c d) = (ground (arith, same_refl r), a, count, b, c, refl)

-- A request whose identifier was used begins no batch.
used_lem :
    (r : String) (g : Gallery) (p : Option Batch × Gallery)
    → Asked r g p
    → seen r g.seen_request_ids ≡ true
    → p.0 ≡ none
unfolding begin_batch
used_lem r g _ (turned_away k) h = refl
used_lem r g _ (begun start count a b c d) h = absurd (ground (arith, h, d))

-- A thumbnail request that is accepted uses up its identifier: until a new list is published, whatever
-- else happens, close included, no request with that identifier begins a batch.
pub request_once :
    (start count start' count' : ℤ) (r : String) (b : Batch) (g g' : Gallery) (xs : List Event)
    → handle_thumbnail_batch_request start count r g ≡ (some b, g')
    → NoLists xs
    → (handle_thumbnail_batch_request start' count' r (run xs g')).0 ≡ none
request_once start count start' count' r b g g' xs e n =
    let u = (begun_inv r g b g' (subst (Asked r g) e (request-Asked start count r g))).0 in
    used_lem r (run xs g') _ (request-Asked start' count' r (run xs g'))
      ((run-Kept xs g' n).used r u)

-- What a gallery advertises fits the index of a thumbnail frame.
small :
    {g g' : Gallery}
    → Kept g g'
    → length g.items ≤ max_advertised_gallery_items
    → length g'.items ≤ max_advertised_gallery_items
small k h = subst (λ (l : List String). length l ≤ max_advertised_gallery_items) (sym k.items) h

step_small :
    (x : Event) (g : Gallery)
    → length g.items ≤ max_advertised_gallery_items
    → length (step x g).items ≤ max_advertised_gallery_items
unfolding step publish
step_small (publishes context items) g h =
    omega (arith, length-take max_advertised_gallery_items items)
step_small (announces accepts generation items) g h =
    small (step-Kept (announces accepts generation items) g tt) h
step_small (falls_back generation) g h = small (step-Kept (falls_back generation) g tt) h
step_small (ends_legacy accepts k failed b) g h =
    small (step-Kept (ends_legacy accepts k failed b) g tt) h
step_small (ends_batch accepts k failed b) g h =
    small (step-Kept (ends_batch accepts k failed b) g tt) h
step_small (requests start count r) g h = small (step-Kept (requests start count r) g tt) h
step_small (sends accepts b i jpg) g h = small (step-Kept (sends accepts b i jpg) g tt) h
step_small closes g h = small (step-Kept closes g tt) h

run_small :
    (xs : List Event) (g : Gallery)
    → length g.items ≤ max_advertised_gallery_items
    → length (run xs g).items ≤ max_advertised_gallery_items
unfolding run
run_small [] g h = h
run_small (x ∷ xs) g h = run_small xs (step x g) (step_small x g h)

-- The browser's view: the index in a thumbnail frame.
abbrev pub frame_index : List ℕ → Option ℕ
frame_index (kind ∷ high ∷ low ∷ jpg) =
    if kind == binary_frame_thumbnail then some (high * 256 + low) else none
frame_index _ = none

frame_index_lem :
    (n : ℕ) (jpg : List ℕ)
    → n < 2 ^ 16
    → frame_index (encode_thumbnail_frame (n % 2 ^ 16) jpg) ≡ some n
unfolding encode_thumbnail_frame
frame_index_lem n jpg h = ap some (omega arith)

-- A thumbnail has gone out, with this index and this image.
pub record SentAt (n : ℕ) (jpg : List ℕ) (g : Gallery) (p : Bool × Gallery) : Type 0 where
  pub accepted : p.0 ≡ true
  pub frame : List ℕ
  pub sent : p.1.sent ≡ g.sent ++ thumbnail frame ∷ []
  pub indexed : frame_index frame ≡ some n
  pub image : drop 3 frame ≡ jpg

send_thumbnail-SentAt :
    (b : Batch) (i : ℕ) (jpg : List ℕ) (g : Gallery)
    → is_cancelled b.context g.cancelled ≡ false
    → g.generation ≡ b.generation
    → b.start + i < 2 ^ 16
    → SentAt (b.start + i) jpg g (send_thumbnail true b i jpg g)
unfolding send_thumbnail tell encode_thumbnail_frame
send_thumbnail-SentAt b i jpg g live current small =
    rw (send_thumbnail, live, (==_iff g.generation b.generation).1 current)
      (record {
        accepted = refl;
        frame = encode_thumbnail_frame ((b.start + i) % 2 ^ 16) jpg;
        sent = refl;
        indexed = frame_index_lem (b.start + i) jpg small;
        image = refl;
      })

-- In whatever way a new gallery has come to its state, a thumbnail batch that begins is a part of the
-- advertised items, of at most 120 of them; and each of its items, sent while its context is not
-- cancelled and its gallery's generation is current, goes out, where the send is accepted, in one frame
-- with the image and with the index at which the gallery advertises the item, although the frame has
-- only 16 bits for it.
pub batch_indices :
    (xs : List Event) (start count : ℤ) (r : String) (b : Batch) (g' : Gallery) (i : ℕ)
    (jpg : List ℕ) (now : Gallery)
    → handle_thumbnail_batch_request start count r (run xs new_gallery) ≡ (some b, g')
    → i < length b.items
    → is_cancelled b.context now.cancelled ≡ false
    → now.generation ≡ b.generation
    → let g = run xs new_gallery in
      (b.start + length b.items ≤ length g.items)
      × (length b.items ≤ max_thumbnail_batch_size)
      × (get_elem? b.items i ≡ get_elem? g.items (b.start + i))
      × SentAt (b.start + i) jpg now (send_thumbnail true b i jpg now)
unfolding new_gallery
batch_indices xs start count r b g' i jpg now e h live current =
    let g = run xs new_gallery in
    let few = run_small xs new_gallery (omega arith) in
    let q = begun_inv r g b g' (subst (Asked r g) e (request-Asked start count r g)) in
    let inside = q.1 in
    let n = q.2 in
    let most = q.4 in
    let same = q.5 in
    let size : length b.items ≡ length (take n (drop b.start g.items)) = ap length same in
    let taken = length-take n (drop b.start g.items) in
    let dropped = length-drop b.start g.items in
    (
      omega (arith, size, taken, dropped, inside),
      omega (arith, size, taken, most),
      ap (λ (l : List String). get_elem? l i) same
          ∙ get_elem?-take n i (drop b.start g.items) (omega (arith, size, taken, h))
          ∙ get_elem?-drop b.start i g.items,
      send_thumbnail-SentAt b i jpg now live current
          (omega (arith, size, taken, dropped, inside, h, few)),
    )
