-- ===== src/Transfer/Thumbnails.antt =====
-- The gallery part of the manager: the advertised items, and the thumbnails that a browser pulls in
-- batches or, where it asks for none in time, that are streamed to it. A context is a number, and
-- `cancelled` has those that are cancelled.
use share_bridge.Prelude.{
  ℕ, ◌+◌, ◌^◌, ◌%◌, ◌==◌, Bool, true, false, not, ◌&&◌, ◌||◌, List, [], ◌∷◌, ◌++◌, String, Option,
  none, some, leb, ltb, ◌=?◌, nat_key, string_key, if◌then◌else◌, length, take, drop,
}
use share_bridge.Prelude.Int.{ℤ, pos}
use share_bridge.Transfer.Frames.{encode_thumbnail_frame}

abbrev pub max_advertised_gallery_items : ℕ
max_advertised_gallery_items = 65536

abbrev pub max_thumbnail_batch_size : ℕ
max_thumbnail_batch_size = 120

pub data ThumbnailMode : Type 0 where
  waiting pull legacy : ThumbnailMode

abbrev pub is_waiting : ThumbnailMode → Bool
is_waiting waiting = true
is_waiting _ = false

abbrev pub is_pull : ThumbnailMode → Bool
is_pull pull = true
is_pull _ = false

abbrev pub is_legacy : ThumbnailMode → Bool
is_legacy legacy = true
is_legacy _ = false

-- What goes out: the messages, and the thumbnails of one generation.
pub data GallerySent : Type 0 where
  error : String → String → GallerySent
  thumbnail_list : List String → GallerySent
  thumbnail_batch_complete : String → ℕ → ℕ → ℕ → List ℕ → GallerySent
  thumbnail_complete : ℕ → List ℕ → GallerySent
  thumbnail : List ℕ → GallerySent

pub record Gallery : Type 0 where
  pub items : List String
  pub generation : ℕ
  pub context : ℕ
  pub has_cancel : Bool
  pub cancelled : List ℕ
  pub mode : ThumbnailMode
  pub batch_active : Bool
  pub batch_request_id : String
  pub seen_request_ids : List String
  pub fallback : Option ℕ
  pub sent : List GallerySent

pub record Batch : Type 0 where
  pub context : ℕ
  pub generation : ℕ
  pub start : ℕ
  pub items : List String
  pub request_id : String

-- A new manager's gallery.
unfoldable pub new_gallery : Gallery
new_gallery = record {
  items = [];
  generation = 0;
  context = 0;
  has_cancel = false;
  cancelled = [];
  mode = waiting;
  batch_active = false;
  batch_request_id = "";
  seen_request_ids = [];
  fallback = none;
  sent = [];
}

unfoldable pub tell : GallerySent → Gallery → Gallery
tell x g = record g { sent = g.sent ++ x ∷ [] }

-- The uint64 generation, which passes over zero.
unfoldable pub next_generation : ℕ → ℕ
next_generation n = if (n + 1) % 2 ^ 64 == 0 then 1 else (n + 1) % 2 ^ 64

unfoldable pub cancel_gallery : Gallery → Gallery
cancel_gallery g = if g.has_cancel then record g { cancelled = g.context ∷ g.cancelled } else g

-- sendGallery's first section: the items it advertises are the gallery's. The new context is given.
unfoldable pub publish : ℕ → List String → Gallery → Gallery
unfolding cancel_gallery next_generation
publish context items g = record (cancel_gallery g) {
  items = take max_advertised_gallery_items items;
  generation = next_generation g.generation;
  context = context;
  has_cancel = true;
  mode = waiting;
  batch_active = false;
  batch_request_id = "";
  seen_request_ids = [];
  fallback = none;
}

-- sendGallery once the list is handed over: the timer of the fallback.
unfoldable pub arm_fallback : ℕ → Gallery → Gallery
arm_fallback generation g =
    if g.generation == generation && is_waiting g.mode
    then record g { fallback = some generation }
    else g

unfoldable pub announce : Bool → ℕ → List String → Gallery → Gallery
unfolding tell arm_fallback
announce true generation items g = arm_fallback generation (tell (thumbnail_list items) g)
announce false generation items g = g

-- startLegacyThumbnailFallback up to the stream.
unfoldable pub start_legacy : ℕ → Gallery → Option Batch × Gallery
start_legacy generation g =
    if not (g.generation == generation) || not (is_waiting g.mode) then (none, g) else (
      some (record {
        context = g.context;
        generation = generation;
        start = 0;
        items = g.items;
        request_id = "";
      }),
      record g { mode = legacy; fallback = none },
    )

unfoldable pub is_cancelled : ℕ → List ℕ → Bool
is_cancelled ctx [] = false
is_cancelled ctx (c ∷ cs) = c == ctx || is_cancelled ctx cs

-- The end of startLegacyThumbnailFallback.
unfoldable pub finish_legacy : Bool → ℕ → List ℕ → Batch → Gallery → Gallery
unfolding is_cancelled tell
finish_legacy accepts sent_count failed b g =
    if not (g.generation == b.generation)
      || not (is_legacy g.mode)
      || is_cancelled b.context g.cancelled
    then g
    else if accepts
    then tell (thumbnail_complete sent_count failed) g
    else g

unfoldable pub seen : String → List String → Bool
seen r [] = false
seen r (x ∷ xs) = x =? r || seen r xs

unfoldable pub refuse_batch : String → String → Gallery → Option Batch × Gallery
unfolding tell
refuse_batch request_id message g = (none, tell (error request_id message) g)

-- A request that has passed every test: the first one of a waiting gallery makes it a pulled one.
unfoldable pub begin_batch : ℕ → ℕ → String → Gallery → Option Batch × Gallery
begin_batch start count request_id g = (
  some (record {
    context = g.context;
    generation = g.generation;
    start = start;
    items = take count (drop start g.items);
    request_id = request_id;
  }),
  record g {
    mode = if is_waiting g.mode then pull else g.mode;
    fallback = if is_waiting g.mode then none else g.fallback;
    seen_request_ids = request_id ∷ g.seen_request_ids;
    batch_active = true;
    batch_request_id = request_id;
  },
)

unfoldable pub request_in_range : ℕ → ℕ → String → Gallery → Option Batch × Gallery
unfolding refuse_batch seen begin_batch
request_in_range start count request_id g =
    if leb (length g.items) start
    then refuse_batch request_id "thumbnail batch start outside gallery" g
    else if is_legacy g.mode
    then refuse_batch request_id "thumbnail batch unavailable after legacy stream started" g
    else if seen request_id g.seen_request_ids
    then refuse_batch request_id "thumbnail batch request_id already used" g
    else if g.batch_active
    then refuse_batch request_id "thumbnail batch already active" g
    else begin_batch start count request_id g

-- A range that a request may ask for.
unfoldable pub range_of : ℤ → ℤ → Option (ℕ × ℕ)
range_of (pos start) (pos count) =
    if ltb count 1 || ltb max_thumbnail_batch_size count then none else some (start, count)
range_of _ _ = none

unfoldable pub request_range : Option (ℕ × ℕ) → String → Gallery → Option Batch × Gallery
unfolding refuse_batch request_in_range
request_range none request_id g = refuse_batch request_id "thumbnail batch range invalid" g
request_range (some (start, count)) request_id g = request_in_range start count request_id g

unfoldable pub handle_thumbnail_batch_request : ℤ → ℤ → String → Gallery → Option Batch × Gallery
unfolding refuse_batch range_of request_range
handle_thumbnail_batch_request start count request_id g =
    if request_id =? ""
    then refuse_batch request_id "thumbnail batch request_id required" g
    else request_range (range_of start count) request_id g

unfoldable pub clear_batch : Gallery → Gallery
clear_batch g = record g { batch_active = false; batch_request_id = "" }

-- The end of sendThumbnailBatch.
unfoldable pub finish_batch : Bool → ℕ → List ℕ → Batch → Gallery → Gallery
unfolding is_cancelled tell clear_batch
finish_batch accepts sent_count failed b g =
    if not (g.generation == b.generation)
      || not (is_pull g.mode)
      || not (g.batch_request_id =? b.request_id)
      || is_cancelled b.context g.cancelled
    then g
    else clear_batch (
        if accepts
        then tell (thumbnail_batch_complete b.request_id b.start (length b.items) sent_count failed)
            g
        else g)

-- sendThumbnailWithBackpressure from the lock on, for the item of this number in the batch.
unfoldable pub send_thumbnail : Bool → Batch → ℕ → List ℕ → Gallery → Bool × Gallery
unfolding is_cancelled tell encode_thumbnail_frame
send_thumbnail accepts b i jpg g =
    if is_cancelled b.context g.cancelled
    then (false, g)
    else if not (g.generation == b.generation)
    then (false, g)
    else if accepts
    then (true, tell (thumbnail (encode_thumbnail_frame ((b.start + i) % 2 ^ 16) jpg)) g)
    else (false, g)

unfoldable pub handle_close : Gallery → Gallery
unfolding cancel_gallery
handle_close g = record (cancel_gallery g) {
  fallback = none;
  has_cancel = false;
  generation = (g.generation + 1) % 2 ^ 64;
  batch_active = false;
  batch_request_id = "";
}

pub data Event : Type 0 where
  publishes : ℕ → List String → Event
  announces : Bool → ℕ → List String → Event
  falls_back : ℕ → Event
  ends_legacy ends_batch : Bool → ℕ → List ℕ → Batch → Event
  requests : ℤ → ℤ → String → Event
  sends : Bool → Batch → ℕ → List ℕ → Event
  closes : Event

unfoldable pub step : Event → Gallery → Gallery
unfolding publish announce start_legacy finish_legacy finish_batch handle_thumbnail_batch_request
    send_thumbnail handle_close
step (publishes context items) g = publish context items g
step (announces accepts generation items) g = announce accepts generation items g
step (falls_back generation) g = (start_legacy generation g).1
step (ends_legacy accepts n failed b) g = finish_legacy accepts n failed b g
step (ends_batch accepts n failed b) g = finish_batch accepts n failed b g
step (requests start count request_id) g =
    (handle_thumbnail_batch_request start count request_id g).1
step (sends accepts b i jpg) g = (send_thumbnail accepts b i jpg g).1
step closes g = handle_close g

unfoldable pub run : List Event → Gallery → Gallery
unfolding step
run [] g = g
run (x ∷ xs) g = run xs (step x g)
