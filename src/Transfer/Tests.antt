-- ===== src/Transfer/Tests.antt =====
-- The theorems at concrete inputs.
use share_bridge.Prelude.{
  ℕ, ◌+◌, ◌^◌, ◌%◌, ◌<◌, ◌≤◌, ◌≡◌, ◌≢◌, ◌↔◌, refl, true, false, List, [], ◌∷◌, String, none, some,
  ok, length, IsBytes, arith,
}
use share_bridge.Transfer.Frames.{encode_chunk_frame, decode_chunk_frame}
use share_bridge.Transfer.State.{
  Manager, Sent, new_manager, next_loop, begin_media, begin_media_if_newer,
}
use share_bridge.Transfer.Downloads.{GalleryBackend, Paths, Stream}
use share_bridge.Transfer.Streams.{Read, eof, stream_file}
use share_bridge.Transfer.Envelope.{encode-decode_chunk_frame}
use share_bridge.Transfer.Delivery.{reads_of, join, received, Delivered, stream_file-Delivers}
use share_bridge.Transfer.Sharing.{
  Event, asset_request, album_download_request, arrives, goes_on, turns, new_system, run,
}
use share_bridge.Transfer.Previews.{Preview}
use share_bridge.Transfer.Playback.{read_preview, check_preview}
use share_bridge.Transfer.Sections.{Section, acquires, finishes, begin-Begun}
use share_bridge.Transfer.Sections
use share_bridge.Transfer.Fencing.{replaced-Silent, next_loop_enough, seek_once}
use share_bridge.Prelude.{get_elem?}
use share_bridge.Prelude.Int.{pos}
use share_bridge.Transfer.Thumbnails
use share_bridge.Transfer.Thumbnails.{
  Gallery, Batch, max_thumbnail_batch_size, new_gallery, handle_thumbnail_batch_request,
  send_thumbnail, is_cancelled, publishes, announces, closes,
}
use share_bridge.Transfer.Batches.{SentAt, request_once, batch_indices}
use share_bridge.Transfer.Albums.{Part, acked, timed_out, album_goroutine}
use share_bridge.Transfer.Archives.{Ends, album-Ends}

abbrev frame : List ℕ
frame = 16 ∷ 1 ∷ 0 ∷ 0 ∷ 0 ∷ 0 ∷ 0 ∷ 0 ∷ 0 ∷ 5 ∷ 0 ∷ 0 ∷ 0 ∷ 0 ∷ 9 ∷ []

frame-IsBytes : IsBytes frame
frame-IsBytes = ground arith

encode-decode_chunk_frame_example :
    (decode_chunk_frame frame ≡ ok (5, 0, 9 ∷ [])) ↔ (frame ≡ encode_chunk_frame 5 0 (9 ∷ []))
encode-decode_chunk_frame_example = encode-decode_chunk_frame frame 5 0 (9 ∷ []) frame-IsBytes

abbrev file : List (List ℕ)
file = (1 ∷ 2 ∷ []) ∷ (3 ∷ []) ∷ []

abbrev downloading : Manager
downloading = record (new_manager 2) {
  operation_sequence = 7;
  bulk_operation = 7;
  bulk_transfer = true;
}

abbrev stream : Stream
stream = record { source = "a.txt"; request_id = "r"; operation = 7; total = 0 }

stream_file-Delivers_example :
    let end = stream_file (reads_of file) stream downloading in
    (end.0 ≡ none)
    × (chunks : List Sent) × Delivered stream (length (join file) % 2 ^ 64) chunks downloading end.1
    × (received 7 chunks ≡ join file)
stream_file-Delivers_example = stream_file-Delivers file stream downloading refl

abbrev paths : Paths
paths = record { has_dots = λ p. false; dir = λ p. "."; base = λ p. p; join = λ a b. b }

abbrev album : GalleryBackend
album = record {
  get_asset_info = λ id. ok (record { name = "a.jpg"; size = 3; mime_type = "image/jpeg" });
  head_video_playback = λ id. ok 0;
}

abbrev last_read : Read
last_read = record { bytes = []; end = eof; chunk_accepted = true; end_accepted = true }

-- A request is streaming when the next passes its test of the limit; the stream ends, the second
-- request gets the slot, and a third is refused.
abbrev downloads : List Event
downloads =
    arrives (asset_request true (some album) "a" "" "r1")
    ∷ goes_on
    ∷ arrives (asset_request true (some album) "a" "" "r2")
    ∷ turns 0 last_read
    ∷ goes_on
    ∷ arrives (album_download_request true (ok []) "r3")
    ∷ goes_on
    ∷ []

-- The one download more is given out.
one_more :
    (run paths downloads (new_system 1 0)).manager.downloads
      + length (run paths downloads (new_system 1 0)).jobs
    ≡ 2
unfolding run new_system
one_more = refl

abbrev video : Preview
video = record { id = "v"; request_id = "r"; operation = 1; generation = 1; total = 0 }

-- The number that a new manager gives out first.
first_number : 1 ≡ (begin_media "v" "video" 1 (new_manager 0)).0
unfolding begin_media new_manager
first_number = refl

few_numbers : (new_manager 0).operation_sequence + 1 + 0 + 2 < 2 ^ 64
unfolding new_manager
few_numbers = omega arith

abbrev replaced : Manager
replaced =
    Sections.run []
      (begin_media "w" "video" 2
        (Sections.run (acquires "d" ∷ []) (begin_media "v" "video" 1 (new_manager 0)).1)).1

replaced-Silent_example :
    ((x : Read) → (read_preview x video replaced).1 ≡ replaced)
    × (check_preview video replaced ≡ (none, replaced))
replaced-Silent_example =
    replaced-Silent (new_manager 0) "v" "video" 1 (acquires "d" ∷ []) "w" "video" 2 [] video
      few_numbers first_number

next_loop_enough_example :
    (next_loop 5 18446744073709551615 ≡ next_loop 2 18446744073709551615)
    × (next_loop 2 18446744073709551615 ≢ 0)
    × (next_loop 2 18446744073709551615 < 2 ^ 64)
next_loop_enough_example = next_loop_enough 3 18446744073709551615

abbrev playing : Manager
playing = (begin_media "v" "video" 1 (new_manager 0)).1

abbrev sought : Manager
sought = (begin_media_if_newer 1 "v" "video" 2 playing).1

seek_accepted : begin_media_if_newer 1 "v" "video" 2 playing ≡ (some 2, sought)
unfolding begin_media_if_newer new_manager
seek_accepted = refl

room_left : playing.operation_sequence + 1 + 1 < 2 ^ 64
unfolding begin_media new_manager
room_left = omega arith

seek_once_example :
    (playing.current_generation < 2)
    × ((id' : String) (generation' : ℕ)
        → begin_media_if_newer 1 id' "video" generation' (Sections.run (finishes 2 ∷ []) sought)
          ≡ (none, Sections.run (finishes 2 ∷ []) sought))
unfolding begin_media new_manager
seek_once_example =
    seek_once playing sought 1 2 "v" 2 (finishes 2 ∷ []) (begin-Begun "v" "video" 1 (new_manager 0))
      room_left seek_accepted

-- A gallery of three items.
abbrev listed : List Thumbnails.Event
listed = publishes 1 ("a" ∷ "b" ∷ "c" ∷ []) ∷ announces true 1 ("a" ∷ "b" ∷ "c" ∷ []) ∷ []

abbrev listed_gallery : Gallery
listed_gallery = Thumbnails.run listed new_gallery

abbrev last_two : Batch
last_two = record {
  context = 1;
  generation = 1;
  start = 1;
  items = "b" ∷ "c" ∷ [];
  request_id = "q";
}

abbrev asked_gallery : Gallery
asked_gallery = (handle_thumbnail_batch_request (pos 1) (pos 5) "q" listed_gallery).1

batch_begins :
    handle_thumbnail_batch_request (pos 1) (pos 5) "q" listed_gallery
    ≡ (some last_two, asked_gallery)
unfolding handle_thumbnail_batch_request Thumbnails.run new_gallery
batch_begins = refl

request_once_example :
    (handle_thumbnail_batch_request
      (pos 0)
      (pos 1)
      "q"
      (Thumbnails.run (closes ∷ []) asked_gallery)).0
    ≡ none
request_once_example =
    request_once (pos 1) (pos 5) (pos 0) (pos 1) "q" last_two listed_gallery asked_gallery
      (closes ∷ []) batch_begins (tt, tt)

still_live : is_cancelled last_two.context asked_gallery.cancelled ≡ false
unfolding handle_thumbnail_batch_request Thumbnails.run new_gallery is_cancelled
still_live = refl

still_current : asked_gallery.generation ≡ last_two.generation
unfolding handle_thumbnail_batch_request Thumbnails.run new_gallery
still_current = refl

batch_indices_example :
    (last_two.start + length last_two.items ≤ length listed_gallery.items)
    × (length last_two.items ≤ max_thumbnail_batch_size)
    × (get_elem? last_two.items 1 ≡ get_elem? listed_gallery.items (last_two.start + 1))
    × SentAt
        (last_two.start + 1)
        (7 ∷ [])
        asked_gallery
        (send_thumbnail true last_two 1 (7 ∷ []) asked_gallery)
batch_indices_example =
    batch_indices listed (pos 1) (pos 5) "q" last_two asked_gallery 1 (7 ∷ []) asked_gallery
      batch_begins (omega arith) still_live still_current

-- Two archives, of which the browser accepts the first only.
abbrev archives : List Part
archives =
    record {
      name = "a+1.zip";
      estimated_size = 3;
      pieces = record { bytes = 1 ∷ 2 ∷ []; accepted = true } ∷ [];
      failure = none;
      header_accepted = true;
      end_accepted = true;
      waited = acked (record { part_index = 1; operation_id = 7; accepted = true });
    }
    ∷ record {
      name = "a+2.zip";
      estimated_size = 3;
      pieces = [];
      failure = none;
      header_accepted = true;
      end_accepted = true;
      waited = timed_out;
    }
    ∷ []

album-Ends_example :
    let t = album_goroutine (ok archives) 7 "r" 7 downloading in
    Ends downloading.downloads 0 7 7 archives t
    × (archives ≡ [] → t.downloads ≡ downloading.downloads)
album-Ends_example = album-Ends (ok archives) 7 "r" 7 downloading refl refl
