-- ===== src/Transfer/Previews.antt =====
-- The media requests and their streams. A seek reads the first byte of its source before it replaces
-- the stream that runs, so whether that byte came is an argument.
use share_bridge.Prelude.{
  ℕ, ◌^◌, Bool, true, false, not, ◌&&◌, ◌||◌, String, concat, Option, none, some, ltb, ◌=?◌,
  string_key, if◌then◌else◌, Result, ok, err,
}
use share_bridge.Prelude.Int.{ℤ, pos, negsuc}
use share_bridge.Transfer.State.{
  Manager, preview_header, SendError, send_error, begin_media, begin_media_if_newer,
  is_current_media_operation, finish_media, send_media_control_if_current,
  send_media_error_if_active,
}
use share_bridge.Transfer.Downloads.{GalleryBackend, AssetInfo}

-- A stream that its goroutine is sending; its operation is its context too.
pub record Preview : Type 0 where
  pub id : String
  pub request_id : String
  pub operation : ℕ
  pub generation : ℕ
  pub total : ℕ

unfoldable pub normalize_preview_quality : String → String × Bool
normalize_preview_quality quality =
    if quality =? ""
    then ("preview", true)
    else if quality =? "preview"
    then ("preview", true)
    else if quality =? "video"
    then ("video", true)
    else (quality, false)

-- A generation that a uint32 holds.
unfoldable pub generation_of : ℤ → Option ℕ
generation_of (pos n) = if ltb n (2 ^ 32) then some n else none
generation_of (negsuc n) = none

-- The header has been handed to the control lane.
unfoldable pub after_preview_header :
    Preview → Option SendError × Manager → Option Preview × Manager
unfolding finish_media
after_preview_header s (none, m) = (some s, m)
after_preview_header s (some e, m) = (none, finish_media s.operation m)

unfoldable pub known_size : Result String AssetInfo → ℕ
known_size (err e) = 0
known_size (ok a) = a.size

-- The size of a transcoded video, which is given only where it is known.
unfoldable pub video_size : Result String ℕ → ℕ
video_size (err e) = 0
video_size (ok n) = n

-- The operation has begun: the header, and the stream. A still image is streamed as generation 0.
unfoldable pub send_preview_header :
    Bool → GalleryBackend → String → String → ℕ → String → ℕ × Manager → Option Preview × Manager
unfolding after_preview_header send_media_control_if_current known_size video_size
send_preview_header accepts gallery id quality generation request_id (operation, m) =
    if quality =? "video"
    then after_preview_header
        (record {
          id = id;
          request_id = request_id;
          operation = operation;
          generation = generation;
          total = 0;
        })
        (send_media_control_if_current accepts operation
          (preview_header id "video/mp4" (video_size (gallery.head_video_playback id))
            (some generation) (some 0) request_id operation)
          m)
    else after_preview_header
        (record {
          id = id;
          request_id = request_id;
          operation = operation;
          generation = 0;
          total = 0;
        })
        (send_media_control_if_current accepts operation
          (preview_header id "image/jpeg" (known_size (gallery.get_asset_info id)) none none
            request_id operation)
          m)

unfoldable pub begin_preview :
    Bool → GalleryBackend → String → String → Option ℕ → String → Manager → Option Preview × Manager
unfolding send_error begin_media send_preview_header
begin_preview accepts gallery id quality none request_id m =
    (none, send_error "media" request_id "preview generation out of range" m)
begin_preview accepts gallery id quality (some generation) request_id m =
    send_preview_header accepts gallery id quality generation request_id
      (begin_media id quality generation m)

unfoldable pub preview_from :
    Bool → Option GalleryBackend → String → String → ℤ → String → Manager → Option Preview × Manager
unfolding send_error begin_preview generation_of
preview_from accepts none id quality generation request_id m =
    (none, send_error "media" request_id "share unavailable: client not initialized" m)
preview_from accepts (some gallery) id quality generation request_id m =
    begin_preview accepts gallery id quality (generation_of generation) request_id m

unfoldable pub handle_asset_preview_request :
    Bool → Option GalleryBackend → String → String → ℤ → String → Manager → Option Preview × Manager
unfolding send_error normalize_preview_quality preview_from
handle_asset_preview_request accepts gallery id quality generation request_id m =
    if id =? ""
    then (none, send_error "media" request_id "asset id required" m)
    else if (normalize_preview_quality quality).1
    then preview_from accepts gallery id (normalize_preview_quality quality).0 generation request_id
        m
    else (none, send_error "media" request_id (concat "unsupported preview quality: " quality) m)

-- The seek has been accepted, or not.
unfoldable pub accepted_seek :
    Bool → String → ℕ → ℕ → String → Option ℕ × Manager → Option Preview × Manager
unfolding after_preview_header send_media_control_if_current
accepted_seek accepts id offset generation request_id (none, m) = (none, m)
accepted_seek accepts id offset generation request_id (some operation, m) =
    after_preview_header
      (record {
        id = id;
        request_id = request_id;
        operation = operation;
        generation = generation;
        total = 0;
      })
      (send_media_control_if_current accepts operation
        (preview_header id "video/mp4" 0 (some generation) (some offset) request_id operation) m)

-- What the read of the first byte gave: nothing, or an error.
unfoldable pub validated_seek :
    Bool → Option String → String → ℕ → ℕ → String → ℕ → Manager → Option Preview × Manager
unfolding send_media_error_if_active begin_media_if_newer accepted_seek
validated_seek accepts (some e) id offset generation request_id parent m =
    (none, send_media_error_if_active parent request_id (concat "preview seek failed: " e) m)
validated_seek accepts none id offset generation request_id parent m =
    accepted_seek accepts id offset generation request_id
      (begin_media_if_newer parent id "video" generation m)

unfoldable pub seek_offset : ℤ → Option ℕ
seek_offset (pos n) = some n
seek_offset (negsuc n) = none

unfoldable pub is_positive : ℤ → Bool
is_positive (pos n) = ltb 0 n
is_positive (negsuc n) = false

unfoldable pub is_video : String × Bool → Bool
is_video (quality, known) = known && quality =? "video"

-- handleAssetPreviewSeek, once its offset and generation are read; the read of the first byte comes
-- between the check of the operation and its replacement.
unfoldable pub checked_seek :
    Bool → Bool → Option String → String → ℕ → ℕ → String → ℕ → Manager → Option Preview × Manager
unfolding send_media_error_if_active is_current_media_operation validated_seek
checked_seek accepts has_gallery first id offset generation request_id parent m =
    if not has_gallery
    then (
      none,
      send_media_error_if_active parent request_id "share unavailable: client not initialized" m,
    )
    else if not (is_current_media_operation parent id "video" m)
    then (none, m)
    else validated_seek accepts first id offset generation request_id parent m

unfoldable pub seek_generation :
    Bool → Bool → Option String → String → ℕ → ℤ → String → ℕ → Manager → Option Preview × Manager
unfolding send_media_error_if_active generation_of is_positive checked_seek
seek_generation accepts has_gallery first id offset generation request_id parent m =
    elim (if is_positive generation then generation_of generation else none) [
      | none ↦ (
        none,
        send_media_error_if_active parent request_id "asset_preview_seek: generation out of range"
            m,
      )
      | some g ↦ checked_seek accepts has_gallery first id offset g request_id parent m
    ]

unfoldable pub handle_asset_preview_seek :
    Bool
    → Bool
    → Option String
    → String
    → String
    → ℤ
    → ℤ
    → String
    → ℕ
    → Manager
    → Option Preview × Manager
unfolding send_media_error_if_active normalize_preview_quality seek_offset is_video seek_generation
handle_asset_preview_seek accepts has_gallery first id quality start_offset generation request_id
      parent m =
    if id =? "" || quality =? ""
    then (
      none,
      send_media_error_if_active parent request_id "asset_preview_seek: id and quality required" m,
    )
    else elim (seek_offset start_offset) [
      | none ↦ (
        none,
        send_media_error_if_active parent request_id "asset_preview_seek: start_offset must be >= 0"
            m,
      )
      | some offset ↦
          if not (is_video (normalize_preview_quality quality))
          then (
            none,
            send_media_error_if_active parent request_id
                "asset_preview_seek: video quality required" m,
          )
          else seek_generation accepts has_gallery first id offset generation request_id parent m
    ]
