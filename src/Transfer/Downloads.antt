-- ===== src/Transfer/Downloads.antt =====
-- A request for a file or an asset, up to the goroutine that streams it, and that goroutine's loop one
-- read at a time. The storage, the gallery and the functions of package path are parameters.
use share_bridge.Prelude.{
  ℕ, ◌+◌, ◌^◌, Bool, true, false, ◌&&◌, List, [], ◌∷◌, String, concat, Option, none, some, leb, ltb,
  ◌=?◌, string_key, if◌then◌else◌, Result, ok, err,
}
use share_bridge.Transfer.State.{
  Manager, file_header, text, SendError, send_error, acquire_bulk, release_bulk,
  send_bulk_error_if_active, hand_over,
}

pub record FileInfo : Type 0 where
  pub name : String
  pub size : ℕ
  pub content_type : String
  pub sha1 : String
  pub request_path : String

pub record StorageBackend : Type 0 where
  pub list_files : String → Result String (List FileInfo)
  pub get_sha1 : String → String

pub record AssetInfo : Type 0 where
  pub name : String
  pub size : ℕ
  pub mime_type : String

pub record GalleryBackend : Type 0 where
  pub get_asset_info : String → Result String AssetInfo
  pub head_video_playback : String → Result String ℕ

-- What the source calls of the packages strings and path.
pub record Paths : Type 0 where
  pub has_dots : String → Bool
  pub dir : String → String
  pub base : String → String
  pub join : String → String → String

-- A stream that its goroutine is sending; the total is the bit pattern of an int64.
pub record Stream : Type 0 where
  pub source : String
  pub request_id : String
  pub operation : ℕ
  pub total : ℕ

-- m.maxDownloads > 0 && int(m.downloads.Load()) >= m.maxDownloads, for the int32's bit pattern.
unfoldable pub at_limit : Manager → Bool
at_limit m = ltb 0 m.max_downloads && ltb m.downloads (2 ^ 31) && leb m.max_downloads m.downloads

unfoldable pub refuse_at_limit : String → Manager → Manager
unfolding send_error
refuse_at_limit request_id m =
    record (send_error "bulk" request_id "share has reached its download limit" m) {
      expired = m.expired + 1;
    }

-- An error that ends the operation before it streams.
unfoldable pub fail_bulk : ℕ → String → String → Manager → Option Stream × Manager
unfolding send_bulk_error_if_active release_bulk
fail_bulk operation request_id message m =
    (none, release_bulk operation (send_bulk_error_if_active operation request_id message m))

unfoldable pub find_file : String → List FileInfo → Option FileInfo
find_file name [] = none
find_file name (f ∷ fs) = if f.name =? name then some f else find_file name fs

-- The header has been handed to the control lane.
unfoldable pub after_header : Stream → Option SendError × Manager → Option Stream × Manager
unfolding release_bulk
after_header s (none, m) = (some s, m)
after_header s (some e, m) = (none, release_bulk s.operation m)

unfoldable pub normalize_asset_quality : String → String × Bool
normalize_asset_quality quality =
    if quality =? ""
    then ("original", true)
    else if quality =? "original"
    then ("original", true)
    else if quality =? "thumbnail"
    then ("thumbnail", true)
    else if quality =? "video"
    then ("video", true)
    else (quality, false)

module _ (paths : Paths) where
  unfoldable pub resolve_request_path : String → FileInfo → String
  resolve_request_path dir f =
      if f.request_path =? ""
      then ""
      else if dir =? ""
      then f.request_path
      else paths.join dir f.request_path

  unfoldable pub dir_of : String → String
  dir_of file_path = if paths.dir file_path =? "." then "" else paths.dir file_path

  unfoldable pub send_file_header :
      Bool → StorageBackend → String → String → ℕ → FileInfo → Manager → Option Stream × Manager
  unfolding resolve_request_path dir_of after_header hand_over
  send_file_header accepts client file_path request_id operation f m =
      after_header
        (record {
          source = resolve_request_path (dir_of file_path) f;
          request_id = request_id;
          operation = operation;
          total = 0;
        })
        (hand_over accepts
          (text (
            file_header f.name f.size f.content_type
              (if f.sha1 =? "" then client.get_sha1 file_path else f.sha1) request_id operation))
          m)

  unfoldable pub serve_file :
      Bool → Option StorageBackend → String → String → ℕ → Manager → Option Stream × Manager
  unfolding fail_bulk dir_of find_file send_file_header
  serve_file accepts none file_path request_id operation m =
      fail_bulk operation request_id "share unavailable: client not initialized" m
  serve_file accepts (some client) file_path request_id operation m =
      elim (client.list_files (dir_of file_path)) [
        | err e ↦ fail_bulk operation request_id "share unavailable" m
        | ok files ↦ elim (find_file (paths.base file_path) files) [
          | none ↦
              fail_bulk operation request_id (concat "file not found: " (paths.base file_path)) m
          | some f ↦ send_file_header accepts client file_path request_id operation f m
        ]
      ]

  unfoldable pub acquired_file :
      Bool → Option StorageBackend → String → String → Option ℕ × Manager → Option Stream × Manager
  unfolding serve_file
  acquired_file accepts client file_path request_id (none, m) = (none, m)
  acquired_file accepts client file_path request_id (some operation, m) =
      serve_file accepts client file_path request_id operation m

  -- handleFileRequest, past its test of the limit.
  unfoldable pub file_past_limit :
      Bool → Option StorageBackend → String → String → Manager → Option Stream × Manager
  unfolding send_error acquire_bulk acquired_file
  file_past_limit accepts client file_path request_id m =
      if paths.has_dots file_path
      then (none, send_error "bulk" request_id "invalid path" m)
      else if file_path =? ""
      then (none, send_error "bulk" request_id "file path required" m)
      else acquired_file accepts client file_path request_id (acquire_bulk request_id m)

  -- handleFileRequest, where nothing comes between its test and the rest.
  unfoldable pub handle_file_request :
      Bool → Option StorageBackend → String → String → Manager → Option Stream × Manager
  unfolding at_limit refuse_at_limit file_past_limit
  handle_file_request accepts client file_path request_id m =
      if at_limit m
      then (none, refuse_at_limit request_id m)
      else file_past_limit accepts client file_path request_id m

unfoldable pub send_asset_header :
    Bool → String → String → ℕ → AssetInfo → Manager → Option Stream × Manager
unfolding after_header hand_over
send_asset_header accepts id request_id operation a m =
    after_header (record { source = id; request_id = request_id; operation = operation; total = 0 })
      (hand_over accepts (text (file_header a.name a.size a.mime_type "" request_id operation)) m)

unfoldable pub serve_asset :
    Bool → Option GalleryBackend → String → String → ℕ → Manager → Option Stream × Manager
unfolding fail_bulk send_asset_header
serve_asset accepts none id request_id operation m =
    fail_bulk operation request_id "share unavailable: client not initialized" m
serve_asset accepts (some gallery) id request_id operation m = elim (gallery.get_asset_info id) [
  | err e ↦ fail_bulk operation request_id (concat "asset info unavailable: " e) m
  | ok a ↦ send_asset_header accepts id request_id operation a m
]

unfoldable pub acquired_asset :
    Bool → Option GalleryBackend → String → String → Option ℕ × Manager → Option Stream × Manager
unfolding serve_asset
acquired_asset accepts gallery id request_id (none, m) = (none, m)
acquired_asset accepts gallery id request_id (some operation, m) =
    serve_asset accepts gallery id request_id operation m

-- handleAssetRequest, past its test of the limit.
unfoldable pub asset_past_limit :
    Bool → Option GalleryBackend → String → String → String → Manager → Option Stream × Manager
unfolding send_error normalize_asset_quality acquire_bulk acquired_asset
asset_past_limit accepts gallery id quality request_id m =
    if id =? ""
    then (none, send_error "bulk" request_id "asset id required" m)
    else if (normalize_asset_quality quality).1
    then acquired_asset accepts gallery id request_id (acquire_bulk request_id m)
    else (none, send_error "bulk" request_id (concat "unsupported asset quality: " quality) m)

-- handleAssetRequest, where nothing comes between its test and the rest.
unfoldable pub handle_asset_request :
    Bool → Option GalleryBackend → String → String → String → Manager → Option Stream × Manager
unfolding at_limit refuse_at_limit asset_past_limit
handle_asset_request accepts gallery id quality request_id m =
    if at_limit m
    then (none, refuse_at_limit request_id m)
    else asset_past_limit accepts gallery id quality request_id m
