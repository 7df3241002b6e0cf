-- ===== src/Transfer/Answers.antt =====
-- What a download request and a turn of its stream do to the bulk slot and the count of downloads.
use share_bridge.Prelude.{
  if_elim, concat, ℕ, ◌≡◌, ◌∙◌, refl, inl, inr, Bool, true, false, String, Option, none, some, ◌=?◌,
  string_key, arith, Option-cases, Result-cases, ==_iff,
}
use share_bridge.Transfer.State.{
  Manager, SendError, Sent, text, error, tell, send_error, send_operation_error, next_operation_id,
  acquire_bulk, release_bulk, send_bulk_error_if_active, hand_over,
}
use share_bridge.Transfer.Downloads.{
  StorageBackend, GalleryBackend, Paths, Stream, refuse_at_limit, fail_bulk, find_file,
  after_header, normalize_asset_quality, dir_of, send_file_header, serve_file, acquired_file,
  file_past_limit, send_asset_header, serve_asset, acquired_asset, asset_past_limit,
}

-- The bulk slot and the counts are as they were.
pub record SameBulk (m m' : Manager) : Type 0 where
  pub transfer : m'.bulk_transfer ≡ m.bulk_transfer
  pub operation : m'.bulk_operation ≡ m.bulk_operation
  pub downloads : m'.downloads ≡ m.downloads
  pub max : m'.max_downloads ≡ m.max_downloads

pub same_bulk : (m : Manager) → SameBulk m m
same_bulk m = record { transfer = refl; operation = refl; downloads = refl; max = refl }

pub chain : {m1 m2 m3 : Manager} → SameBulk m1 m2 → SameBulk m2 m3 → SameBulk m1 m3
chain a b = record {
  transfer = b.transfer ∙ a.transfer;
  operation = b.operation ∙ a.operation;
  downloads = b.downloads ∙ a.downloads;
  max = b.max ∙ a.max;
}

pub error-SameBulk :
    (operation : ℕ) (request_id message : String) (m : Manager)
    → SameBulk m (send_bulk_error_if_active operation request_id message m)
unfolding send_bulk_error_if_active send_operation_error tell
error-SameBulk operation request_id message m = record {
  transfer = ground arith;
  operation = ground arith;
  downloads = ground arith;
  max = ground arith;
}

-- The slot is free after this, with the counts as in `m`.
pub record Free (m m' : Manager) : Type 0 where
  pub free : m'.bulk_transfer ≡ false
  pub downloads : m'.downloads ≡ m.downloads
  pub max : m'.max_downloads ≡ m.max_downloads

pub release-Free :
    (m m' : Manager) (operation : ℕ)
    → SameBulk m m'
    → m.bulk_operation ≡ operation
    → Free m (release_bulk operation m')
unfolding release_bulk
release-Free m m' operation s e =
    let q = (==_iff m'.bulk_operation operation).1 (s.operation ∙ e) in
    record { free = rw q refl; downloads = rw q s.downloads; max = rw q s.max }

-- A request has taken the free slot.
pub record Acquired (m : Manager) (operation : ℕ) (m' : Manager) : Type 0 where
  pub was_free : m.bulk_transfer ≡ false
  pub transfer : m'.bulk_transfer ≡ true
  pub operation_is : m'.bulk_operation ≡ operation
  pub downloads : m'.downloads ≡ m.downloads
  pub max : m'.max_downloads ≡ m.max_downloads

-- What a request left: no stream, with the slot as it was, or a stream that has taken the free slot.
pub data Started (m : Manager) : Option Stream × Manager → Type 0 where
  unchanged : {m' : Manager} → SameBulk m m' → Started m (none, m')
  given_back : {m' : Manager} → m.bulk_transfer ≡ false → Free m m' → Started m (none, m')
  started : {m' : Manager} (s : Stream) → Acquired m s.operation m' → Started m (some s, m')

release_bulk-Started :
    (m m1 m2 : Manager) (operation : ℕ)
    → Acquired m operation m1
    → SameBulk m1 m2
    → Started m (none, release_bulk operation m2)
release_bulk-Started m m1 m2 operation a s =
    let f = release-Free m1 m2 operation s a.operation_is in
    given_back a.was_free
      (record { free = f.free; downloads = f.downloads ∙ a.downloads; max = f.max ∙ a.max })

fail_bulk-Started :
    (m m1 : Manager) (operation : ℕ) (request_id message : String)
    → Acquired m operation m1
    → Started m (fail_bulk operation request_id message m1)
unfolding fail_bulk
fail_bulk-Started m m1 operation request_id message a =
    release_bulk-Started m m1 (send_bulk_error_if_active operation request_id message m1) operation
      a (error-SameBulk operation request_id message m1)

pub hand_over-SameBulk :
    (accepts : Bool) (x : Sent) (m : Manager) → SameBulk m (hand_over accepts x m).1
unfolding hand_over tell
hand_over-SameBulk true x m = record {
  transfer = refl;
  operation = refl;
  downloads = refl;
  max = refl;
}
hand_over-SameBulk false x m = same_bulk m

after_header-Started :
    (m m1 : Manager) (s : Stream) (p : Option SendError × Manager)
    → Acquired m s.operation m1
    → SameBulk m1 p.1
    → Started m (after_header s p)
unfolding after_header
after_header-Started m m1 s (none, m2) a b = started s (record {
  was_free = a.was_free;
  transfer = b.transfer ∙ a.transfer;
  operation_is = b.operation ∙ a.operation_is;
  downloads = b.downloads ∙ a.downloads;
  max = b.max ∙ a.max;
})
after_header-Started m m1 s (some e, m2) a b = release_bulk-Started m m1 m2 s.operation a b

-- What acquireBulk answers.
pub data Slot (m : Manager) : Option ℕ × Manager → Type 0 where
  busy : {m' : Manager} → SameBulk m m' → Slot m (none, m')
  taken : {m' : Manager} (operation : ℕ) → Acquired m operation m' → Slot m (some operation, m')

pub tell-SameBulk : (x : Sent) (m : Manager) → SameBulk m (tell x m)
unfolding tell
tell-SameBulk x m = record { transfer = refl; operation = refl; downloads = refl; max = refl }

pub acquire_bulk-Slot : (request_id : String) (m : Manager) → Slot m (acquire_bulk request_id m)
unfolding acquire_bulk send_error next_operation_id
acquire_bulk-Slot request_id m =
    if_elim (Slot m) m.bulk_transfer
      (λ b. busy (tell-SameBulk (text (error "bulk" request_id "transfer in progress")) m))
      (λ b. taken (next_operation_id m).0 (record {
        was_free = b;
        transfer = refl;
        operation_is = refl;
        downloads = refl;
        max = refl;
      }))

refused-Started :
    (request_id message : String) (m : Manager)
    → Started m (none, send_error "bulk" request_id message m)
unfolding send_error
refused-Started request_id message m =
    unchanged (tell-SameBulk (text (error "bulk" request_id message)) m)

pub refuse-SameBulk :
    (request_id : String) (m : Manager) → SameBulk m (refuse_at_limit request_id m)
unfolding refuse_at_limit send_error tell
refuse-SameBulk request_id m = record {
  transfer = refl;
  operation = refl;
  downloads = refl;
  max = refl;
}

module _ (paths : Paths) (accepts : Bool) where
  serve_file-Started :
      (client : Option StorageBackend) (file_path request_id : String) (operation : ℕ)
      (m m1 : Manager)
      → Acquired m operation m1
      → Started m (serve_file paths accepts client file_path request_id operation m1)
  unfolding serve_file send_file_header
  serve_file-Started none file_path request_id operation m m1 a =
      fail_bulk-Started m m1 operation request_id "share unavailable: client not initialized" a
  serve_file-Started (some client) file_path request_id operation m m1 a =
      elim (Result-cases (client.list_files (dir_of paths file_path))) [
        | inl (e, q) ↦ rw q (fail_bulk-Started m m1 operation request_id "share unavailable" a)
        | inr (files, q) ↦ elim (Option-cases (find_file (paths.base file_path) files)) [
          | inl n ↦
              rw (q, n)
                (fail_bulk-Started m m1 operation request_id
                  (concat "file not found: " (paths.base file_path)) a)
          | inr (f, n) ↦
              rw (q, n) (after_header-Started m m1 _ _ a (hand_over-SameBulk accepts _ m1))
        ]
      ]

  acquired_file-Started :
      (client : Option StorageBackend) (file_path request_id : String) (m : Manager)
      (p : Option ℕ × Manager)
      → Slot m p
      → Started m (acquired_file paths accepts client file_path request_id p)
  unfolding acquired_file
  acquired_file-Started client file_path request_id m _ (busy s) = unchanged s
  acquired_file-Started client file_path request_id m _ (taken {m' = m1} operation a) =
      serve_file-Started client file_path request_id operation m m1 a

  pub file_past_limit-Started :
      (client : Option StorageBackend) (file_path request_id : String) (m : Manager)
      → Started m (file_past_limit paths accepts client file_path request_id m)
  unfolding file_past_limit
  file_past_limit-Started client file_path request_id m =
      if_elim (Started m) (paths.has_dots file_path)
        (λ b. refused-Started request_id "invalid path" m)
        λ b.
          if_elim (Started m) (file_path =? "")
            (λ b. refused-Started request_id "file path required" m)
            λ b.
              acquired_file-Started client file_path request_id m (acquire_bulk request_id m)
                (acquire_bulk-Slot request_id m)

module _ (accepts : Bool) where
  serve_asset-Started :
      (gallery : Option GalleryBackend) (id request_id : String) (operation : ℕ) (m m1 : Manager)
      → Acquired m operation m1
      → Started m (serve_asset accepts gallery id request_id operation m1)
  unfolding serve_asset send_asset_header
  serve_asset-Started none id request_id operation m m1 a =
      fail_bulk-Started m m1 operation request_id "share unavailable: client not initialized" a
  serve_asset-Started (some gallery) id request_id operation m m1 a =
      elim (Result-cases (gallery.get_asset_info id)) [
        | inl (e, q) ↦
            rw q
              (fail_bulk-Started m m1 operation request_id (concat "asset info unavailable: " e) a)
        | inr (f, q) ↦ rw q (after_header-Started m m1 _ _ a (hand_over-SameBulk accepts _ m1))
      ]

  acquired_asset-Started :
      (gallery : Option GalleryBackend) (id request_id : String) (m : Manager)
      (p : Option ℕ × Manager)
      → Slot m p
      → Started m (acquired_asset accepts gallery id request_id p)
  unfolding acquired_asset
  acquired_asset-Started gallery id request_id m _ (busy s) = unchanged s
  acquired_asset-Started gallery id request_id m _ (taken {m' = m1} operation a) =
      serve_asset-Started gallery id request_id operation m m1 a

  pub asset_past_limit-Started :
      (gallery : Option GalleryBackend) (id quality request_id : String) (m : Manager)
      → Started m (asset_past_limit accepts gallery id quality request_id m)
  unfolding asset_past_limit
  asset_past_limit-Started gallery id quality request_id m =
      if_elim (Started m) (id =? "") (λ b. refused-Started request_id "asset id required" m)
        λ b.
          if_elim (Started m) (normalize_asset_quality quality).1
            (λ b.
              acquired_asset-Started gallery id request_id m (acquire_bulk request_id m)
                (acquire_bulk-Slot request_id m))
            (λ b. refused-Started request_id (concat "unsupported asset quality: " quality) m)
