-- ===== src/Transfer/JobTurns.antt =====
-- What the start and a turn of a job do to the bulk slot and the count of downloads.
use share_bridge.Prelude.{
  ℕ, suc, ◌+◌, ◌≤◌, ◌^◌, ◌%◌, ◌≡◌, ◌∙◌, sym, refl, Bool, true, false, not, List, [], ◌∷◌, String,
  concat, Option, none, some, ◌=?◌, string_key, if_elim, Result, ok, err, length, arith,
}
use share_bridge.Transfer.State.{Manager, acquire_bulk, send_error, tell, finish_album_batch}
use share_bridge.Transfer.Downloads.{Stream}
use share_bridge.Transfer.Streams.{Read, turn, turn_on}
use share_bridge.Transfer.Albums.{Part, install_batch, album_past_limit, complete_album}
use share_bridge.Transfer.Answers.{
  SameBulk, same_bulk, Free, Acquired, Started, unchanged, given_back, started, Slot, busy, taken,
  acquire_bulk-Slot, error-SameBulk, tell-SameBulk,
}
use share_bridge.Transfer.Turns.{Turned, stays, ended, turn_on-Turned}
use share_bridge.Transfer.Archives.{
  Went, stops, goes, part-Went, Advanced, moved, first-Advanced, finish-Free,
}
use share_bridge.Transfer.Jobs.{
  AlbumJob, asks, sends_on, Job, download, album, operation_of, album_operation, as_download,
  as_album, or_end, album_turn, job_turn,
}

-- What a request left: no job, with the slot as it was, or a job that has taken the free slot.
pub data Begun (m : Manager) : Option Job × Manager → Type 0 where
  refused : {m' : Manager} → SameBulk m m' → Begun m (none, m')
  returned : {m' : Manager} → m.bulk_transfer ≡ false → Free m m' → Begun m (none, m')
  begun : {m' : Manager} (j : Job) → Acquired m (operation_of j) m' → Begun m (some j, m')

pub download-Begun :
    (m : Manager) (p : Option Stream × Manager) → Started m p → Begun m (as_download p)
unfolding as_download
download-Begun m _ (unchanged b) = refused b
download-Begun m _ (given_back free f) = returned free f
download-Begun m _ (started s a) = begun (download s) a

install-Begun :
    (answer : Result String (List Part)) (request_id : String) (m : Manager)
    (p : Option ℕ × Manager)
    → Slot m p
    → Begun m (as_album answer request_id (install_batch request_id p))
unfolding as_album install_batch
install-Begun answer request_id m _ (busy b) = refused b
install-Begun answer request_id m _ (taken operation a) =
    begun (album (asks answer operation request_id operation)) (record {
      was_free = a.was_free;
      transfer = a.transfer;
      operation_is = a.operation_is;
      downloads = a.downloads;
      max = a.max;
    })

pub album-Begun :
    (has_albums : Bool) (answer : Result String (List Part)) (request_id : String) (m : Manager)
    → Begun m (as_album answer request_id (album_past_limit has_albums request_id m))
unfolding album_past_limit as_album send_error
album-Begun has_albums answer request_id m =
    let P : Option ℕ × Manager → Type 0 = λ p. Begun m (as_album answer request_id p) in
    if_elim P (request_id =? "") (λ b. refused (tell-SameBulk _ m))
      λ b.
        if_elim P (not has_albums) (λ b. refused (tell-SameBulk _ m))
          λ b.
            install-Begun answer request_id m (acquire_bulk request_id m)
              (acquire_bulk-Slot request_id m)

-- What a turn of the slot's own job left.
pub data JobTurned (m : Manager) : Option Job × Manager → Type 0 where
  holds :
      {m' : Manager} (j : Job)
      → m'.bulk_transfer ≡ true
      → m'.bulk_operation ≡ operation_of j
      → m'.downloads ≡ m.downloads
      → m'.max_downloads ≡ m.max_downloads
      → JobTurned m (some j, m')
  over :
      {m' : Manager}
      → m'.bulk_transfer ≡ false
      → m'.downloads ≤ suc m.downloads
      → m'.max_downloads ≡ m.max_downloads
      → JobTurned m (none, m')

download-JobTurned :
    (m : Manager) (s : Stream) (p : Option Stream × Manager)
    → m.bulk_transfer ≡ true
    → m.bulk_operation ≡ s.operation
    → Turned m s p
    → JobTurned m (as_download p)
unfolding as_download
download-JobTurned m s _ t o (stays {s' = s'} b e) =
    holds (download s') (b.transfer ∙ t) (b.operation ∙ o ∙ sym e) b.downloads b.max
download-JobTurned m s _ t o (ended free count limit) = over free count limit

finish-JobTurned :
    (batch operation : ℕ) (m m1 m2 : Manager)
    → SameBulk m1 m2
    → m1.bulk_operation ≡ operation
    → m1.downloads ≤ suc m.downloads
    → m1.max_downloads ≡ m.max_downloads
    → JobTurned m (none, finish_album_batch batch operation m2)
finish-JobTurned batch operation m m1 m2 b o count limit =
    let f = finish-Free batch operation m1 m2 b o in
    over f.free (omega (arith, f.downloads, count)) (f.max ∙ limit)

part-JobTurned :
    (batch next index : ℕ) (p : Part) (rest : ℕ → Job) (m m1 : Manager) (q : Option ℕ × Manager)
    → m1.bulk_transfer ≡ true
    → m1.bulk_operation ≡ next
    → m1.downloads ≡ m.downloads
    → m1.max_downloads ≡ m.max_downloads
    → ((k : ℕ) → operation_of (rest k) ≡ next)
    → Went m1 index next p q
    → JobTurned m (or_end batch next (λ k m2. (some (rest k), m2)) q)
unfolding or_end
part-JobTurned batch next index p rest m m1 _ t o d x same (stops {m' = m2} b) =
    finish-JobTurned batch next m m1 m2 b.same o (omega (arith, d)) x
part-JobTurned batch next index p rest m m1 _ t o d x same (goes {m' = m2} k b a) =
    holds (rest k) (b.same.transfer ∙ t) (b.same.operation ∙ o ∙ sym (same k))
      (b.same.downloads ∙ d) (b.same.max ∙ x)

advance-JobTurned :
    (batch index operation : ℕ) (rest : ℕ → Manager → Option Job × Manager) (m : Manager)
    (q : Option ℕ × Manager)
    → ((next : ℕ) (m1 : Manager)
        → m1.bulk_transfer ≡ true
        → m1.bulk_operation ≡ next
        → m1.downloads ≡ m.downloads
        → m1.max_downloads ≡ m.max_downloads
        → JobTurned m (rest next m1))
    → Advanced m index operation q
    → JobTurned m (or_end batch operation rest q)
unfolding or_end
advance-JobTurned batch index operation rest m _ h (moved {m' = m1} next t o d x f) =
    h next m1 t o d x

album-JobTurned :
    (j : AlbumJob) (m : Manager)
    → m.bulk_transfer ≡ true
    → m.bulk_operation ≡ album_operation j
    → JobTurned m (album_turn j m)
unfolding album_turn complete_album tell
album-JobTurned (asks (err e) batch request_id operation) m t o =
    finish-JobTurned batch operation m m _
      (error-SameBulk operation request_id (concat "album download unavailable: " e) m) o
      (omega arith) refl
album-JobTurned (asks (ok []) batch request_id operation) m t o =
    finish-JobTurned batch operation m m _
      (error-SameBulk operation request_id "album contains no downloadable assets" m) o
      (omega arith) refl
album-JobTurned (asks (ok (p ∷ ps)) batch request_id operation) m t o =
    holds (album (sends_on (p ∷ ps) batch request_id (length (p ∷ ps)) 0 operation 0)) t o refl refl
album-JobTurned (sends_on [] batch request_id count index operation total) m t o =
    let done = complete_album count request_id total m in
    finish-JobTurned batch operation m done done (same_bulk done) o (omega arith) refl
album-JobTurned (sends_on (p ∷ ps) batch request_id count index operation total) m t o =
    advance-JobTurned batch index operation _ m _
      (λ next m1 t1 o1 d1 x1.
        part-JobTurned batch next (index + 1) p
          (λ k. album (sends_on ps batch request_id count (suc index) next ((total + k) % 2 ^ 64)))
          m m1 _ t1 o1 d1 x1 (λ k. refl) (part-Went p request_id (index + 1) count next m1))
      (first-Advanced index operation m t o)

pub job_turn-JobTurned :
    (r : Read) (j : Job) (m : Manager)
    → m.bulk_transfer ≡ true
    → m.bulk_operation ≡ operation_of j
    → JobTurned m (job_turn r j m)
unfolding job_turn turn
job_turn-JobTurned r (download s) m t o =
    download-JobTurned m s (turn_on r.bytes r s m) t o (turn_on-Turned r.bytes r s m o)
job_turn-JobTurned r (album j) m t o = album-JobTurned j m t o
