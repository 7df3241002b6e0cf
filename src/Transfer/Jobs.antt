-- ===== src/Transfer/Jobs.antt =====
-- The goroutines that hold the bulk slot, one turn at a time: a download's stream, and an album's
-- download, of which a turn is the backend's answer, one archive, or the end of the loop.
use share_bridge.Prelude.{
  ℕ, suc, ◌+◌, ◌^◌, ◌%◌, ◌==◌, List, [], ◌∷◌, String, concat, Option, none, some, if◌then◌else◌,
  Result, ok, err, length,
}
use share_bridge.Transfer.State.{
  Manager, advance_bulk_operation, finish_album_batch, send_bulk_error_if_active,
}
use share_bridge.Transfer.Downloads.{Stream}
use share_bridge.Transfer.Streams.{Read, turn}
use share_bridge.Transfer.Albums.{Part, send_part, complete_album}

-- With the batch, the request, the number of archives, the index, the operation and the total.
pub data AlbumJob : Type 0 where
  asks : Result String (List Part) → ℕ → String → ℕ → AlbumJob
  sends_on : List Part → ℕ → String → ℕ → ℕ → ℕ → ℕ → AlbumJob

pub data Job : Type 0 where
  download : Stream → Job
  album : AlbumJob → Job

abbrev pub album_operation : AlbumJob → ℕ
album_operation (asks answer batch request_id operation) = operation
album_operation (sends_on ps batch request_id count index operation total) = operation

abbrev pub operation_of : Job → ℕ
operation_of (download s) = s.operation
operation_of (album j) = album_operation j

unfoldable pub as_download : Option Stream × Manager → Option Job × Manager
as_download (none, m) = (none, m)
as_download (some s, m) = (some (download s), m)

unfoldable pub as_album :
    Result String (List Part) → String → Option ℕ × Manager → Option Job × Manager
as_album answer request_id (none, m) = (none, m)
as_album answer request_id (some operation, m) =
    (some (album (asks answer operation request_id operation)), m)

-- Where the loop is left, the batch is finished.
unfoldable pub or_end :
    ℕ → ℕ → (ℕ → Manager → Option Job × Manager) → Option ℕ × Manager → Option Job × Manager
unfolding finish_album_batch
or_end batch operation rest (none, m) = (none, finish_album_batch batch operation m)
or_end batch operation rest (some n, m) = rest n m

unfoldable pub album_turn : AlbumJob → Manager → Option Job × Manager
unfolding or_end send_part advance_bulk_operation finish_album_batch complete_album
    send_bulk_error_if_active
album_turn (asks (err e) batch request_id operation) m = (
  none,
  finish_album_batch batch operation
      (send_bulk_error_if_active operation request_id (concat "album download unavailable: " e) m),
)
album_turn (asks (ok []) batch request_id operation) m = (
  none,
  finish_album_batch batch operation
      (send_bulk_error_if_active operation request_id "album contains no downloadable assets" m),
)
album_turn (asks (ok (p ∷ ps)) batch request_id operation) m =
    (some (album (sends_on (p ∷ ps) batch request_id (length (p ∷ ps)) 0 operation 0)), m)
album_turn (sends_on [] batch request_id count index operation total) m =
    (none, finish_album_batch batch operation (complete_album count request_id total m))
album_turn (sends_on (p ∷ ps) batch request_id count index operation total) m =
    or_end batch operation
      (λ next m1.
        or_end batch next
          (λ bytes m2. (
            some (
                album
                  (sends_on ps batch request_id count (suc index) next ((total + bytes) % 2 ^ 64))),
            m2,
          ))
          (send_part p request_id (index + 1) count next m1))
      (if index == 0 then (some operation, m) else advance_bulk_operation operation m)

-- A turn of a job; the read is for a download.
unfoldable pub job_turn : Read → Job → Manager → Option Job × Manager
unfolding as_download turn album_turn
job_turn r (download s) m = as_download (turn r s m)
job_turn r (album j) m = album_turn j m
