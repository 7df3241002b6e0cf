-- ===== src/Transfer/Albums.antt =====
-- The download of an album in archives, one after another, each of which the browser acknowledges.
use share_bridge.Prelude.{
  ℕ, suc, ◌+◌, ◌^◌, ◌%◌, ◌==◌, Bool, not, ◌||◌, List, [], ◌∷◌, ◌++◌, String, concat, Option, none,
  some, ◌=?◌, string_key, if◌then◌else◌, Result, ok, err, length,
}
use share_bridge.Lane.{bulk}
use share_bridge.Transfer.Frames.{encode_chunk_frame}
use share_bridge.Transfer.State.{
  Manager, AlbumAck, AlbumBatch, album_header, album_download_complete, chunk_end, text, binary,
  tell, SendError, send_error, acquire_bulk, advance_bulk_operation, finish_album_batch,
  send_bulk_error_if_active, hand_over,
}
use share_bridge.Transfer.Downloads.{at_limit, refuse_at_limit}

unfoldable pub install_batch : String → Option ℕ × Manager → Option ℕ × Manager
install_batch request_id (none, m) = (none, m)
install_batch request_id (some operation, m) = (
  some operation,
  record m {
    album_batch = some (record { batch = operation; request_id = request_id; ack = none });
  },
)

-- handleAlbumDownloadRequest from its test of the limit on, up to its goroutine; whether the backend
-- has albums is given.
unfoldable pub album_past_limit : Bool → String → Manager → Option ℕ × Manager
unfolding send_error acquire_bulk install_batch
album_past_limit has_albums request_id m =
    if request_id =? ""
    then (none, send_error "bulk" request_id "album download request_id required" m)
    else if not has_albums
    then (none, send_error "bulk" request_id "album download unavailable" m)
    else install_batch request_id (acquire_bulk request_id m)

-- handleAlbumDownloadRequest up to its goroutine, where nothing comes between its test and the rest.
unfoldable pub handle_album_download_request : Bool → String → Manager → Option ℕ × Manager
unfolding at_limit refuse_at_limit album_past_limit
handle_album_download_request has_albums request_id m =
    if at_limit m
    then (none, refuse_at_limit request_id m)
    else album_past_limit has_albums request_id m

-- The channel holds one acknowledgement, and a second is dropped.
unfoldable pub put_ack : AlbumAck → Option AlbumAck → Option AlbumAck
put_ack a none = some a
put_ack a (some old) = some old

unfoldable pub ack_batch : String → AlbumAck → Option AlbumBatch → Option AlbumBatch
unfolding put_ack
ack_batch batch_id a none = none
ack_batch batch_id a (some b) =
    if not (b.request_id =? batch_id) then some b else some (record b { ack = put_ack a b.ack })

-- handleAlbumArchiveAck; the operation is what ParseUint gives, if it gives a number.
unfoldable pub handle_album_archive_ack : String → ℕ → Option ℕ → Bool → Manager → Manager
unfolding ack_batch
handle_album_archive_ack batch_id part_index none accepted m = m
handle_album_archive_ack batch_id part_index (some operation) accepted m =
    if operation == 0 then m else record m {
      album_batch =
          ack_batch batch_id
            (record { part_index = part_index; operation_id = operation; accepted = accepted })
            m.album_batch;
    }

-- How the wait for an acknowledgement ends.
pub data Waited : Type 0 where
  acked : AlbumAck → Waited
  timed_out cancelled : Waited

-- A read of an archive's pipe, and whether its chunk is accepted.
pub record Piece : Type 0 where
  pub bytes : List ℕ
  pub accepted : Bool

-- An archive: what its pipe gives, with the error at its end if it is not io.EOF, and how the sends and
-- the wait go.
pub record Part : Type 0 where
  pub name : String
  pub estimated_size : ℕ
  pub pieces : List Piece
  pub failure : Option String
  pub header_accepted : Bool
  pub end_accepted : Bool
  pub waited : Waited

unfoldable pub send_piece : Piece → List ℕ → ℕ → Manager → Option SendError × Manager
unfolding hand_over encode_chunk_frame
send_piece p [] operation m = (none, m)
send_piece p (b ∷ bs) operation m =
    hand_over p.accepted (binary bulk (encode_chunk_frame operation 0 (b ∷ bs))) m

unfoldable pub archive_end : Option String → ℕ → Result String ℕ
archive_end none total = ok total
archive_end (some e) total = err e

unfoldable pub after_piece :
    (Manager → Result String ℕ × Manager) → Option SendError × Manager → Result String ℕ × Manager
after_piece rest (some e, m) = (err "", m)
after_piece rest (none, m) = rest m

-- streamAlbumArchive. The text of a send's error is the transport's, and left out.
unfoldable pub stream_archive :
    List Piece → Option String → ℕ → ℕ → Manager → Result String ℕ × Manager
unfolding send_piece archive_end after_piece
stream_archive [] failure operation total m = (archive_end failure total, m)
stream_archive (p ∷ ps) failure operation total m =
    after_piece (stream_archive ps failure operation ((total + length p.bytes) % 2 ^ 64))
      (send_piece p p.bytes operation m)

-- The acknowledgement of an archive; the bytes it sent where the loop goes on.
unfoldable pub check_ack : Waited → String → ℕ → ℕ → ℕ → Manager → Option ℕ × Manager
unfolding send_bulk_error_if_active
check_ack (acked a) request_id index operation total m =
    if not a.accepted || not (a.part_index == index) || not (a.operation_id == operation)
    then (none, m)
    else (some total, m)
check_ack timed_out request_id index operation total m = (
  none,
  send_bulk_error_if_active operation request_id "album download acknowledgement timed out" m,
)
check_ack cancelled request_id index operation total m = (none, m)

unfoldable pub after_end :
    Waited → String → ℕ → ℕ → ℕ → Option SendError × Manager → Option ℕ × Manager
unfolding check_ack
after_end waited request_id index operation total (some e, m) = (none, m)
after_end waited request_id index operation total (none, m) =
    check_ack waited request_id index operation total m

unfoldable pub after_archive :
    Part → String → ℕ → ℕ → Result String ℕ × Manager → Option ℕ × Manager
unfolding send_bulk_error_if_active after_end hand_over
after_archive p request_id index operation (err e, m) = (
  none,
  send_bulk_error_if_active operation request_id (concat "album archive transfer failed: " e) m,
)
after_archive p request_id index operation (ok total, m) =
    after_end p.waited request_id index operation total
      (hand_over p.end_accepted (text (chunk_end request_id operation total)) m)

unfoldable pub after_album_header :
    Part → String → ℕ → ℕ → Option SendError × Manager → Option ℕ × Manager
unfolding stream_archive after_archive
after_album_header p request_id index operation (some e, m) = (none, m)
after_album_header p request_id index operation (none, m) =
    after_archive p request_id index operation (stream_archive p.pieces p.failure operation 0 m)

-- One archive, from its header to its acknowledgement.
unfoldable pub send_part : Part → String → ℕ → ℕ → ℕ → Manager → Option ℕ × Manager
unfolding after_album_header hand_over
send_part p request_id index count operation m = after_album_header p request_id index operation (
    hand_over p.header_accepted
      (text (album_header p.name p.estimated_size request_id operation index count)) m)

-- All archives are acknowledged: the download is counted.
unfoldable pub complete_album : ℕ → String → ℕ → Manager → Manager
unfolding tell
complete_album count request_id total m =
    tell (text (album_download_complete request_id count total))
      (record m { downloads = (m.downloads + 1) % 2 ^ 32; completed = m.completed ++ total ∷ [] })

-- Where the loop is left, the batch is finished under the operation that is current then.
unfoldable pub or_finish : ℕ → ℕ → (ℕ → Manager → Manager) → Option ℕ × Manager → Manager
unfolding finish_album_batch
or_finish batch operation rest (none, m) = finish_album_batch batch operation m
or_finish batch operation rest (some n, m) = rest n m

-- The loop over the archives, from the one of this index: the operation, the archive, and the rest.
unfoldable pub album_loop : List Part → ℕ → String → ℕ → ℕ → ℕ → ℕ → Manager → Manager
unfolding or_finish send_part advance_bulk_operation finish_album_batch complete_album
album_loop [] batch request_id count index operation total m =
    finish_album_batch batch operation (complete_album count request_id total m)
album_loop (p ∷ ps) batch request_id count index operation total m =
    or_finish batch operation
      (λ next m1.
        or_finish batch next
          (λ bytes m2.
            album_loop ps batch request_id count (suc index) next ((total + bytes) % 2 ^ 64) m2)
          (send_part p request_id (index + 1) count next m1))
      (if index == 0 then (some operation, m) else advance_bulk_operation operation m)

-- streamAlbumDownload
unfoldable pub stream_album_download : List Part → ℕ → String → ℕ → Manager → Manager
unfolding send_bulk_error_if_active finish_album_batch album_loop
stream_album_download [] batch request_id operation m =
    finish_album_batch batch operation
      (send_bulk_error_if_active operation request_id "album contains no downloadable assets" m)
stream_album_download (p ∷ ps) batch request_id operation m =
    album_loop (p ∷ ps) batch request_id (length (p ∷ ps)) 0 operation 0 m

-- The goroutine of handleAlbumDownloadRequest, with what the backend's GetAlbumDownload gives.
unfoldable pub album_goroutine : Result String (List Part) → ℕ → String → ℕ → Manager → Manager
unfolding send_bulk_error_if_active finish_album_batch stream_album_download
album_goroutine (err e) batch request_id operation m =
    finish_album_batch batch operation
      (send_bulk_error_if_active operation request_id (concat "album download unavailable: " e) m)
album_goroutine (ok archives) batch request_id operation m =
    stream_album_download archives batch request_id operation m
