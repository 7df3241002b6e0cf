-- ===== src/Transfer/Playback.antt =====
-- The loop of streamAssetPreviewFromReader, one read at a time: the test before a read, and what
-- follows it, with finishMedia deferred to the end of the goroutine.
use share_bridge.Prelude.{
  ℕ, ◌+◌, ◌^◌, ◌%◌, ◌==◌, Bool, not, ◌&&◌, ◌||◌, List, [], ◌∷◌, concat, Option, none, some,
  if◌then◌else◌, length,
}
use share_bridge.Transfer.Frames.{encode_chunk_frame}
use share_bridge.Transfer.State.{
  Manager, preview_end, SendError, finish_media, is_cancelled, send_interactive_media,
  send_media_control_if_current, send_media_error_if_active,
}
use share_bridge.Transfer.Streams.{Read, ReadEnd, more, eof, failed}
use share_bridge.Transfer.Previews.{Preview}

unfoldable pub stop_preview : Preview → Manager → Option Preview × Manager
unfolding finish_media
stop_preview s m = (none, finish_media s.operation m)

-- The test at the loop's head: whether the stream reads on.
unfoldable pub check_preview : Preview → Manager → Option Preview × Manager
unfolding stop_preview is_cancelled
check_preview s m =
    if is_cancelled s.operation m.cancelled
    then stop_preview s m
    else if not (m.current_generation == s.generation)
    then stop_preview s m
    else (some s, m)

-- The asset_preview_end message, which an active stream alone sends.
unfoldable pub send_end : Bool → Preview → Manager → Manager
unfolding is_cancelled send_media_control_if_current
send_end accepts s m =
    if not (is_cancelled s.operation m.cancelled)
      && m.media_operation == s.operation
      && m.current_generation == s.generation
    then (send_media_control_if_current accepts s.operation
        (preview_end s.id s.generation s.request_id s.operation s.total) m).1
    else m

unfoldable pub send_failure : List ℕ → Preview → ReadEnd → Manager → Manager
unfolding is_cancelled send_media_error_if_active
send_failure cancelled s (failed e) m =
    if is_cancelled s.operation cancelled
    then m
    else send_media_error_if_active s.operation s.request_id (concat "preview failed: " e) m
send_failure cancelled s _ m = m

unfoldable pub end_read : ReadEnd → Bool → Preview → Manager → Option Preview × Manager
unfolding stop_preview send_end send_failure
end_read more accepted s m = (some s, m)
end_read eof accepted s m = stop_preview s (send_end accepted s m)
end_read (failed e) accepted s m = stop_preview s (send_failure m.cancelled s (failed e) m)

unfoldable pub after_preview_chunk :
    ReadEnd → Bool → Preview → Option SendError × Manager → Option Preview × Manager
unfolding stop_preview end_read
after_preview_chunk end accepted s (some e, m) = stop_preview s m
after_preview_chunk end accepted s (none, m) = end_read end accepted s m

unfoldable pub count_bytes : ℕ → Preview → Preview
count_bytes n s = record s { total = (s.total + n) % 2 ^ 64 }

unfoldable pub read_on : List ℕ → Read → Preview → Manager → Option Preview × Manager
unfolding end_read is_cancelled stop_preview after_preview_chunk count_bytes send_interactive_media
    encode_chunk_frame
read_on [] r s m = end_read r.end r.end_accepted s m
read_on (b ∷ bs) r s m =
    if is_cancelled s.operation m.cancelled || not (m.media_operation == s.operation)
    then stop_preview s m
    else after_preview_chunk r.end r.end_accepted (count_bytes (length (b ∷ bs)) s) (
        send_interactive_media r.chunk_accepted s.operation
          (encode_chunk_frame s.operation s.generation (b ∷ bs)) m)

-- What a turn of the loop does with a read.
unfoldable pub read_preview : Read → Preview → Manager → Option Preview × Manager
unfolding read_on
read_preview r s m = read_on r.bytes r s m
