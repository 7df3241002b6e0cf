-- ===== src/Transfer/Streams.antt =====
-- The loop of streamFile and streamAsset, which are the same: one read of the pipe at a time, with
-- releaseBulk deferred to the end of the goroutine.
use share_bridge.Prelude.{
  ℕ, ◌+◌, ◌^◌, ◌%◌, Bool, List, [], ◌∷◌, ◌++◌, String, concat, Option, none, some, length,
}
use share_bridge.Lane.{bulk}
use share_bridge.Transfer.Frames.{encode_chunk_frame}
use share_bridge.Transfer.State.{
  Manager, chunk_end, text, binary, SendError, release_bulk, send_bulk_error_if_active, hand_over,
}
use share_bridge.Transfer.Downloads.{Stream}

-- How a read of the pipe ends: with no error, with io.EOF, or with another error.
pub data ReadEnd : Type 0 where
  more eof : ReadEnd
  failed : String → ReadEnd

-- A read, and whether the endpoints accept what is sent for it.
pub record Read : Type 0 where
  pub bytes : List ℕ
  pub end : ReadEnd
  pub chunk_accepted : Bool
  pub end_accepted : Bool

unfoldable pub drop_stream : Stream → Manager → Option Stream × Manager
unfolding release_bulk
drop_stream s m = (none, release_bulk s.operation m)

-- The chunk_end message has been handed over.
unfoldable pub count_download : Stream → Option SendError × Manager → Option Stream × Manager
unfolding drop_stream
count_download s (some e, m) = drop_stream s m
count_download s (none, m) =
    drop_stream s
      (record m { downloads = (m.downloads + 1) % 2 ^ 32; completed = m.completed ++ s.total ∷ [] })

-- What follows a chunk that was sent.
unfoldable pub end_turn : ReadEnd → Bool → Stream → Manager → Option Stream × Manager
unfolding drop_stream count_download send_bulk_error_if_active hand_over
end_turn more accepted s m = (some s, m)
end_turn (failed e) accepted s m =
    drop_stream s
      (send_bulk_error_if_active s.operation s.request_id (concat "transfer failed: " e) m)
end_turn eof accepted s m =
    count_download s (hand_over accepted (text (chunk_end s.request_id s.operation s.total)) m)

unfoldable pub after_chunk :
    ReadEnd → Bool → Stream → Option SendError × Manager → Option Stream × Manager
unfolding end_turn drop_stream
after_chunk end accepted s (some e, m) = drop_stream s m
after_chunk end accepted s (none, m) = end_turn end accepted s m

unfoldable pub add_total : ℕ → Stream → Stream
add_total n s = record s { total = (s.total + n) % 2 ^ 64 }

-- One turn of the loop, on the bytes of the read: a read of nothing sends no chunk.
unfoldable pub turn_on : List ℕ → Read → Stream → Manager → Option Stream × Manager
unfolding end_turn after_chunk add_total hand_over encode_chunk_frame
turn_on [] r s m = end_turn r.end r.end_accepted s m
turn_on (b ∷ bs) r s m =
    after_chunk r.end r.end_accepted (add_total (length (b ∷ bs)) s)
      (hand_over r.chunk_accepted (binary bulk (encode_chunk_frame s.operation 0 (b ∷ bs))) m)

unfoldable pub turn : Read → Stream → Manager → Option Stream × Manager
unfolding turn_on
turn r s m = turn_on r.bytes r s m

unfoldable pub stream_on : List Read → Option Stream × Manager → Option Stream × Manager
unfolding turn
stream_on [] p = p
stream_on (r ∷ rs) (none, m) = (none, m)
stream_on (r ∷ rs) (some s, m) = stream_on rs (turn r s m)

-- streamFile and streamAsset, as far as the reads go.
unfoldable pub stream_file : List Read → Stream → Manager → Option Stream × Manager
unfolding stream_on
stream_file reads s m = stream_on reads (some s, m)
