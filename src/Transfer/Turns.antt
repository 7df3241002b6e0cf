-- ===== src/Transfer/Turns.antt =====
-- What a turn of a stream does to the bulk slot and the count of downloads.
use share_bridge.Prelude.{
  ℕ, suc, ◌+◌, ◌≤◌, ◌^◌, ◌%◌, ◌≡◌, ◌∙◌, refl, Bool, false, List, [], ◌∷◌, ◌++◌, Option, none, some,
  length, arith, concat,
}
use share_bridge.Transfer.State.{Manager, SendError, hand_over, text, chunk_end}
use share_bridge.Transfer.Downloads.{Stream}
use share_bridge.Transfer.Streams.{
  Read, ReadEnd, more, eof, failed, turn_on, after_chunk, end_turn, count_download, drop_stream,
  add_total,
}
use share_bridge.Transfer.Answers.{
  SameBulk, same_bulk, chain, error-SameBulk, release-Free, hand_over-SameBulk,
}

-- What a turn of the slot's own stream left.
pub data Turned (m : Manager) (s : Stream) : Option Stream × Manager → Type 0 where
  stays :
      {m' : Manager} {s' : Stream}
      → SameBulk m m'
      → s'.operation ≡ s.operation
      → Turned m s (some s', m')
  ended :
      {m' : Manager}
      → m'.bulk_transfer ≡ false
      → m'.downloads ≤ suc m.downloads
      → m'.max_downloads ≡ m.max_downloads
      → Turned m s (none, m')

drop-Turned :
    (m m' : Manager) (s s' : Stream)
    → m.bulk_operation ≡ s'.operation
    → SameBulk m m'
    → Turned m s (drop_stream s' m')
unfolding drop_stream
drop-Turned m m' s s' e b =
    let f = release-Free m m' s'.operation b e in ended f.free (omega (arith, f.downloads)) f.max

count-Turned :
    (m : Manager) (s s' : Stream) (p : Option SendError × Manager)
    → m.bulk_operation ≡ s'.operation
    → SameBulk m p.1
    → Turned m s (count_download s' p)
unfolding count_download drop_stream
count-Turned m s s' (some e, m') h b = drop-Turned m m' s s' h b
count-Turned m s s' (none, m') h b =
    let counted = record m' {
      downloads = (m'.downloads + 1) % 2 ^ 32;
      completed = m'.completed ++ s'.total ∷ [];
    } in
    let f = release-Free counted counted s'.operation (same_bulk counted) (b.operation ∙ h) in
    ended f.free (omega (arith, f.downloads, b.downloads)) (f.max ∙ b.max)

end-Turned :
    (m m' : Manager) (s s' : Stream) (end : ReadEnd) (accepted : Bool)
    → s'.operation ≡ s.operation
    → m.bulk_operation ≡ s'.operation
    → SameBulk m m'
    → Turned m s (end_turn end accepted s' m')
unfolding end_turn
end-Turned m m' s s' more accepted o h b = stays b o
end-Turned m m' s s' eof accepted o h b =
    count-Turned m s s'
      (hand_over accepted (text (chunk_end s'.request_id s'.operation s'.total)) m') h
      (chain b (hand_over-SameBulk accepted _ m'))
end-Turned m m' s s' (failed e) accepted o h b =
    drop-Turned m _ s s' h
      (chain b (error-SameBulk s'.operation s'.request_id (concat "transfer failed: " e) m'))

after_chunk-Turned :
    (m : Manager) (s s' : Stream) (end : ReadEnd) (accepted : Bool) (p : Option SendError × Manager)
    → s'.operation ≡ s.operation
    → m.bulk_operation ≡ s'.operation
    → SameBulk m p.1
    → Turned m s (after_chunk end accepted s' p)
unfolding after_chunk
after_chunk-Turned m s s' end accepted (some e, m') o h b = drop-Turned m m' s s' h b
after_chunk-Turned m s s' end accepted (none, m') o h b = end-Turned m m' s s' end accepted o h b

pub turn_on-Turned :
    (bytes : List ℕ) (r : Read) (s : Stream) (m : Manager)
    → m.bulk_operation ≡ s.operation
    → Turned m s (turn_on bytes r s m)
unfolding turn_on add_total
turn_on-Turned [] r s m h = end-Turned m m s s r.end r.end_accepted refl h (same_bulk m)
turn_on-Turned (b ∷ bs) r s m h =
    after_chunk-Turned m s (add_total (length (b ∷ bs)) s) r.end r.end_accepted _ refl h
      (hand_over-SameBulk r.chunk_accepted _ m)
