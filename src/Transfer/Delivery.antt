-- ===== src/Transfer/Delivery.antt =====
-- What a download's stream sends is the file, in frames of its operation.
use share_bridge.Prelude.{
  ℕ, ◌+◌, ◌^◌, ◌%◌, ◌<◌, ◌==◌, ◌≡◌, ◌≢◌, ◌&&◌, false, Option, sym, subst, refl, ap, ◌∙◌, true, List,
  [], ◌∷◌, ◌++◌, none, some, length, if◌then◌else◌, Result, ok, err, arith, length-append,
  append_assoc, ==_iff,
}
use share_bridge.Lane.{bulk}
use share_bridge.Transfer.Frames.{encode_chunk_frame, decode_chunk_frame, ChunkError}
use share_bridge.Transfer.Envelope.{decode-encode}
use share_bridge.Transfer.State.{
  Manager, chunk_end, Sent, text, binary, tell, hand_over, release_bulk,
}
use share_bridge.Transfer.Downloads.{Stream}
use share_bridge.Transfer.Streams.{
  Read, more, eof, turn, turn_on, after_chunk, end_turn, count_download, drop_stream, add_total,
  stream_on, stream_file,
}

-- The reads of a pipe that gives these pieces, then io.EOF, with every send accepted.
abbrev pub reads_of : List (List ℕ) → List Read
reads_of [] = record { bytes = []; end = eof; chunk_accepted = true; end_accepted = true } ∷ []
reads_of (b ∷ bs) =
    record { bytes = b; end = more; chunk_accepted = true; end_accepted = true } ∷ reads_of bs

abbrev pub join : List (List ℕ) → List ℕ
join [] = []
join (b ∷ bs) = b ++ join bs

-- The frames of the pieces: an empty piece has none.
abbrev pub frames : ℕ → List (List ℕ) → List Sent
frames operation [] = []
frames operation ([] ∷ bs) = frames operation bs
frames operation ((x ∷ xs) ∷ bs) =
    binary bulk (encode_chunk_frame operation 0 (x ∷ xs)) ∷ frames operation bs

-- The browser's view: the payloads of the bulk frames that decode to the operation and to generation
-- 0, put together.
abbrev pub payload_for : ℕ → Result ChunkError (ℕ × ℕ × List ℕ) → List ℕ
payload_for operation (err e) = []
payload_for operation (ok (o, generation, payload)) =
    if o == operation && generation == 0 then payload else []

abbrev pub received : ℕ → List Sent → List ℕ
received operation [] = []
received operation (text t ∷ xs) = received operation xs
received operation (binary bulk frame ∷ xs) =
    payload_for operation (decode_chunk_frame frame) ++ received operation xs
received operation (binary _ frame ∷ xs) = received operation xs

received-frames :
    (operation : ℕ) (bs : List (List ℕ)) → received operation (frames operation bs) ≡ join bs
received-frames operation [] = refl
received-frames operation ([] ∷ bs) = received-frames operation bs
received-frames operation ((x ∷ xs) ∷ bs) =
    rw
      (
        decode-encode operation 0 (x ∷ xs),
        (==_iff operation operation).1 refl,
        received-frames operation bs,
      )
      refl

abbrev total_after : ℕ → List (List ℕ) → ℕ
total_after n [] = n
total_after n ([] ∷ bs) = total_after n bs
total_after n ((x ∷ xs) ∷ bs) = total_after ((n + length (x ∷ xs)) % 2 ^ 64) bs

total_after_lem :
    (n : ℕ) (bs : List (List ℕ)) → n < 2 ^ 64 → total_after n bs ≡ (n + length (join bs)) % 2 ^ 64
total_after_lem n [] h = omega arith
total_after_lem n ([] ∷ bs) h = total_after_lem n bs h
total_after_lem n ((x ∷ xs) ∷ bs) h = omega (
  arith,
  length-append xs (join bs),
  total_after_lem ((n + length (x ∷ xs)) % 2 ^ 64) bs (omega arith),
)

-- The manager when a stream has ended well, as its last turn leaves it.
abbrev delivered : Stream → ℕ → List Sent → Manager → Manager
delivered s total chunks m = release_bulk s.operation (record m {
  downloads = (m.downloads + 1) % 2 ^ 32;
  completed = m.completed ++ total ∷ [];
  sent = m.sent ++ (chunks ++ text (chunk_end s.request_id s.operation total) ∷ []);
})

streams :
    (bs : List (List ℕ)) (s : Stream) (m : Manager)
    → stream_on (reads_of bs) (some s, m)
      ≡ (none, delivered s (total_after s.total bs) (frames s.operation bs) m)
unfolding stream_on turn turn_on after_chunk end_turn count_download drop_stream add_total hand_over
    tell
streams [] s m = refl
streams ([] ∷ bs) s m = streams bs s m
streams ((x ∷ xs) ∷ bs) s m =
    let chunk = binary bulk (encode_chunk_frame s.operation 0 (x ∷ xs)) in
    streams bs (add_total (length (x ∷ xs)) s) (tell chunk m)
    ∙ ap
        (λ l. (
          none,
          release_bulk s.operation (record m {
            downloads = (m.downloads + 1) % 2 ^ 32;
            completed = m.completed ++ total_after ((s.total + length (x ∷ xs)) % 2 ^ 64) bs ∷ [];
            sent = l;
          }),
        ))
        (append_assoc m.sent (chunk ∷ []) (
          frames s.operation bs
          ++ text (
              chunk_end s.request_id s.operation
                (total_after ((s.total + length (x ∷ xs)) % 2 ^ 64) bs))
            ∷ []))

-- What a stream that ends well leaves: what it sent, the download counted with its bytes, and the bulk
-- slot free where the stream still held it, and as it was otherwise.
pub record Delivered (s : Stream) (total : ℕ) (chunks : List Sent) (m m' : Manager) : Type 0 where
  pub sent : m'.sent ≡ m.sent ++ (chunks ++ text (chunk_end s.request_id s.operation total) ∷ [])
  pub downloads : m'.downloads ≡ (m.downloads + 1) % 2 ^ 32
  pub completed : m'.completed ≡ m.completed ++ total ∷ []
  pub released :
      m.bulk_operation ≡ s.operation → (m'.bulk_transfer ≡ false) × (m'.bulk_operation ≡ 0)
  pub kept :
      m.bulk_operation ≢ s.operation
      → (m'.bulk_transfer ≡ m.bulk_transfer) × (m'.bulk_operation ≡ m.bulk_operation)

delivered-Delivered :
    (s : Stream) (total : ℕ) (chunks : List Sent) (m : Manager)
    → Delivered s total chunks m (delivered s total chunks m)
unfolding release_bulk
delivered-Delivered s total chunks m =
    let same = ==_iff m.bulk_operation s.operation in
    record {
      sent = ground arith;
      downloads = ground arith;
      completed = ground arith;
      released = λ e. rw (same.1 e) (refl, refl);
      kept = λ n. (ground (arith, same), ground (arith, same));
    }

-- streamFile, and streamAsset, when every read and every send succeeds: the goroutine ends, it has sent
-- bulk frames that decode to the operation and generation 0 and whose payloads are the file, then
-- chunk_end with the number of the file's bytes; the download is counted, and the bulk slot is free if
-- the stream still held it, and as it was otherwise.
pub stream_file-Delivers :
    (bs : List (List ℕ)) (s : Stream) (m : Manager)
    → s.total ≡ 0
    → let total = length (join bs) % 2 ^ 64 in
      let end = stream_file (reads_of bs) s m in
      (end.0 ≡ none)
      × (chunks : List Sent) × Delivered s total chunks m end.1
      × (received s.operation chunks ≡ join bs)
unfolding stream_file
stream_file-Delivers bs s m h =
    let e : total_after s.total bs ≡ length (join bs) % 2 ^ 64 =
      omega (arith, total_after_lem s.total bs (omega arith)) in
    let chunks = frames s.operation bs in
    let total = length (join bs) % 2 ^ 64 in
    let q : stream_on (reads_of bs) (some s, m) ≡ (none, delivered s total chunks m) =
      streams bs s m ∙ rw e refl in
    (
      ap (λ (p : Option Stream × Manager). p.0) q,
      chunks,
      subst (λ (p : Option Stream × Manager). Delivered s total chunks m p.1) (sym q)
          (delivered-Delivered s total chunks m),
      received-frames s.operation bs,
    )
