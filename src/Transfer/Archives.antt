-- ===== src/Transfer/Archives.antt =====
-- An album's download always ends with the bulk slot free, and is counted only when every archive was
-- acknowledged.
use share_bridge.Prelude.{
  ℕ, suc, ◌+◌, ◌^◌, ◌%◌, ◌==◌, ◌≡◌, ◌∙◌, ◌⊎◌, refl, ap, inl, inr, true, false, not, ◌||◌, List, [],
  ◌∷◌, String, Option, none, some, if◌then◌else◌, if_elim, subst, sym, Bool, concat, Result, ok,
  err, length, arith, ==_iff,
}
use share_bridge.Transfer.State.{
  Manager, SendError, Sent, next_loop, send_operation_error, hand_over, send_bulk_error_if_active,
  next_operation_id, advance_bulk_operation, same_batch, finish_album_batch, tell,
}
use share_bridge.Transfer.Answers.{
  SameBulk, same_bulk, chain, error-SameBulk, hand_over-SameBulk, Free, release-Free,
}
use share_bridge.Transfer.Albums.{
  Waited, acked, timed_out, cancelled, Piece, Part, send_piece, after_piece, stream_archive,
  check_ack, after_end, after_archive, after_album_header, send_part, complete_album, or_finish,
  album_loop, stream_album_download, album_goroutine,
}

-- The bulk slot, the counts and the sequence of operations are as they were.
pub record Calm (m m' : Manager) : Type 0 where
  pub same : SameBulk m m'
  pub sequence : m'.operation_sequence ≡ m.operation_sequence

calm : (m : Manager) → Calm m m
calm m = record { same = same_bulk m; sequence = refl }

calmly : {m1 m2 m3 : Manager} → Calm m1 m2 → Calm m2 m3 → Calm m1 m3
calmly a b = record { same = chain a.same b.same; sequence = b.sequence ∙ a.sequence }

error-Calm :
    (operation : ℕ) (request_id message : String) (m : Manager)
    → Calm m (send_bulk_error_if_active operation request_id message m)
unfolding send_bulk_error_if_active send_operation_error tell
error-Calm operation request_id message m = record {
  same = error-SameBulk operation request_id message m;
  sequence = ground arith;
}

hand_over-Calm : (accepts : Bool) (x : Sent) (m : Manager) → Calm m (hand_over accepts x m).1
unfolding hand_over tell
hand_over-Calm true x m = record { same = hand_over-SameBulk true x m; sequence = refl }
hand_over-Calm false x m = calm m

send_piece-Calm :
    (p : Piece) (bytes : List ℕ) (operation : ℕ) (m : Manager)
    → Calm m (send_piece p bytes operation m).1
unfolding send_piece
send_piece-Calm p [] operation m = calm m
send_piece-Calm p (b ∷ bs) operation m = hand_over-Calm p.accepted _ m

after_piece-Calm :
    (m : Manager) (rest : Manager → Result String ℕ × Manager) (q : Option SendError × Manager)
    → ((m1 : Manager) → Calm m1 (rest m1).1)
    → Calm m q.1
    → Calm m (after_piece rest q).1
unfolding after_piece
after_piece-Calm m rest (some e, m1) h b = b
after_piece-Calm m rest (none, m1) h b = calmly b (h m1)

stream_archive-Calm :
    (ps : List Piece) (failure : Option String) (operation total : ℕ) (m : Manager)
    → Calm m (stream_archive ps failure operation total m).1
unfolding stream_archive
stream_archive-Calm [] failure operation total m = calm m
stream_archive-Calm (p ∷ ps) failure operation total m =
    after_piece-Calm m _ (send_piece p p.bytes operation m)
      (λ m1. stream_archive-Calm ps failure operation ((total + length p.bytes) % 2 ^ 64) m1)
      (send_piece-Calm p p.bytes operation m)

-- The browser has accepted the archive of this index, sent under this operation.
abbrev pub Acked : ℕ → ℕ → Waited → Type 0
Acked index operation (acked a) =
    (a.accepted ≡ true) × (a.part_index ≡ index) × (a.operation_id ≡ operation)
Acked index operation _ = true ≡ false

-- What an archive's turn left: the slot as it was, and the archive acknowledged if the loop goes on.
pub data Went (m : Manager) (index operation : ℕ) (p : Part) : Option ℕ × Manager → Type 0 where
  stops : {m' : Manager} → Calm m m' → Went m index operation p (none, m')
  goes :
      {m' : Manager} (n : ℕ)
      → Calm m m'
      → Acked index operation p.waited
      → Went m index operation p (some n, m')

check-Went :
    (m m1 : Manager) (index operation total : ℕ) (p : Part) (w : Waited) (request_id : String)
    → p.waited ≡ w
    → Calm m m1
    → Went m index operation p (check_ack w request_id index operation total m1)
unfolding check_ack
check-Went m m1 index operation total p (acked a) request_id e b =
    if_elim (Went m index operation p)
      (not a.accepted || not (a.part_index == index) || not (a.operation_id == operation))
      (λ t. stops b)
      (λ t. goes total b (
        rw e (
          ground (arith, t),
          ground (arith, t, ==_iff a.part_index index),
          ground (arith, t, ==_iff a.operation_id operation),
        )))
check-Went m m1 index operation total p timed_out request_id e b =
    stops (calmly b (error-Calm operation request_id _ m1))
check-Went m m1 index operation total p cancelled request_id e b = stops b

end-Went :
    (m : Manager) (index operation total : ℕ) (p : Part) (request_id : String)
    (q : Option SendError × Manager)
    → Calm m q.1
    → Went m index operation p (after_end p.waited request_id index operation total q)
unfolding after_end
end-Went m index operation total p request_id (some e, m1) b = stops b
end-Went m index operation total p request_id (none, m1) b =
    check-Went m m1 index operation total p p.waited request_id refl b

archive-Went :
    (m : Manager) (index operation : ℕ) (p : Part) (request_id : String)
    (q : Result String ℕ × Manager)
    → Calm m q.1
    → Went m index operation p (after_archive p request_id index operation q)
unfolding after_archive
archive-Went m index operation p request_id (err e, m1) b =
    stops (calmly b (error-Calm operation request_id _ m1))
archive-Went m index operation p request_id (ok total, m1) b =
    end-Went m index operation total p request_id _ (calmly b (hand_over-Calm p.end_accepted _ m1))

header-Went :
    (m : Manager) (index operation : ℕ) (p : Part) (request_id : String)
    (q : Option SendError × Manager)
    → Calm m q.1
    → Went m index operation p (after_album_header p request_id index operation q)
unfolding after_album_header
header-Went m index operation p request_id (some e, m1) b = stops b
header-Went m index operation p request_id (none, m1) b =
    archive-Went m index operation p request_id _
      (calmly b (stream_archive-Calm p.pieces p.failure operation 0 m1))

pub part-Went :
    (p : Part) (request_id : String) (index count operation : ℕ) (m : Manager)
    → Went m index operation p (send_part p request_id index count operation m)
unfolding send_part
part-Went p request_id index count operation m =
    header-Went m index operation p request_id _ (hand_over-Calm p.header_accepted _ m)

-- The operation under which the archive of an index goes, after the given one, and the sequence then.
abbrev pub following : ℕ → ℕ → ℕ → ℕ × ℕ
following index operation sequence =
    if index == 0 then (operation, sequence) else (next_loop 2 sequence, next_loop 2 sequence)

-- Every archive, from the one of this index, was accepted under its own operation: the first goes
-- under the given operation, each later one under the next identifier of the sequence.
abbrev pub AllAcked : ℕ → ℕ → ℕ → List Part → Type 0
AllAcked index operation sequence [] = Unit
AllAcked index operation sequence (p ∷ ps) =
    let next = following index operation sequence in
    Acked (index + 1) next.0 p.waited × AllAcked (suc index) next.0 next.1 ps

-- How an album's download ends.
pub record Ends (n index operation sequence : ℕ) (ps : List Part) (m : Manager) : Type 0 where
  pub free : m.bulk_transfer ≡ false
  pub count :
      (m.downloads ≡ n) ⊎ ((m.downloads ≡ (n + 1) % 2 ^ 32) × AllAcked index operation sequence ps)

pub finish-Free :
    (batch operation : ℕ) (m m' : Manager)
    → SameBulk m m'
    → m.bulk_operation ≡ operation
    → Free m (finish_album_batch batch operation m')
unfolding finish_album_batch
finish-Free batch operation m m' b e =
    release-Free m
      (if same_batch batch m'.album_batch then record m' { album_batch = none } else m') operation
      (if_elim (SameBulk m) (same_batch batch m'.album_batch)
        (λ t. record {
          transfer = b.transfer;
          operation = b.operation;
          downloads = b.downloads;
          max = b.max;
        })
        (λ t. b))
      e

finish-Ends :
    (batch operation index first sequence : ℕ) (ps : List Part) (m m' : Manager)
    → Calm m m'
    → m.bulk_operation ≡ operation
    → Ends m.downloads index first sequence ps (finish_album_batch batch operation m')
finish-Ends batch operation index first sequence ps m m' b e =
    let f = finish-Free batch operation m m' b.same e in
    record { free = f.free; count = inl f.downloads }

-- The operation under which the next archive goes.
pub data Advanced (m : Manager) (index operation : ℕ) : Option ℕ × Manager → Type 0 where
  moved :
      {m' : Manager} (next : ℕ)
      → m'.bulk_transfer ≡ true
      → m'.bulk_operation ≡ next
      → m'.downloads ≡ m.downloads
      → m'.max_downloads ≡ m.max_downloads
      → following index operation m.operation_sequence ≡ (next, m'.operation_sequence)
      → Advanced m index operation (some next, m')

advance-Advanced :
    (index operation : ℕ) (m : Manager)
    → (index == 0) ≡ false
    → m.bulk_transfer ≡ true
    → m.bulk_operation ≡ operation
    → Advanced m index operation (advance_bulk_operation operation m)
unfolding advance_bulk_operation next_operation_id
advance-Advanced index operation m i t e =
    if_elim (Advanced m index operation)
      (not m.bulk_transfer || not (m.bulk_operation == operation))
      (λ b. absurd (ground (arith, b, t, e, ==_iff m.bulk_operation operation)))
      (λ b. moved (next_operation_id m).0 t refl refl refl (rw i refl))

pub first-Advanced :
    (index operation : ℕ) (m : Manager)
    → m.bulk_transfer ≡ true
    → m.bulk_operation ≡ operation
    → Advanced m index operation
        (if index == 0 then (some operation, m) else advance_bulk_operation operation m)
first-Advanced index operation m t e =
    if_elim (Advanced m index operation) (index == 0)
      (λ b. moved operation t e refl refl (rw b refl)) λ b. advance-Advanced index operation m b t e

-- The end after an archive that was acknowledged.
later_end :
    {n k index first sequence next s : ℕ} {p : Part} {ps : List Part} {r : Manager}
    → k ≡ n
    → following index first sequence ≡ (next, s)
    → Acked (index + 1) next p.waited
    → Ends k (suc index) next s ps r
    → Ends n index first sequence (p ∷ ps) r
later_end {index = index} {p = p} {ps = ps} e f a x = record {
  free = x.free;
  count = elim x.count [
    | inl c ↦ inl (c ∙ e)
    | inr (c, all) ↦ inr (
      c ∙ ap (λ k. (k + 1) % 2 ^ 32) e,
      (
        subst (λ (q : ℕ × ℕ). Acked (index + 1) q.0 p.waited) (sym f) a,
        subst (λ (q : ℕ × ℕ). AllAcked (suc index) q.0 q.1 ps) (sym f) all,
      ),
    )
  ];
}

part-Ends :
    (batch operation index n first sequence : ℕ) (p : Part) (ps : List Part)
    (rest : ℕ → Manager → Manager) (m : Manager) (q : Option ℕ × Manager)
    → m.bulk_transfer ≡ true
    → m.bulk_operation ≡ operation
    → m.downloads ≡ n
    → following index first sequence ≡ (operation, m.operation_sequence)
    → ((k : ℕ) (m2 : Manager)
        → m2.bulk_transfer ≡ true
        → m2.bulk_operation ≡ operation
        → Ends m2.downloads (suc index) operation m2.operation_sequence ps (rest k m2))
    → Went m (index + 1) operation p q
    → Ends n index first sequence (p ∷ ps) (or_finish batch operation rest q)
unfolding or_finish
part-Ends batch operation index n first sequence p ps rest m _ t e d f h (stops {m' = m1} b) =
    subst (λ k. Ends k index first sequence (p ∷ ps) (finish_album_batch batch operation m1)) d
      (finish-Ends batch operation index first sequence (p ∷ ps) m m1 b e)
part-Ends batch operation index n first sequence p ps rest m _ t e d f h (goes {m' = m1} k b a) =
    later_end (b.same.downloads ∙ d) (f ∙ ap (λ s. (operation, s)) (sym b.sequence)) a
      (h k m1 (b.same.transfer ∙ t) (b.same.operation ∙ e))

outer-Ends :
    (batch operation index n : ℕ) (ps : List Part) (rest : ℕ → Manager → Manager) (m : Manager)
    (q : Option ℕ × Manager)
    → ((next : ℕ) (m1 : Manager)
        → m1.bulk_transfer ≡ true
        → m1.bulk_operation ≡ next
        → m1.downloads ≡ m.downloads
        → following index operation m.operation_sequence ≡ (next, m1.operation_sequence)
        → Ends n index operation m.operation_sequence ps (rest next m1))
    → Advanced m index operation q
    → Ends n index operation m.operation_sequence ps (or_finish batch operation rest q)
unfolding or_finish
outer-Ends batch operation index n ps rest m _ h (moved {m' = m1} next t e d x f) =
    h next m1 t e d f

loop-Ends :
    (ps : List Part) (batch : ℕ) (request_id : String) (count index operation total : ℕ)
    (m : Manager)
    → m.bulk_transfer ≡ true
    → m.bulk_operation ≡ operation
    → Ends m.downloads index operation m.operation_sequence ps
        (album_loop ps batch request_id count index operation total m)
unfolding album_loop complete_album tell
loop-Ends [] batch request_id count index operation total m t e =
    let done = complete_album count request_id total m in
    let f = finish-Free batch operation done done (same_bulk done) e in
    record { free = f.free; count = inr (f.downloads, tt) }
loop-Ends (p ∷ ps) batch request_id count index operation total m t e =
    outer-Ends batch operation index m.downloads (p ∷ ps) _ m _
      (λ next m1 t1 e1 d1 f1.
        part-Ends batch next index m.downloads operation m.operation_sequence p ps _ m1 _ t1 e1 d1
          f1
          (λ k m2 t2 e2.
            loop-Ends ps batch request_id count (suc index) next ((total + k) % 2 ^ 64) m2 t2 e2)
          (part-Went p request_id (index + 1) count next m1))
      (first-Advanced index operation m t e)

stream-Ends :
    (ps : List Part) (batch : ℕ) (request_id : String) (operation : ℕ) (m : Manager)
    → m.bulk_transfer ≡ true
    → m.bulk_operation ≡ operation
    → Ends m.downloads 0 operation m.operation_sequence ps
        (stream_album_download ps batch request_id operation m)
unfolding stream_album_download
stream-Ends [] batch request_id operation m t e =
    finish-Ends batch operation 0 operation m.operation_sequence [] m _
      (error-Calm operation request_id "album contains no downloadable assets" m) e
stream-Ends (p ∷ ps) batch request_id operation m t e =
    loop-Ends (p ∷ ps) batch request_id (length (p ∷ ps)) 0 operation 0 m t e

-- What finishes without a download counts none.
uncounted :
    (batch operation : ℕ) (request_id message : String) (m : Manager)
    → m.bulk_operation ≡ operation
    → (finish_album_batch batch operation
        (send_bulk_error_if_active operation request_id message m)).downloads
      ≡ m.downloads
uncounted batch operation request_id message m e =
    (finish-Free batch operation m _ (error-SameBulk operation request_id message m) e).downloads

abbrev pub archives_of : Result String (List Part) → List Part
archives_of (err e) = []
archives_of (ok ps) = ps

-- The goroutine of an album's download, which holds the bulk slot and has it to itself, leaves it free
-- however the backend's answer, its reads, its sends and its waits end, the failure of the backend
-- included. It counts a download, if at all one, only when the browser has accepted every archive by
-- its index and its operation identifier, the first under the operation of the request and each later
-- one under the next of the sequence; and none where the backend fails or the album is empty.
pub album-Ends :
    (r : Result String (List Part)) (batch : ℕ) (request_id : String) (operation : ℕ) (m : Manager)
    → m.bulk_transfer ≡ true
    → m.bulk_operation ≡ operation
    → let t = album_goroutine r batch request_id operation m in
      Ends m.downloads 0 operation m.operation_sequence (archives_of r) t
      × (archives_of r ≡ [] → t.downloads ≡ m.downloads)
unfolding album_goroutine stream_album_download
album-Ends (err e') batch request_id operation m t e = (
  finish-Ends batch operation 0 operation m.operation_sequence [] m _
      (error-Calm operation request_id (concat "album download unavailable: " e') m) e,
  λ x. uncounted batch operation request_id (concat "album download unavailable: " e') m e,
)
album-Ends (ok []) batch request_id operation m t e = (
  stream-Ends [] batch request_id operation m t e,
  λ x. uncounted batch operation request_id "album contains no downloadable assets" m e,
)
album-Ends (ok (p ∷ ps)) batch request_id operation m t e =
    (stream-Ends (p ∷ ps) batch request_id operation m t e, λ x. absurd (cc x))
