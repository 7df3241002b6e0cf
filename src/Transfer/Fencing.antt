-- ===== src/Transfer/Fencing.antt =====
-- A media stream whose operation has been replaced.
use share_bridge.Prelude.{
  ap, sym, if◌then◌else◌, ◌||◌, leb, ℕ, suc, ◌+◌, ◌<◌, ◌^◌, ◌==◌, ◌≡◌, ◌≢◌, refl, Bool, true, false,
  List, [], ◌∷◌, String, Option, none, some, length, arith, ==_iff,
}
use share_bridge.Transfer.State.{
  next_loop, begin_media_if_newer, Manager, begin_media, finish_media,
}
use share_bridge.Transfer.Streams.{Read, ReadEnd, more, eof, failed}
use share_bridge.Transfer.Previews.{Preview}
use share_bridge.Transfer.Playback.{
  check_preview, read_preview, read_on, end_read, send_end, send_failure, stop_preview,
}
use share_bridge.Transfer.Carried.{run-Begun, run-Replaced}
use share_bridge.Transfer.Sections.{
  Section, run, Begun, Replaced, begin-Replaced, begin-Begun, begin-bounded, held,
}

differ : (m n : ℕ) → m ≢ n → (m == n) ≡ false
differ m n h = ground (arith, ==_iff m n)

module _ (s : Preview) (m : Manager) (r : Replaced s.operation m) where
  finish_same : finish_media s.operation m ≡ m
  unfolding finish_media
  finish_same = rw (differ m.media_operation s.operation r.other) refl

  end_same : (end : ReadEnd) (accepted : Bool) → (end_read end accepted s m).1 ≡ m
  unfolding end_read stop_preview send_end send_failure
  end_same more accepted = refl
  end_same eof accepted = rw (r.dead) finish_same
  end_same (failed e) accepted = rw (r.dead) finish_same

  read_same : (bytes : List ℕ) (x : Read) → (read_on bytes x s m).1 ≡ m
  unfolding read_on stop_preview
  read_same [] x = end_same x.end x.end_accepted
  read_same (b ∷ bs) x = rw (r.dead) finish_same

-- A media operation begins, the sections under the manager's locks go on in any order, another media
-- operation begins, and the sections go on again, with fewer than 2^64 numbers given out in all. From
-- then on a read of the first operation's stream, whatever it gives, sends nothing and changes nothing,
-- and the test before the next read ends the stream without touching the operation that replaced it.
pub replaced-Silent :
    (m : Manager) (id quality : String) (generation : ℕ) (xs : List Section) (id' quality' : String)
    (generation' : ℕ) (ys : List Section) (s : Preview)
    → m.operation_sequence + length xs + length ys + 2 < 2 ^ 64
    → s.operation ≡ (begin_media id quality generation m).0
    → let during = run xs (begin_media id quality generation m).1 in
      let after = run ys (begin_media id' quality' generation' during).1 in
      ((x : Read) → (read_preview x s after).1 ≡ after) × (check_preview s after ≡ (none, after))
unfolding read_preview check_preview stop_preview
replaced-Silent m id quality generation xs id' quality' generation' ys s room e =
    let start = begin-bounded id quality generation m (omega arith) in
    let began = (begin_media id quality generation m).1 in
    let b : Begun s.operation began = rw e (begin-Begun id quality generation m) in
    let (d, bound) = run-Begun s.operation xs began (omega (arith, start)) b in
    let during = run xs began in
    let again = begin-bounded id' quality' generation' during (omega (arith, bound, start)) in
    let r =
      run-Replaced s.operation ys (begin_media id' quality' generation' during).1
        (omega (arith, again, bound, start))
        (begin-Replaced s.operation id' quality' generation' during (omega (arith, bound, start))
          d.old (held d)) in
    let after = run ys (begin_media id' quality' generation' during).1 in
    ((λ x. read_same s after r x.bytes x), rw (r.dead, finish_same s after r) refl)

-- Below the end of the uint64 and above it, two turns of the loop of nextOperationID are enough: more
-- fuel changes nothing, and the number found is a uint64 other than zero.
pub next_loop_enough :
    (fuel sequence : ℕ)
    → (next_loop (suc (suc fuel)) sequence ≡ next_loop 2 sequence)
      × (next_loop 2 sequence ≢ 0)
      × (next_loop 2 sequence < 2 ^ 64)
unfolding next_loop
next_loop_enough fuel sequence = (ground arith, ground arith, ground arith)

if_some :
    (b : Bool) (a : ℕ) (m f : Manager) {operation : ℕ} {m' : Manager}
    → ◌≡◌ {A = Option ℕ × Manager} (if b then (none, m) else (some a, f)) (some operation, m')
    → (b ≡ false) × (m' ≡ f)
if_some true a m f e = absurd (cc (ap (λ (p : Option ℕ × Manager). p.0) e))
if_some false a m f e = (refl, sym (ap (λ (p : Option ℕ × Manager). p.1) e))

newer_lem :
    (b : Bool) (current generation : ℕ)
    → (b || leb generation current) ≡ false
    → current < generation
newer_lem b current generation h = ground arith

accepted_lem :
    (m m' : Manager) (parent operation : ℕ) (id : String) (generation : ℕ)
    → begin_media_if_newer parent id "video" generation m ≡ (some operation, m')
    → (m.current_generation < generation) × (m' ≡ (begin_media id "video" generation m).1)
unfolding begin_media_if_newer
accepted_lem m m' parent operation id generation e =
    let (refused, same) =
      if_some _ (begin_media id "video" generation m).0 m (begin_media id "video" generation m).1
        e in
    (newer_lem _ m.current_generation generation refused, same)

-- A seek that is accepted has a newer generation than the stream it replaces, and names a video; whatever
-- the sections under the locks do after it, with numbers left to give out, no seek from the same
-- operation is accepted again.
pub seek_once :
    (m m' : Manager) (parent operation : ℕ) (id : String) (generation : ℕ) (ys : List Section)
    → Begun parent m
    → m.operation_sequence + length ys + 1 < 2 ^ 64
    → begin_media_if_newer parent id "video" generation m ≡ (some operation, m')
    → (m.current_generation < generation)
      × ((id' : String) (generation' : ℕ)
          → begin_media_if_newer parent id' "video" generation' (run ys m') ≡ (none, run ys m'))
unfolding begin_media_if_newer
seek_once m m' parent operation id generation ys b room e =
    let (newer, same) = accepted_lem m m' parent operation id generation e in
    let small : suc m.operation_sequence < 2 ^ 64 = omega arith in
    let r : Replaced parent m' =
      rw same (begin-Replaced parent id "video" generation m small b.old (held b)) in
    let start : m'.operation_sequence ≡ suc m.operation_sequence =
      rw same (begin-bounded id "video" generation m small) in
    let after = run-Replaced parent ys m' (omega (arith, start)) r in
    (newer, λ id' generation'. rw (differ (run ys m').media_operation parent after.other) refl)
