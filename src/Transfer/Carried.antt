-- ===== src/Transfer/Carried.antt =====
-- What every section under a lock, and every run of them, keeps.
use share_bridge.Prelude.{
  ℕ, suc, ◌+◌, ◌≤◌, ◌<◌, ◌^◌, ◌==◌, ◌≡◌, inl, refl, Bool, not, ◌||◌, List, [], ◌∷◌, String, Option,
  length, arith, leb, ◌=?◌, string_key, if_elim,
}
use share_bridge.Lane.{interactive_media}
use share_bridge.Transfer.State.{
  Manager, Message, error, text, binary, SendError, next_loop, next_operation_id, acquire_bulk,
  release_bulk, send_error, advance_bulk_operation, cancel_media, begin_media, begin_media_if_newer,
  finish_media, is_cancelled, send_interactive_media, send_media_control_if_current,
  send_media_error_if_active, send_bulk_error_if_active,
}
use share_bridge.Transfer.Sections.{
  Section, step, run, Quiet, still, tell-Quiet, hand_over-Quiet, next_loop_lem,
  send_operation_error-Quiet, Begun, Replaced, Quiet-Begun, Quiet-Replaced, context_keeps, held,
  begin-Replaced, begin-bounded, finish-Replaced, finish-Begun, Replaced-Begun, acquires, releases,
  advances, finishes, begins, seeks, sends_media, sends_control, media_error, bulk_error,
}

module _ (m : Manager) (room : suc m.operation_sequence < 2 ^ 64) where
  next-Quiet :
      (f : Manager)
      → f.operation_sequence ≡ next_loop 2 m.operation_sequence
      → f.media_operation ≡ m.media_operation
      → f.media_cancel ≡ m.media_cancel
      → f.cancelled ≡ m.cancelled
      → Quiet m f
  next-Quiet f e x y z =
      let n = next_loop_lem m.operation_sequence room in
      record {
        grows = omega (arith, e, n);
        bounded = omega (arith, e, n);
        media = x;
        cancel = y;
        cancelled = z;
      }

  acquire-Quiet : (request_id : String) → Quiet m (acquire_bulk request_id m).1
  unfolding acquire_bulk send_error next_operation_id
  acquire-Quiet request_id =
      if_elim (λ (p : Option ℕ × Manager). Quiet m p.1) m.bulk_transfer
        (λ b. tell-Quiet (text (error "bulk" request_id "transfer in progress")) m)
        (λ b. next-Quiet _ refl refl refl refl)

  release-Quiet : (operation : ℕ) → Quiet m (release_bulk operation m)
  unfolding release_bulk
  release-Quiet operation =
      if_elim (Quiet m) (m.bulk_operation == operation)
        (λ b. record {
          grows = omega arith;
          bounded = omega arith;
          media = refl;
          cancel = refl;
          cancelled = refl;
        })
        (λ b. still m)

  advance-Quiet : (operation : ℕ) → Quiet m (advance_bulk_operation operation m).1
  unfolding advance_bulk_operation next_operation_id
  advance-Quiet operation =
      if_elim (λ (p : Option ℕ × Manager). Quiet m p.1)
        (not m.bulk_transfer || not (m.bulk_operation == operation)) (λ b. still m)
        (λ b. next-Quiet _ refl refl refl refl)

  media-Quiet :
      (accepts : Bool) (operation : ℕ) (bytes : List ℕ)
      → Quiet m (send_interactive_media accepts operation bytes m).1
  unfolding send_interactive_media
  media-Quiet accepts operation bytes =
      if_elim (λ (p : Option SendError × Manager). Quiet m p.1) (is_cancelled operation m.cancelled)
        (λ b. still m)
        λ b.
          if_elim (λ (p : Option SendError × Manager). Quiet m p.1)
            (not (m.media_operation == operation)) (λ b. still m)
            (λ b. hand_over-Quiet accepts (binary interactive_media bytes) m)

  control-Quiet :
      (accepts : Bool) (operation : ℕ) (message : Message)
      → Quiet m (send_media_control_if_current accepts operation message m).1
  unfolding send_media_control_if_current
  control-Quiet accepts operation message =
      if_elim (λ (p : Option SendError × Manager). Quiet m p.1)
        (not (m.media_operation == operation)) (λ b. still m)
        (λ b. hand_over-Quiet accepts (text message) m)

module _ {κ} (P : Manager → Type κ) (m : Manager) (room : suc m.operation_sequence < 2 ^ 64) where
  -- A property that the quiet sections, a new media operation and a finished one each have.
  pub step_elim :
      ((m' : Manager) → Quiet m m' → P m')
      → ((id quality : String) (generation : ℕ) → P (begin_media id quality generation m).1)
      → ((operation : ℕ) → P (finish_media operation m))
      → (x : Section) → P (step x m)
  unfolding step begin_media_if_newer send_media_error_if_active send_bulk_error_if_active
  step_elim quiet begin finish (acquires request_id) = quiet _ (acquire-Quiet m room request_id)
  step_elim quiet begin finish (releases operation) = quiet _ (release-Quiet m room operation)
  step_elim quiet begin finish (advances operation) = quiet _ (advance-Quiet m room operation)
  step_elim quiet begin finish (begins id quality generation) = begin id quality generation
  step_elim quiet begin finish (finishes operation) = finish operation
  step_elim quiet begin finish (seeks parent id quality generation) =
      if_elim (λ (p : Option ℕ × Manager). P p.1)
        (not (m.media_operation == parent)
          || not (m.media_id =? id)
          || not (m.media_quality =? "video")
          || not (quality =? "video")
          || leb generation m.current_generation)
        (λ b. quiet m (still m)) (λ b. begin id quality generation)
  step_elim quiet begin finish (sends_media accepts operation bytes) =
      quiet _ (media-Quiet m room accepts operation bytes)
  step_elim quiet begin finish (sends_control accepts operation message) =
      quiet _ (control-Quiet m room accepts operation message)
  step_elim quiet begin finish (media_error operation request_id message) =
      if_elim P (not (m.media_operation == operation)) (λ b. quiet m (still m))
        (λ b. quiet _ (send_operation_error-Quiet "media" request_id operation message m))
  step_elim quiet begin finish (bulk_error operation request_id message) =
      if_elim P (not (m.bulk_operation == operation) || not m.bulk_transfer)
        (λ b. quiet m (still m))
        (λ b. quiet _ (send_operation_error-Quiet "bulk" request_id operation message m))

finish_keeps :
    (operation : ℕ) (m : Manager)
    → (finish_media operation m).operation_sequence ≡ m.operation_sequence
unfolding finish_media cancel_media
finish_keeps operation m =
    if_elim (λ (f : Manager). f.operation_sequence ≡ m.operation_sequence)
      (m.media_operation == operation) (λ b. let (_, q) = context_keeps m.media_cancel m in q)
      (λ b. refl)

module _ (operation : ℕ) where
  step-Begun :
      (x : Section) (m : Manager)
      → suc m.operation_sequence < 2 ^ 64
      → Begun operation m
      → Begun operation (step x m)
  step-Begun x m room b =
      step_elim (Begun operation) m room (λ m' q. Quiet-Begun operation m m' q b)
        (λ id quality generation.
          Replaced-Begun (begin-Replaced operation id quality generation m room b.old (held b)))
        (λ other. finish-Begun operation other m b) x

  step-Replaced :
      (x : Section) (m : Manager)
      → suc m.operation_sequence < 2 ^ 64
      → Replaced operation m
      → Replaced operation (step x m)
  step-Replaced x m room b =
      step_elim (Replaced operation) m room (λ m' q. Quiet-Replaced operation m m' q b)
        (λ id quality generation.
          begin-Replaced operation id quality generation m room b.old (inl b.dead))
        (λ other. finish-Replaced operation other m b) x

step-bounded :
    (x : Section) (m : Manager)
    → suc m.operation_sequence < 2 ^ 64
    → (step x m).operation_sequence ≤ suc m.operation_sequence
step-bounded x m room =
    step_elim (λ (f : Manager). f.operation_sequence ≤ suc m.operation_sequence) m room
      (λ m' q. q.bounded)
      (λ id quality generation. omega (arith, begin-bounded id quality generation m room))
      (λ other. omega (arith, finish_keeps other m)) x

pub run-Begun :
    (operation : ℕ) (xs : List Section) (m : Manager)
    → m.operation_sequence + length xs < 2 ^ 64
    → Begun operation m
    → Begun operation (run xs m)
      × ((run xs m).operation_sequence ≤ m.operation_sequence + length xs)
unfolding run
run-Begun operation [] m room b = (b, omega arith)
run-Begun operation (x ∷ xs) m room b =
    let small : suc m.operation_sequence < 2 ^ 64 = omega arith in
    let bound = step-bounded x m small in
    let (r, s) =
      run-Begun operation xs (step x m) (omega (arith, bound)) (step-Begun operation x m small b) in
    (r, omega (arith, s, bound))

pub run-Replaced :
    (operation : ℕ) (xs : List Section) (m : Manager)
    → m.operation_sequence + length xs < 2 ^ 64
    → Replaced operation m
    → Replaced operation (run xs m)
unfolding run
run-Replaced operation [] m room b = b
run-Replaced operation (x ∷ xs) m room b =
    let small : suc m.operation_sequence < 2 ^ 64 = omega arith in
    let bound = step-bounded x m small in
    run-Replaced operation xs (step x m) (omega (arith, bound))
      (step-Replaced operation x m small b)
