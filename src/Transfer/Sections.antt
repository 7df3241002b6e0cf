-- ===== src/Transfer/Sections.antt =====
-- The sections under the locks of the manager, in any order, and what they do to a media operation.
use share_bridge.Prelude.{
  ℕ, suc, ◌≤◌, ◌<◌, ◌^◌, ◌==◌, ◌≡◌, ◌≢◌, ◌∙◌, ◌⊎◌, sym, inl, inr, refl, Bool, true, false, List, [],
  ◌∷◌, String, Option, none, some, arith, string_key, if_elim,
}
use share_bridge.Transfer.State.{
  Manager, Message, operation_error, Sent, text, tell, send_operation_error, next_loop,
  next_operation_id, acquire_bulk, release_bulk, advance_bulk_operation, cancel_context,
  cancel_media, begin_media, begin_media_if_newer, finish_media, is_cancelled, hand_over,
  send_interactive_media, send_media_control_if_current, send_media_error_if_active,
  send_bulk_error_if_active,
}

pub data Section : Type 0 where
  acquires : String → Section
  releases advances finishes : ℕ → Section
  begins : String → String → ℕ → Section
  seeks : ℕ → String → String → ℕ → Section
  sends_media : Bool → ℕ → List ℕ → Section
  sends_control : Bool → ℕ → Message → Section
  media_error bulk_error : ℕ → String → String → Section

unfoldable pub step : Section → Manager → Manager
unfolding acquire_bulk release_bulk advance_bulk_operation begin_media begin_media_if_newer
    finish_media send_interactive_media send_media_control_if_current send_media_error_if_active
    send_bulk_error_if_active
step (acquires request_id) m = (acquire_bulk request_id m).1
step (releases operation) m = release_bulk operation m
step (advances operation) m = (advance_bulk_operation operation m).1
step (begins id quality generation) m = (begin_media id quality generation m).1
step (seeks parent id quality generation) m =
    (begin_media_if_newer parent id quality generation m).1
step (finishes operation) m = finish_media operation m
step (sends_media accepts operation bytes) m = (send_interactive_media accepts operation bytes m).1
step (sends_control accepts operation message) m =
    (send_media_control_if_current accepts operation message m).1
step (media_error operation request_id message) m =
    send_media_error_if_active operation request_id message m
step (bulk_error operation request_id message) m =
    send_bulk_error_if_active operation request_id message m

unfoldable pub run : List Section → Manager → Manager
unfolding step
run [] m = m
run (x ∷ xs) m = run xs (step x m)

-- The media operation and its context are as they were; at most one number has been given out.
pub record Quiet (m m' : Manager) : Type 0 where
  pub grows : m.operation_sequence ≤ m'.operation_sequence
  pub bounded : m'.operation_sequence ≤ suc m.operation_sequence
  pub media : m'.media_operation ≡ m.media_operation
  pub cancel : m'.media_cancel ≡ m.media_cancel
  pub cancelled : m'.cancelled ≡ m.cancelled

pub still : (m : Manager) → Quiet m m
still m = record {
  grows = omega arith;
  bounded = omega arith;
  media = refl;
  cancel = refl;
  cancelled = refl;
}

pub tell-Quiet : (x : Sent) (m : Manager) → Quiet m (tell x m)
unfolding tell
tell-Quiet x m = record {
  grows = omega arith;
  bounded = omega arith;
  media = refl;
  cancel = refl;
  cancelled = refl;
}

pub hand_over-Quiet : (accepts : Bool) (x : Sent) (m : Manager) → Quiet m (hand_over accepts x m).1
unfolding hand_over
hand_over-Quiet true x m = tell-Quiet x m
hand_over-Quiet false x m = still m

-- Below the end of the uint64 the loop gives the next number.
pub next_loop_lem : (n : ℕ) → suc n < 2 ^ 64 → next_loop 2 n ≡ suc n
unfolding next_loop
next_loop_lem n h = ground arith

pub send_operation_error-Quiet :
    (scope request_id : String) (operation : ℕ) (message : String) (m : Manager)
    → Quiet m (send_operation_error scope request_id operation message m)
unfolding send_operation_error
send_operation_error-Quiet scope request_id operation message m =
    if_elim (Quiet m) (operation == 0) (λ b. still m)
      (λ b. tell-Quiet (text (operation_error scope request_id operation message)) m)

-- An operation that began: it is cancelled, or it is the one whose context the manager holds.
pub record Begun (operation : ℕ) (m : Manager) : Type 0 where
  pub old : operation ≤ m.operation_sequence
  pub ends :
      (is_cancelled operation m.cancelled ≡ true)
      ⊎ ((m.media_operation ≡ operation) × (m.media_cancel ≡ some operation))

-- An operation that another has replaced.
pub record Replaced (operation : ℕ) (m : Manager) : Type 0 where
  pub old : operation ≤ m.operation_sequence
  pub other : m.media_operation ≢ operation
  pub dead : is_cancelled operation m.cancelled ≡ true

pub Quiet-Begun :
    (operation : ℕ) (m m' : Manager) → Quiet m m' → Begun operation m → Begun operation m'
Quiet-Begun operation m m' q b = record {
  old = omega (arith, q.grows, b.old);
  ends = elim b.ends [
    | inl d ↦ inl (rw q.cancelled d)
    | inr (e, c) ↦ inr (q.media ∙ e, q.cancel ∙ c)
  ];
}

pub Quiet-Replaced :
    (operation : ℕ) (m m' : Manager) → Quiet m m' → Replaced operation m → Replaced operation m'
Quiet-Replaced operation m m' q b = record {
  old = omega (arith, q.grows, b.old);
  other = λ e. b.other (sym q.media ∙ e);
  dead = rw q.cancelled b.dead;
}

-- Cancelling the context that the manager holds.
cancel_dead :
    (operation : ℕ) (ctx : Option ℕ) (m : Manager)
    → (is_cancelled operation m.cancelled ≡ true) ⊎ (ctx ≡ some operation)
    → is_cancelled operation (cancel_context ctx m).cancelled ≡ true
unfolding cancel_context is_cancelled
cancel_dead operation none m (inl d) = d
cancel_dead operation none m (inr e) = absurd (cc e)
cancel_dead operation (some ctx) m h = ground (arith, h)

pub context_keeps :
    (ctx : Option ℕ) (m : Manager)
    → ((cancel_context ctx m).media_operation ≡ m.media_operation)
      × ((cancel_context ctx m).operation_sequence ≡ m.operation_sequence)
unfolding cancel_context
context_keeps none m = (refl, refl)
context_keeps (some ctx) m = (refl, refl)

pub held :
    {operation : ℕ} {m : Manager}
    → Begun operation m
    → (is_cancelled operation m.cancelled ≡ true) ⊎ (m.media_cancel ≡ some operation)
held b = elim b.ends [ inl d ↦ inl d | inr (e, c) ↦ inr c ]

-- A new media operation replaces every earlier one, and has itself begun.
pub begin-Replaced :
    (operation : ℕ) (id quality : String) (generation : ℕ) (m : Manager)
    → suc m.operation_sequence < 2 ^ 64
    → operation ≤ m.operation_sequence
    → (is_cancelled operation m.cancelled ≡ true) ⊎ (m.media_cancel ≡ some operation)
    → Replaced operation (begin_media id quality generation m).1
unfolding begin_media next_operation_id cancel_media
begin-Replaced operation id quality generation m room old h =
    let (_, q) = context_keeps m.media_cancel m in
    let e = next_loop_lem m.operation_sequence room in
    record {
      old = rw (q, e) (omega arith);
      other = rw (q, e) (λ x. absurd (omega arith));
      dead = cancel_dead operation m.media_cancel m h;
    }

pub begin-Begun :
    (id quality : String) (generation : ℕ) (m : Manager)
    → Begun (begin_media id quality generation m).0 (begin_media id quality generation m).1
unfolding begin_media next_operation_id
begin-Begun id quality generation m = record { old = omega arith; ends = inr (refl, refl) }

pub begin-bounded :
    (id quality : String) (generation : ℕ) (m : Manager)
    → suc m.operation_sequence < 2 ^ 64
    → (begin_media id quality generation m).1.operation_sequence ≡ suc m.operation_sequence
unfolding begin_media next_operation_id cancel_media
begin-bounded id quality generation m room =
    let (_, q) = context_keeps m.media_cancel m in
    rw (q, next_loop_lem m.operation_sequence room) refl

pub finish-Replaced :
    (operation other : ℕ) (m : Manager)
    → Replaced operation m
    → Replaced operation (finish_media other m)
unfolding finish_media cancel_media
finish-Replaced operation other m b =
    let (p, q) = context_keeps m.media_cancel m in
    if_elim (Replaced operation) (m.media_operation == other)
      (λ t. record {
        old = rw q b.old;
        other = rw p b.other;
        dead = cancel_dead operation m.media_cancel m (inl b.dead);
      })
      (λ t. b)

pub finish-Begun :
    (operation other : ℕ) (m : Manager) → Begun operation m → Begun operation (finish_media other m)
unfolding finish_media cancel_media
finish-Begun operation other m b =
    let (p, q) = context_keeps m.media_cancel m in
    if_elim (Begun operation) (m.media_operation == other)
      (λ t. record {
        old = rw q b.old;
        ends = inl (cancel_dead operation m.media_cancel m (held b));
      })
      (λ t. b)

pub Replaced-Begun : {operation : ℕ} {m : Manager} → Replaced operation m → Begun operation m
Replaced-Begun r = record { old = r.old; ends = inl r.dead }
