-- ===== src/Daemon/Waiting.antt =====
-- The connection that knocked and proves what the share asks for is let in.
use share_bridge.Prelude.{
  ℕ, ◌+◌, ◌≤◌, ◌≡◌, ◌∙◌, refl, ap, inl, inr, Bool, true, false, ◌&&◌, List, [], ◌∷◌, ◌++◌, String,
  Option, none, some, lookup, delete, ◌=?◌, string_key, ltb, if_elim, arith, Option-cases,
  lookup-insert, lookup-delete, same_refl,
}
use text.Mathlib.TextEquality.{eq_iff}
use share_bridge.Daemon.Sessions.{
  NonceEntry, Session, auth_ok, Daemon, Hmac, notify, keep_nonce, knock_on, handle_knock, submit_to,
  handle_password_submit, revoke_session, revoked, let_in, answer_join, join_to, handle_join, Event,
  knocks, joins, submits, revokes, shares, step, run,
}
use share_bridge.Daemon.Nonces.{lookup-sweep-some, answer_join-nonces, submit-nonces}
use share_bridge.Daemon.Admission.{Proves, unproved, proved_iff}

answer_join-sessions :
    (hmac : Hmac) (now : ℕ) (c code received : String) (session : Session) (o : Option NonceEntry)
    (d : Daemon)
    → (answer_join hmac now c code received session o d).sessions ≡ d.sessions
unfolding answer_join let_in notify
answer_join-sessions hmac now c code received session none d = refl
answer_join-sessions hmac now c code received session (some entry) d =
    let P : Daemon → Type 0 = λ f. f.sessions ≡ d.sessions in
    if_elim P (ltb entry.expires_at now) (λ b. refl)
      λ b.
        if_elim P (session.share_type =? "immich" && session.is_password_protected) (λ b. refl)
          λ b.
            if_elim P (unproved hmac session entry.nonce received) (λ b. refl)
              λ b. if_elim P session.relay_only (λ b. refl) λ b. refl

let_in-sent :
    (hmac : Hmac) (conn_id code : String) (session : Session) (d : Daemon)
    → (let_in hmac conn_id code session d).sent ≡ d.sent ++ auth_ok conn_id code ∷ []
unfolding let_in notify
let_in-sent hmac conn_id code session d =
    if_elim (λ (f : Daemon). f.sent ≡ d.sent ++ auth_ok conn_id code ∷ []) session.relay_only
      (λ b. refl) λ b. refl

let_in-created :
    (hmac : Hmac) (conn_id code : String) (session : Session) (d : Daemon)
    → session.relay_only ≡ false
    → (let_in hmac conn_id code session d).created
      ≡ d.created ++ record { conn_id = conn_id; session_code = code } ∷ []
unfolding let_in notify
let_in-created hmac conn_id code session d h = rw h refl

submit-sessions :
    (valid : Option Bool) (c code : String) (o : Option Session) (d : Daemon)
    → (submit_to valid c code o d).sessions ≡ d.sessions
unfolding submit_to notify
submit-sessions valid c code none d = refl
submit-sessions none c code (some s) d =
    if_elim (λ (f : Daemon). f.sessions ≡ d.sessions) _ (λ b. refl) λ b. refl
submit-sessions (some true) c code (some s) d =
    if_elim (λ (f : Daemon). f.sessions ≡ d.sessions) _ (λ b. refl) λ b. refl
submit-sessions (some false) c code (some s) d =
    if_elim (λ (f : Daemon). f.sessions ≡ d.sessions) _ (λ b. refl) λ b. refl

module _ (conn_id code : String) (limit : ℕ) where
  -- Something that leaves the connection and the session alone, and no later than this.
  abbrev pub LeavesAlone : Event → Type 0
  LeavesAlone (knocks now value c code') = ((c =? conn_id) ≡ false) × (now ≤ limit)
  LeavesAlone (joins now c code' received) = (c =? conn_id) ≡ false
  LeavesAlone (submits valid c code') = Unit
  LeavesAlone (revokes code') = (code' =? code) ≡ false
  LeavesAlone (shares code' session) = (code' =? code) ≡ false

  abbrev pub AllLeaveAlone : List Event → Type 0
  AllLeaveAlone [] = Unit
  AllLeaveAlone (x ∷ xs) = LeavesAlone x × AllLeaveAlone xs

  module _ (hmac : Hmac) (session : Session) (entry : NonceEntry)
      (late : limit ≤ entry.expires_at) where
    record Waits (d : Daemon) : Type 0 where
      found : lookup code d.sessions ≡ some session
      has_nonce : lookup conn_id d.nonces ≡ some entry

    knock-Waits :
        (now : ℕ) (value : Option String) (c : String) (o : Option Session) (d : Daemon)
        → (c =? conn_id) ≡ false
        → now ≤ limit
        → Waits d
        → Waits (knock_on now value c o d)
    unfolding knock_on notify keep_nonce
    knock-Waits now value c none d n h w = w
    knock-Waits now none c (some s) d n h w = w
    knock-Waits now (some value) c (some s) d n h w = record {
      found = w.found;
      has_nonce =
          rw (lookup-insert, n)
            (lookup-sweep-some now conn_id entry d.nonces (omega arith) w.has_nonce);
    }

    join-Waits :
        (now : ℕ) (c code' received : String) (o : Option Session) (d : Daemon)
        → (c =? conn_id) ≡ false
        → Waits d
        → Waits (join_to hmac now c code' received o d)
    unfolding join_to
    join-Waits now c code' received none d n w = w
    join-Waits now c code' received (some s) d n w =
        let taken = record d { nonces = delete c d.nonces } in
        record {
          found =
              rw (answer_join-sessions hmac now c code' received s (lookup c d.nonces) taken)
                w.found;
          has_nonce =
              rw
                (
                  answer_join-nonces hmac conn_id now c code' received s (lookup c d.nonces) taken,
                  lookup-delete,
                  n,
                )
                w.has_nonce;
        }

    revoke-Waits :
        (code' : String) (d : Daemon)
        → (code' =? code) ≡ false
        → Waits d
        → Waits (revoked d (revoke_session code' d))
    unfolding revoke_session revoked notify
    revoke-Waits code' d n w = elim (Option-cases (lookup code' d.sessions)) [
      | inl e ↦ rw (e, revoked) w
      | inr (s, e) ↦
          rw (e, revoked)
            (record { found = rw (lookup-delete, n) w.found; has_nonce = w.has_nonce })
    ]

    step-Waits : (x : Event) (d : Daemon) → LeavesAlone x → Waits d → Waits (step hmac x d)
    unfolding step handle_knock handle_join handle_password_submit
    step-Waits (knocks now value c code') d (n, h) w =
        knock-Waits now value c (lookup code' d.sessions) d n h w
    step-Waits (joins now c code' received) d n w =
        join-Waits now c code' received (lookup code' d.sessions) d n w
    step-Waits (submits valid c code') d n w = record {
      found = rw (submit-sessions valid c code' (lookup code' d.sessions) d) w.found;
      has_nonce =
          rw (submit-nonces hmac conn_id valid c code' (lookup code' d.sessions) d) w.has_nonce;
    }
    step-Waits (revokes code') d n w = revoke-Waits code' d n w
    step-Waits (shares code' s) d n w = record {
      found = rw (lookup-insert, n) w.found;
      has_nonce = w.has_nonce;
    }

    run-Waits : (xs : List Event) (d : Daemon) → AllLeaveAlone xs → Waits d → Waits (run hmac xs d)
    unfolding run
    run-Waits [] d n w = w
    run-Waits (x ∷ xs) d n w = run-Waits xs (step hmac x d) n.1 (step-Waits x d n.0 w)

    -- The join of a connection that waits with a right proof.
    enter :
        (now : ℕ) (received : String) (d : Daemon)
        → now ≤ limit
        → (session.share_type ≡ "immich" → session.is_password_protected ≡ false)
        → Proves hmac session entry.nonce received
        → Waits d
        → handle_join hmac now conn_id code received d
          ≡ let_in hmac conn_id code session (record d { nonces = delete conn_id d.nonces })
    unfolding handle_join join_to answer_join
    enter now received d h unprotected proves w =
        let fresh : ltb entry.expires_at now ≡ false = ground (arith, h, late) in
        let a : (session.share_type =? "immich" && session.is_password_protected) ≡ false =
          ground (arith, unprotected, eq_iff session.share_type "immich") in
        rw (w.found, join_to)
          (rw (w.has_nonce, answer_join)
            (rw (fresh, a, (proved_iff hmac session entry.nonce received).1 proves) refl))

-- A connection knocks at a session of the agent's. Whatever happens after it, as long as the connection
-- itself does nothing, the session is neither revoked nor replaced and the knocks come within a limit
-- of at most 60 seconds, a join within the limit that proves what the share asks for is answered by
-- auth_ok, if the share is no protected Immich share; and a peer is created unless the session is
-- relay-only.
pub knock_then_join :
    (hmac : Hmac) (conn_id code value received : String) (now limit now' : ℕ) (session : Session)
    (d : Daemon) (xs : List Event)
    → lookup code d.sessions ≡ some session
    → limit ≤ now + 60
    → now' ≤ limit
    → AllLeaveAlone conn_id code limit xs
    → ((session.share_type ≡ "immich") → session.is_password_protected ≡ false)
    → Proves hmac session value received
    → let after = run hmac xs (handle_knock now (some value) conn_id code d) in
      let joined = handle_join hmac now' conn_id code received after in
      (joined.sent ≡ after.sent ++ auth_ok conn_id code ∷ [])
      × (session.relay_only ≡ false
          → joined.created
            ≡ after.created ++ record { conn_id = conn_id; session_code = code } ∷ [])
unfolding handle_knock let_in notify keep_nonce
knock_then_join hmac conn_id code value received now limit now' session d xs found late soon alone
      unprotected proves =
    let entry : NonceEntry = record { nonce = value; expires_at = now + 60 } in
    let knocked = handle_knock now (some value) conn_id code d in
    let w0 : Waits conn_id code limit hmac session entry late knocked =
      rw (found, knock_on)
        (record { found = found; has_nonce = rw (lookup-insert, same_refl) refl }) in
    let w = run-Waits conn_id code limit hmac session entry late xs knocked alone w0 in
    let after = run hmac xs knocked in
    let e =
      enter conn_id code limit hmac session entry late now' received after soon unprotected proves
        w in
    (
      ap (λ (f : Daemon). f.sent) e ∙ let_in-sent hmac conn_id code session _,
      λ r. ap (λ (f : Daemon). f.created) e ∙ let_in-created hmac conn_id code session _ r,
    )
