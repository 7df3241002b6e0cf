-- ===== src/Daemon/Admission.antt =====
-- Who is let in by a join, and that the one who should be is.
use share_bridge.Prelude.{
  ℕ, ◌≤◌, ◌≡◌, ◌≢◌, ◌⊎◌, ◌↔◌, refl, inl, inr, Bool, true, false, not, ◌&&◌, List, [], ◌∷◌, ◌++◌,
  String, Option, none, some, lookup, delete, ◌=?◌, string_key, ltb, if_elim, arith, Option-cases,
  ==_iff,
}
use text.Mathlib.TextEquality.{eq_iff}
use share_bridge.Daemon.Sessions.{
  NonceEntry, Session, Notice, auth_ok, auth_failed, Daemon, Hmac, notify, same_bytes,
  proof_matches, verify, answer_join, join_to, handle_join,
}

same_bytes_iff : (xs ys : List ℕ) → (same_bytes xs ys ≡ true) ↔ (xs ≡ ys)
unfolding same_bytes
same_bytes_iff [] [] = (λ h. refl, λ h. refl)
same_bytes_iff [] (b ∷ ys) = ground arith
same_bytes_iff (a ∷ xs) [] = ground arith
same_bytes_iff (a ∷ xs) (b ∷ ys) = ground (arith, same_bytes_iff xs ys, ==_iff a b)

cancel_left {ℓ} : {A : Type ℓ} (xs ys zs : List A) → xs ++ ys ≡ xs ++ zs → ys ≡ zs
cancel_left [] ys zs e = e
cancel_left (x ∷ xs) ys zs e = cancel_left xs ys zs (cc e)

proof_matches_iff :
    (expected : List ℕ) (o : Option (List ℕ))
    → (proof_matches expected o ≡ true) ↔ (o ≡ some expected)
unfolding proof_matches
proof_matches_iff expected none = ground arith
proof_matches_iff expected (some bytes) = ground (arith, same_bytes_iff expected bytes)

-- A list is not itself with more behind it.
longer {ℓ} : {A : Type ℓ} (xs : List A) (y : A) → xs ≢ xs ++ y ∷ []
longer [] y e = absurd (cc e)
longer (x ∷ xs) y e = longer xs y (cc e)

module _ (hmac : Hmac) where
  -- The proof that a share asks for: none without a password, and none of an Immich share.
  abbrev pub Proves : Session → String → String → Type 0
  Proves session nonce received =
      (session.password ≡ "")
      ⊎ (session.share_type ≡ "immich")
      ⊎ (hmac.decode_string received ≡ some (hmac.sum session.password nonce))

  -- A connection that may be let in: the session is there, the connection has a nonce that has not
  -- expired, the share is no protected Immich share, and the proof is right.
  pub record MayEnter (now : ℕ) (conn_id code received : String) (d : Daemon) : Type 0 where
    pub session : Session
    pub found : lookup code d.sessions ≡ some session
    pub entry : NonceEntry
    pub has_nonce : lookup conn_id d.nonces ≡ some entry
    pub fresh : now ≤ entry.expires_at
    pub unprotected : (session.share_type ≡ "immich") → session.is_password_protected ≡ false
    pub proves : Proves session entry.nonce received

  -- The two tests of handleJoin that follow the nonce's.
  protected_lem :
      (session : Session)
      → (session.share_type =? "immich" && session.is_password_protected) ≡ false
      → (session.share_type ≡ "immich")
      → session.is_password_protected ≡ false
  protected_lem session h e = ground (arith, h, e, eq_iff session.share_type "immich")

  abbrev pub unproved : Session → String → String → Bool
  unproved session nonce received =
      not (session.password =? "")
      && not (session.share_type =? "immich")
      && not (verify hmac session.password nonce received)

  pub proved_iff :
      (session : Session) (nonce received : String)
      → (unproved session nonce received ≡ false) ↔ Proves session nonce received
  unfolding verify
  proved_iff session nonce received = ground (
    arith,
    eq_iff session.password "",
    eq_iff session.share_type "immich",
    proof_matches_iff (hmac.sum session.password nonce) (hmac.decode_string received),
  )

  refused :
      {B : Type 0} (sent : List Notice) (c : String) (o : Option String) (conn_id code : String)
      → sent ++ auth_failed c o ∷ [] ≡ sent ++ auth_ok conn_id code ∷ []
      → B
  refused sent c o conn_id code e =
      absurd (cc (cancel_left sent (auth_failed c o ∷ []) (auth_ok conn_id code ∷ []) e))

  -- What an answer of auth_ok says of the nonce and the proof.
  abbrev Granted : ℕ → String → Session → NonceEntry → Type 0
  Granted now received session entry =
      (now ≤ entry.expires_at)
      × ((session.share_type ≡ "immich") → session.is_password_protected ≡ false)
      × Proves session entry.nonce received

  answer_some :
      (now : ℕ) (conn_id code received : String) (session : Session) (entry : NonceEntry)
      (d : Daemon)
      → (answer_join hmac now conn_id code received session (some entry) d).sent
        ≡ d.sent ++ auth_ok conn_id code ∷ []
      → Granted now received session entry
  unfolding answer_join notify
  answer_some now conn_id code received session entry d =
      let P : Daemon → Type 0 =
        λ f. f.sent ≡ d.sent ++ auth_ok conn_id code ∷ [] → Granted now received session entry in
      if_elim P (ltb entry.expires_at now) (λ b e. refused d.sent conn_id none conn_id code e)
        λ b1.
          if_elim P (session.share_type =? "immich" && session.is_password_protected)
            (λ b e. refused d.sent conn_id (some code) conn_id code e)
            λ b2.
              if_elim P (unproved session entry.nonce received)
                (λ b e. refused d.sent conn_id none conn_id code e)
                λ b3 e. (
                  ground (arith, b1),
                  protected_lem session b2,
                  (proved_iff session entry.nonce received).0 b3,
                )

  answer_inv :
      (now : ℕ) (conn_id code received : String) (session : Session) (o : Option NonceEntry)
      (d : Daemon)
      → (answer_join hmac now conn_id code received session o d).sent
        ≡ d.sent ++ auth_ok conn_id code ∷ []
      → (entry : NonceEntry) × (o ≡ some entry) × Granted now received session entry
  unfolding answer_join notify
  answer_inv now conn_id code received session none d e = refused d.sent conn_id none conn_id code e
  answer_inv now conn_id code received session (some entry) d e =
      (entry, refl, answer_some now conn_id code received session entry d e)

  -- handleJoin sends auth_ok to a connection only where it may enter.
  pub join_only :
      (now : ℕ) (conn_id code received : String) (d : Daemon)
      → (handle_join hmac now conn_id code received d).sent ≡ d.sent ++ auth_ok conn_id code ∷ []
      → MayEnter now conn_id code received d
  unfolding handle_join join_to
  join_only now conn_id code received d h = elim (Option-cases (lookup code d.sessions)) [
    | inl n ↦ absurd (longer d.sent (auth_ok conn_id code) (rw (n, join_to) at h))
    | inr (session, n) ↦
        let taken = record d { nonces = delete conn_id d.nonces } in
        let (entry, has, (fresh, unprotected, proves)) =
          answer_inv now conn_id code received session (lookup conn_id d.nonces) taken
            (rw (n, join_to) at h) in
        record {
          session = session;
          found = n;
          entry = entry;
          has_nonce = has;
          fresh = fresh;
          unprotected = unprotected;
          proves = proves;
        }
  ]
