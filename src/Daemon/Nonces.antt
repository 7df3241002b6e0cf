-- ===== src/Daemon/Nonces.antt =====
-- A nonce answers one join.
use share_bridge.Prelude.{
  ℕ, ◌≤◌, ◌≡◌, refl, inl, inr, Bool, true, false, List, [], ◌∷◌, ◌++◌, ◌⊎◌, String, Option, none,
  some, Map, lookup, delete, ◌=?◌, ◌&&◌, string_key, ltb, if_elim, arith, Bool-cases, Option-cases,
  lookup-insert, lookup-delete, same_refl,
}
use text.Mathlib.TextEquality.{eq_iff}
use share_bridge.Daemon.Sessions.{
  NonceEntry, Session, auth_failed, Daemon, Hmac, notify, sweep, keep_nonce, knock_on, handle_knock,
  submit_to, handle_password_submit, revoke_session, revoked, let_in, answer_join, join_to,
  handle_join, Event, knocks, joins, submits, revokes, shares, step, run,
}

lookup-sweep-none :
    (now : ℕ) (conn_id : String) (m : Map String NonceEntry)
    → lookup conn_id m ≡ none
    → lookup conn_id (sweep now m) ≡ none
unfolding sweep lookup
lookup-sweep-none now conn_id [] h = refl
lookup-sweep-none now conn_id ((j, e) ∷ m) h =
    ground (arith, lookup-sweep-none now conn_id m, eq_iff j conn_id)

pub lookup-sweep-some :
    (now : ℕ) (conn_id : String) (e : NonceEntry) (m : Map String NonceEntry)
    → now ≤ e.expires_at
    → lookup conn_id m ≡ some e
    → lookup conn_id (sweep now m) ≡ some e
unfolding sweep lookup
lookup-sweep-some now conn_id e [] fresh h = absurd (cc h)
lookup-sweep-some now conn_id e ((j, x) ∷ m) fresh h = elim (Bool-cases (j =? conn_id)) [
  | inl y ↦ elim (Bool-cases (ltb x.expires_at now)) [
    | inl z ↦ absurd (ground (arith, h, y, z))
    | inr z ↦ rw (z, y) (rw y at h)
  ]
  | inr y ↦
      let rest = lookup-sweep-some now conn_id e m fresh (rw y at h) in
      elim (Bool-cases (ltb x.expires_at now)) [ inl z ↦ rw z rest | inr z ↦ rw (z, y) rest ]
]

module _ (hmac : Hmac) (conn_id : String) where
  -- The connection does not knock.
  abbrev pub NoKnock : Event → Type 0
  NoKnock (knocks now value c code) = (c =? conn_id) ≡ false
  NoKnock (joins now c code received) = Unit
  NoKnock (submits valid c code) = Unit
  NoKnock (revokes code) = Unit
  NoKnock (shares code session) = Unit

  abbrev pub NoKnocks : List Event → Type 0
  NoKnocks [] = Unit
  NoKnocks (x ∷ xs) = NoKnock x × NoKnocks xs

  -- The connection has no nonce.
  abbrev IsSpent : Daemon → Type 0
  IsSpent d = lookup conn_id d.nonces ≡ none

  knock-IsSpent :
      (now : ℕ) (value : Option String) (c : String) (session : Option Session) (d : Daemon)
      → (c =? conn_id) ≡ false
      → IsSpent d
      → IsSpent (knock_on now value c session d)
  unfolding knock_on notify keep_nonce
  knock-IsSpent now value c none d n h = h
  knock-IsSpent now none c (some session) d n h = h
  knock-IsSpent now (some value) c (some session) d n h =
      rw (lookup-insert, n) (lookup-sweep-none now conn_id d.nonces h)

  let_in-nonces :
      (c code : String) (session : Session) (d : Daemon)
      → (let_in hmac c code session d).nonces ≡ d.nonces
  unfolding let_in notify
  let_in-nonces c code session d =
      if_elim (λ (f : Daemon). f.nonces ≡ d.nonces) session.relay_only (λ b. refl) λ b. refl

  pub answer_join-nonces :
      (now : ℕ) (c code received : String) (session : Session) (entry : Option NonceEntry)
      (d : Daemon)
      → (answer_join hmac now c code received session entry d).nonces ≡ d.nonces
  unfolding answer_join notify
  answer_join-nonces now c code received session none d = refl
  answer_join-nonces now c code received session (some entry) d =
      let P : Daemon → Type 0 = λ f. f.nonces ≡ d.nonces in
      if_elim P (ltb entry.expires_at now) (λ b. refl)
        λ b.
          if_elim P (session.share_type =? "immich" && session.is_password_protected) (λ b. refl)
            λ b. if_elim P _ (λ b. refl) λ b. let_in-nonces c code session d

  join-IsSpent :
      (now : ℕ) (c code received : String) (session : Option Session) (d : Daemon)
      → IsSpent d
      → IsSpent (join_to hmac now c code received session d)
  unfolding join_to
  join-IsSpent now c code received none d h = h
  join-IsSpent now c code received (some session) d h =
      rw
        (
          answer_join-nonces now c code received session (lookup c d.nonces)
              (record d { nonces = delete c d.nonces }),
          lookup-delete,
        )
        (if_elim (λ (o : Option NonceEntry). o ≡ none) (c =? conn_id) (λ b. refl) λ b. h)

  pub submit-nonces :
      (valid : Option Bool) (c code : String) (session : Option Session) (d : Daemon)
      → (submit_to valid c code session d).nonces ≡ d.nonces
  unfolding submit_to notify
  submit-nonces valid c code none d = refl
  submit-nonces none c code (some session) d =
      if_elim (λ (f : Daemon). f.nonces ≡ d.nonces) _ (λ b. refl) λ b. refl
  submit-nonces (some true) c code (some session) d =
      if_elim (λ (f : Daemon). f.nonces ≡ d.nonces) _ (λ b. refl) λ b. refl
  submit-nonces (some false) c code (some session) d =
      if_elim (λ (f : Daemon). f.nonces ≡ d.nonces) _ (λ b. refl) λ b. refl

  pub revoke-nonces :
      (code : String) (d : Daemon) → (revoked d (revoke_session code d)).nonces ≡ d.nonces
  unfolding revoked revoke_session notify
  revoke-nonces code d = elim (Option-cases (lookup code d.sessions)) [
    | inl n ↦ rw (n, revoked) refl
    | inr (session, n) ↦ rw (n, revoked) refl
  ]

  step-IsSpent : (x : Event) (d : Daemon) → NoKnock x → IsSpent d → IsSpent (step hmac x d)
  unfolding step handle_knock handle_join handle_password_submit
  step-IsSpent (knocks now value c code) d n h =
      knock-IsSpent now value c (lookup code d.sessions) d n h
  step-IsSpent (joins now c code received) d n h =
      join-IsSpent now c code received (lookup code d.sessions) d h
  step-IsSpent (submits valid c code) d n h =
      rw (submit-nonces valid c code (lookup code d.sessions) d) h
  step-IsSpent (revokes code) d n h = rw (revoke-nonces code d) h
  step-IsSpent (shares code session) d n h = h

  run-IsSpent : (xs : List Event) (d : Daemon) → NoKnocks xs → IsSpent d → IsSpent (run hmac xs d)
  unfolding run
  run-IsSpent [] d n h = h
  run-IsSpent (x ∷ xs) d n h = run-IsSpent xs (step hmac x d) n.1 (step-IsSpent x d n.0 h)

  spend :
      (now : ℕ) (code received : String) (session : Session) (d : Daemon)
      → lookup code d.sessions ≡ some session
      → IsSpent (handle_join hmac now conn_id code received d)
  unfolding handle_join join_to
  spend now code received session d h =
      rw (h, join_to)
        (rw
          (
            answer_join-nonces now conn_id code received session (lookup conn_id d.nonces)
                (record d { nonces = delete conn_id d.nonces }),
            lookup-delete,
            same_refl,
          )
          refl)

  -- The join is refused: it lets nobody in, and says at most that it failed.
  pub record Refuses (d d' : Daemon) : Type 0 where
    pub created : d'.created ≡ d.created
    pub sent : (d'.sent ≡ d.sent) ⊎ (d'.sent ≡ d.sent ++ auth_failed conn_id none ∷ [])

  refuse :
      (now : ℕ) (code received : String) (session : Option Session) (d : Daemon)
      → IsSpent d
      → Refuses d (join_to hmac now conn_id code received session d)
  unfolding join_to answer_join notify
  refuse now code received none d h = record { created = refl; sent = inl refl }
  refuse now code received (some session) d h =
      rw (h, answer_join) (record { created = refl; sent = inr refl })

-- After a join of a session that the agent has, the same connection is let in by no further join, to
-- whatever session and with whatever proof, until it knocks again: whatever else happens in between,
-- the join creates no peer and sends nothing but auth_failed.
pub join_once :
    (hmac : Hmac) (conn_id : String) (now now' : ℕ) (code code' received received' : String)
    (session : Session) (d : Daemon) (xs : List Event)
    → lookup code d.sessions ≡ some session
    → NoKnocks hmac conn_id xs
    → let after = run hmac xs (handle_join hmac now conn_id code received d) in
      Refuses hmac conn_id after (handle_join hmac now' conn_id code' received' after)
unfolding handle_join
join_once hmac conn_id now now' code code' received received' session d xs h n =
    let after = run hmac xs (handle_join hmac now conn_id code received d) in
    refuse hmac conn_id now' code' received' (lookup code' after.sessions) after (
      run-IsSpent hmac conn_id xs (handle_join hmac now conn_id code received d) n
        (spend hmac conn_id now code received session d h))
