-- ===== src/Daemon/Sessions.antt =====
-- The sessions, the nonces of connections that have knocked, and the handlers that use them. Time is
-- a number of seconds that each handler is given, a random nonce one that it is given too. What is
-- sent to the signalling server and which peers are created is kept in order.
use share_bridge.Prelude.{
  ℕ, ◌+◌, Bool, true, false, not, ◌&&◌, ◌||◌, List, [], ◌∷◌, ◌++◌, String, Option, none, some, Map,
  lookup, insert, delete, string_key, ◌=?◌, ◌==◌, ltb, if◌then◌else◌, Result, ok, err,
}

pub record NonceEntry : Type 0 where
  pub nonce : String
  pub expires_at : ℕ

pub record Session : Type 0 where
  pub code : String
  pub share_type : String
  pub password : String
  pub is_password_protected : Bool
  pub relay_only : Bool
  pub has_immich_client : Bool

pub data Notice : Type 0 where
  nonce_for : String → String → Bool → Notice
  auth_failed : String → Option String → Notice
  auth_ok auth_fail : String → String → Notice
  deregister : String → Notice

-- A peer that is created for a connection in a session.
pub record PeerOf : Type 0 where
  pub conn_id : String
  pub session_code : String

pub record Daemon : Type 0 where
  pub sessions : Map String Session
  pub nonces : Map String NonceEntry
  pub closed : List String
  pub sent : List Notice
  pub created : List PeerOf

-- What the source calls of crypto/hmac with SHA-256 and of encoding/hex.
pub record Hmac : Type 0 where
  pub sum : String → String → List ℕ
  pub decode_string : String → Option (List ℕ)

unfoldable pub notify : Notice → Daemon → Daemon
notify x d = record d { sent = d.sent ++ x ∷ [] }

-- The loop that deletes what has expired.
unfoldable pub sweep : ℕ → Map String NonceEntry → Map String NonceEntry
sweep now [] = []
sweep now ((conn_id, e) ∷ m) =
    let rest = sweep now m in if ltb e.expires_at now then rest else (conn_id, e) ∷ rest

unfoldable pub keep_nonce : ℕ → String → String → Map String NonceEntry → Map String NonceEntry
unfolding sweep insert
keep_nonce now conn_id value m =
    insert conn_id (record { nonce = value; expires_at = now + 60 }) (sweep now m)

-- handleKnock, once the session is looked up; no nonce means that rand.Read failed.
unfoldable pub knock_on : ℕ → Option String → String → Option Session → Daemon → Daemon
unfolding notify keep_nonce
knock_on now value conn_id none d = d
knock_on now none conn_id (some session) d = d
knock_on now (some value) conn_id (some session) d =
    notify (nonce_for conn_id value (not (session.password =? "")))
      (record d { nonces = keep_nonce now conn_id value d.nonces })

unfoldable pub handle_knock : ℕ → Option String → String → String → Daemon → Daemon
unfolding knock_on lookup
handle_knock now value conn_id session_code d =
    knock_on now value conn_id (lookup session_code d.sessions) d

unfoldable pub same_bytes : List ℕ → List ℕ → Bool
same_bytes [] [] = true
same_bytes (a ∷ x) (b ∷ y) = a == b && same_bytes x y
same_bytes _ _ = false

-- handlePasswordSubmit; `valid` is what ValidatePassword answers, with `none` for an error.
unfoldable pub submit_to : Option Bool → String → String → Option Session → Daemon → Daemon
unfolding notify
submit_to valid conn_id session_code none d = notify (auth_fail conn_id session_code) d
submit_to valid conn_id session_code (some session) d =
    if not (session.share_type =? "immich") || not session.has_immich_client
    then notify (auth_fail conn_id session_code) d
    else elim valid [
      | none ↦ notify (auth_fail conn_id session_code) d
      | some false ↦ notify (auth_fail conn_id session_code) d
      | some true ↦ notify (auth_ok conn_id session_code) d
    ]

unfoldable pub handle_password_submit : Option Bool → String → String → Daemon → Daemon
unfolding submit_to lookup
handle_password_submit valid conn_id session_code d =
    submit_to valid conn_id session_code (lookup session_code d.sessions) d

-- RevokeSession: the session's peers and channels are closed, and the server is told.
unfoldable pub revoke_session : String → Daemon → Result (String) Daemon
unfolding notify lookup delete
revoke_session code d = elim (lookup code d.sessions) [
  | none ↦ err code
  | some session ↦ ok (
      notify (deregister code)
        (record d { sessions = delete code d.sessions; closed = code ∷ d.closed }))
]

pub data Event : Type 0 where
  knocks : ℕ → Option String → String → String → Event
  joins : ℕ → String → String → String → Event
  submits : Option Bool → String → String → Event
  revokes : String → Event
  shares : String → Session → Event

unfoldable pub revoked : Daemon → Result String Daemon → Daemon
revoked d (ok d') = d'
revoked d (err e) = d

-- The expected sum against what the proof decodes to.
unfoldable pub proof_matches : List ℕ → Option (List ℕ) → Bool
unfolding same_bytes
proof_matches expected none = false
proof_matches expected (some bytes) = same_bytes expected bytes

module _ (hmac : Hmac) where
  unfoldable pub verify : String → String → String → Bool
  unfolding proof_matches
  verify password nonce received =
      proof_matches (hmac.sum password nonce) (hmac.decode_string received)

  -- After the proof is accepted.
  unfoldable pub let_in : String → String → Session → Daemon → Daemon
  unfolding notify
  let_in conn_id session_code session d =
      if session.relay_only
      then notify (auth_ok conn_id session_code) d
      else record (notify (auth_ok conn_id session_code) d) {
        created = d.created ++ record { conn_id = conn_id; session_code = session_code } ∷ [];
      }

  -- handleJoin, with the session and the nonce that was taken out.
  unfoldable pub answer_join :
      ℕ → String → String → String → Session → Option NonceEntry → Daemon → Daemon
  unfolding notify verify let_in
  answer_join now conn_id session_code received session none d = notify (auth_failed conn_id none) d
  answer_join now conn_id session_code received session (some entry) d =
      if ltb entry.expires_at now
      then notify (auth_failed conn_id none) d
      else if session.share_type =? "immich" && session.is_password_protected
      then notify (auth_failed conn_id (some session_code)) d
      else if not (session.password =? "")
          && not (session.share_type =? "immich")
          && not (verify session.password entry.nonce received)
      then notify (auth_failed conn_id none) d
      else let_in conn_id session_code session d

  -- The nonce is taken out before anything is tested.
  unfoldable pub join_to : ℕ → String → String → String → Option Session → Daemon → Daemon
  unfolding answer_join lookup delete
  join_to now conn_id session_code received none d = d
  join_to now conn_id session_code received (some session) d =
      answer_join now conn_id session_code received session (lookup conn_id d.nonces)
        (record d { nonces = delete conn_id d.nonces })

  unfoldable pub handle_join : ℕ → String → String → String → Daemon → Daemon
  unfolding join_to lookup
  handle_join now conn_id session_code received d =
      join_to now conn_id session_code received (lookup session_code d.sessions) d

  -- A message of the signalling server, a revocation, or a new share.
  unfoldable pub step : Event → Daemon → Daemon
  unfolding handle_knock handle_join handle_password_submit revoke_session revoked insert
  step (knocks now value conn_id code) d = handle_knock now value conn_id code d
  step (joins now conn_id code received) d = handle_join now conn_id code received d
  step (submits valid conn_id code) d = handle_password_submit valid conn_id code d
  step (revokes code) d = revoked d (revoke_session code d)
  step (shares code session) d = record d { sessions = insert code session d.sessions }

  unfoldable pub run : List Event → Daemon → Daemon
  unfolding step
  run [] d = d
  run (x ∷ xs) d = run xs (step x d)
