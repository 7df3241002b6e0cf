-- ===== src/Hub/Fencing.antt =====
-- A socket that a reconnect has superseded gets nothing through.
use share_bridge.Prelude.{
  ◌≡◌, ◌≢◌, sym, ap, ◌∙◌, inl, inr, ◌==◌, ==_iff, false, String, Option, none, some, arith, lookup,
  insert, index, string_key, nat_key, Bool-cases, Option-cases, lookup-insert, same_refl,
}
use share_bridge.Hub.State.{Conn, nil, Hub, Network, ensure_write_mu, silent}
use share_bridge.Hub.Ownership.{
  is_current_agent, agent_owns_session, browser_for_agent, browser_session_for_agent,
}
use share_bridge.Hub.Agents.{register_agent}
use share_bridge.Hub.Browsers.{
  increment_auth_failure, increment_immich_auth_failure, forward_to_browser,
  forward_to_browser_by_conn_id, close_browser_conn_with_error,
}

-- ensureWriteMuLocked changes the write mutexes only.
pub ensure_write_mu-eq :
    (conn : Conn) (h : Hub)
    → ensure_write_mu conn h ≡ record h { conn_writes = (ensure_write_mu conn h).conn_writes }
unfolding ensure_write_mu
ensure_write_mu-eq conn h = elim (Bool-cases (conn == nil)) [
  | inl e ↦ rw (e, ensure_write_mu)
  | inr e ↦ elim (Option-cases (lookup conn h.conn_writes)) [
    | inl n ↦ rw (e, n, ensure_write_mu)
    | inr (m, n) ↦ rw (e, n, ensure_write_mu)
  ]
]

-- What the agent's messages come to, when they come from this connection.
pub record Fenced {Msg Bytes : Type 0} (net : Network Msg Bytes) (key : String) (conn : Conn)
    (h : Hub) : Type 0 where
  pub not_current : is_current_agent key conn h ≡ false
  pub no_session : (conn_id : String) → browser_session_for_agent key conn conn_id h ≡ none
  pub no_forward :
      (code : String) (msg : Msg) → forward_to_browser net key conn code msg h ≡ silent net h none
  pub no_forward_by_id :
      (conn_id : String) (msg : Msg)
      → forward_to_browser_by_conn_id net key conn conn_id msg h ≡ silent net h none
  pub no_failure : (conn_id : String) → increment_auth_failure key conn conn_id h ≡ (0, h)
  pub no_immich_failure :
      (conn_id : String) → increment_immich_auth_failure key conn conn_id h ≡ (0, h)
  pub no_close :
      (conn_id message : String)
      → close_browser_conn_with_error net key conn conn_id message h ≡ silent net h none

module _ (key : String) (conn : Conn) (h : Hub) (stale : index nil key h.agents ≢ conn) where
  stale_test : (index nil key h.agents == conn) ≡ false
  stale_test = ground (arith, ==_iff (index nil key h.agents) conn)

  not_owner : (code : String) → agent_owns_session key conn code h ≡ false
  unfolding agent_owns_session
  not_owner code = let s = stale_test in ground arith

  no_browser : (conn_id : String) → browser_for_agent key conn conn_id h ≡ none
  unfolding browser_for_agent
  no_browser conn_id = elim (Option-cases (lookup conn_id h.browser_owners)) [
    | inl e ↦ rw (e, browser_for_agent)
    | inr (o, e) ↦ rw (e, browser_for_agent) (let n = not_owner o.session_id in ground arith)
  ]

not_forwarded :
    {Msg Bytes : Type 0} (net : Network Msg Bytes) (key : String) (conn : Conn) (code : String)
    (msg : Msg) (h : Hub)
    → agent_owns_session key conn code h ≡ false
    → forward_to_browser net key conn code msg h ≡ silent net h none
unfolding forward_to_browser
not_forwarded net key conn code msg h n = elim (Option-cases (lookup code h.pairs)) [
  | inl e ↦ rw (e, forward_to_browser)
  | inr (p, e) ↦ rw (e, n, forward_to_browser)
]

-- A connection other than the one registered for the key gets nothing through: no message reaches a
-- browser, no failure is counted, no browser is closed, and the hub stays as it is.
pub fenced :
    {Msg Bytes : Type 0} (net : Network Msg Bytes) (key : String) (conn : Conn) (h : Hub)
    → index nil key h.agents ≢ conn
    → Fenced net key conn h
fenced net key conn h stale = record {
  not_current = unfold is_current_agent in (let s = stale_test key conn h stale in ground arith);
  no_session = λ id.
      unfold browser_session_for_agent in
      rw (no_browser key conn h stale id, browser_session_for_agent);
  no_forward = λ code msg. not_forwarded net key conn code msg h (not_owner key conn h stale code);
  no_forward_by_id = λ id msg.
      unfold forward_to_browser_by_conn_id in
      rw (no_browser key conn h stale id, forward_to_browser_by_conn_id);
  no_failure = λ id.
      unfold increment_auth_failure in rw (no_browser key conn h stale id, increment_auth_failure);
  no_immich_failure = λ id.
      unfold increment_immich_auth_failure in
      rw (no_browser key conn h stale id, increment_immich_auth_failure);
  no_close = λ id message.
      unfold close_browser_conn_with_error in
      rw (no_browser key conn h stale id, close_browser_conn_with_error);
}

-- RegisterAgent makes the connection the one of its key.
agents-register_agent :
    (key : String) (conn : Conn) (h : Hub)
    → (register_agent key conn h).agents ≡ insert key conn h.agents
unfolding register_agent
agents-register_agent key conn h = ap (λ (u : Hub). u.agents) (ensure_write_mu-eq conn _)

pub current-register_agent :
    (key : String) (conn : Conn) (h : Hub)
    → lookup key (register_agent key conn h).agents ≡ some conn
current-register_agent key conn h = rw (agents-register_agent, lookup-insert) (simp same_refl)

-- After an agent reconnects with another connection, its earlier connection gets nothing through any more: no message
-- reaches a browser, no failure is counted, no browser is closed, and the hub stays as it is.
pub superseded_agent :
    {Msg Bytes : Type 0} (net : Network Msg Bytes) (key : String) (old new : Conn) (h : Hub)
    → old ≢ new
    → Fenced net key old (register_agent key new h)
superseded_agent net key old new h differ = fenced net key old (register_agent key new h) (λ e.
    differ (
      sym (
        sym (
          ap (λ (o : Option Conn). elim o [ none ↦ nil | some v ↦ v ])
            (current-register_agent key new h))
        ∙ e)))
