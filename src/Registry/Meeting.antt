-- ===== src/Registry/Meeting.antt =====
-- Browser and agent meet, whoever comes first; what CloseSession reports; what CleanupExpired takes.
use share_bridge.Prelude.{
  ℕ, ◌+◌, ◌%◌, ◌^◌, ◌≤◌, ◌<◌, ◌≡◌, refl, ap, ◌∙◌, ◌⊎◌, true, false, not, ◌&&◌, List, [], ◌∷◌,
  String, none, some, Map, lookup, insert, ◌=?◌, string_key, ltb, ok, err, arith, lookup-insert,
  lookup-delete, same_refl,
}
use text.Mathlib.TextEquality.{eq_iff}
use share_bridge.Registry.Sessions.{
  PendingSession, SessionEntry, active, pending_browser, pending_agent, Registry, unknown_sid,
  new_entry, create_pending_session, bind_browser_entry, bind_browser_socket, bind_agent_entry,
  bind_agent_socket, cleanup_session, add_forwarded_bytes, close_session,
}

-- The relay session's agent, as BindAgentSocket checks it.
abbrev pub Admits : PendingSession → String → Type 0
Admits p agent_id = (p.agent_id ≡ "") ⊎ (p.agent_id ≡ agent_id)

bind_browser-here :
    (sid jti : String) (conn now : ℕ) (e : SessionEntry) (r : Registry)
    → lookup jti r.spent_jti ≡ none
    → lookup sid r.sessions ≡ some e
    → now ≤ e.session.expires_at
    → bind_browser_socket sid jti conn now r ≡ bind_browser_entry sid jti conn now e r
unfolding bind_browser_socket
bind_browser-here sid jti conn now e r s n t =
    let ontime : ltb e.session.expires_at now ≡ false = ground arith in
    rw (s, n, ontime, bind_browser_socket)

bind_agent-here :
    (sid agent_id : String) (conn now : ℕ) (e : SessionEntry) (r : Registry)
    → lookup sid r.sessions ≡ some e
    → Admits e.session agent_id
    → now ≤ e.session.expires_at
    → bind_agent_socket sid agent_id conn now r ≡ bind_agent_entry sid conn e r
unfolding bind_agent_socket
bind_agent-here sid agent_id conn now e r n admits t =
    let ontime : ltb e.session.expires_at now ≡ false = ground arith in
    let own : (not (e.session.agent_id =? "") && not (e.session.agent_id =? agent_id)) ≡ false =
      ground (arith, eq_iff e.session.agent_id "", eq_iff e.session.agent_id agent_id) in
    rw (n, ontime, own, bind_agent_socket)

lookup-insert_self :
    (sid : String) (e : SessionEntry) (m : Map String SessionEntry)
    → lookup sid (insert sid e m) ≡ some e
lookup-insert_self sid e m = rw lookup-insert (simp same_refl)

-- The entry once both sides have come.
abbrev pub met : PendingSession → ℕ → ℕ → SessionEntry
met p browser agent = record {
  session = p;
  agent_socket = agent;
  browser_socket = browser;
  is_active = true;
  forwarded_bytes = 0;
  agent_ready = true;
  browser_ready = true;
}

module _ (p : PendingSession) (r : Registry) (jti agent_id : String) (browser agent now later : ℕ)
    (fresh : lookup jti r.spent_jti ≡ none) (admits : Admits p agent_id)
    (in_time : now ≤ p.expires_at) (later_in_time : later ≤ p.expires_at) where
  -- After CreatePendingSession, a browser that binds in time with an unspent token waits, and the
  -- session's agent that binds after it, in time, is handed the browser's socket: the session is
  -- active, with both sockets.
  pub browser_then_agent :
      let first = bind_browser_socket p.sid jti browser now (create_pending_session p r) in
      let second = bind_agent_socket p.sid agent_id agent later first.1 in
      (first.0 ≡ ok (0, pending_browser))
      × (second.0 ≡ ok (browser, active))
      × (lookup p.sid second.1.sessions ≡ some (met p browser agent))
  unfolding bind_browser_entry bind_agent_entry create_pending_session new_entry
  browser_then_agent =
      let first =
        bind_browser-here p.sid jti browser now (new_entry p) (create_pending_session p r) fresh
          (lookup-insert_self p.sid _ r.sessions) in_time in
      let waiting : SessionEntry = record (new_entry p) {
        browser_socket = browser;
        browser_ready = true;
      } in
      rw (first) (
        let second =
          bind_agent-here p.sid agent_id agent later waiting
            (bind_browser_entry p.sid jti browser now (new_entry p) (create_pending_session p r)).1
            (lookup-insert_self p.sid _ _) admits later_in_time in
        rw second (refl, refl, lookup-insert_self p.sid _ _))

  -- After CreatePendingSession, the session's agent that binds in time waits, and a browser that binds
  -- after it, in time and with an unspent token, is handed the agent's socket: the session is active,
  -- with both sockets.
  pub agent_then_browser :
      let first = bind_agent_socket p.sid agent_id agent now (create_pending_session p r) in
      let second = bind_browser_socket p.sid jti browser later first.1 in
      (first.0 ≡ ok (0, pending_agent))
      × (second.0 ≡ ok (agent, active))
      × (lookup p.sid second.1.sessions ≡ some (met p browser agent))
  unfolding bind_browser_entry bind_agent_entry create_pending_session new_entry
  agent_then_browser =
      let first =
        bind_agent-here p.sid agent_id agent now (new_entry p) (create_pending_session p r)
          (lookup-insert_self p.sid _ r.sessions) admits in_time in
      let waiting : SessionEntry = record (new_entry p) {
        agent_socket = agent;
        agent_ready = true;
      } in
      rw (first) (
        let second =
          bind_browser-here p.sid jti browser later waiting
            (bind_agent_entry p.sid agent (new_entry p) (create_pending_session p r)).1 fresh
            (lookup-insert_self p.sid _ _) later_in_time in
        rw second (refl, refl, lookup-insert_self p.sid _ _))

-- The entry of a session after bytes have been added, one call after another.
pub add_all : String → List ℕ → Registry → Registry
add_all sid [] r = r
add_all sid (n ∷ ns) r = add_all sid ns (add_forwarded_bytes sid n r)

abbrev pub sum : List ℕ → ℕ
sum [] = 0
sum (n ∷ ns) = n + sum ns

closes_once :
    (sid : String) (e : SessionEntry) (r : Registry)
    → lookup sid r.sessions ≡ some e
    → ((close_session sid r).0 ≡ ok (e.session.account_id, e.forwarded_bytes))
      × ((close_session sid (close_session sid r).1).0 ≡ err unknown_sid)
unfolding close_session cleanup_session
closes_once sid e r n =
    rw (n, close_session) (refl, rw (n, cleanup_session) (rw lookup-delete (simp same_refl)))

lookup-add_forwarded_bytes :
    (sid : String) (k : ℕ) (e : SessionEntry) (r : Registry)
    → lookup sid r.sessions ≡ some e
    → lookup sid (add_forwarded_bytes sid k r).sessions
      ≡ some (record e { forwarded_bytes = (e.forwarded_bytes + k) % 2 ^ 64 })
unfolding add_forwarded_bytes
lookup-add_forwarded_bytes sid k e r n =
    rw (n, add_forwarded_bytes) (lookup-insert_self sid _ r.sessions)

-- For a session that is there, CloseSession reports the account and every byte that was added before,
-- modulo 2^64, and the session is gone: a second CloseSession fails.
pub close_session_total :
    (sid : String) (ns : List ℕ) (e : SessionEntry) (r : Registry)
    → lookup sid r.sessions ≡ some e
    → e.forwarded_bytes < 2 ^ 64
    → let closed = close_session sid (add_all sid ns r) in
      (closed.0 ≡ ok (e.session.account_id, (e.forwarded_bytes + sum ns) % 2 ^ 64))
      × ((close_session sid closed.1).0 ≡ err unknown_sid)
unfolding add_all
close_session_total sid [] e r n small =
    let same : (e.forwarded_bytes + 0) % 2 ^ 64 ≡ e.forwarded_bytes = omega arith in
    rw same (closes_once sid e r n)
close_session_total sid (k ∷ ns) e r n small =
    let e' : SessionEntry = record e { forwarded_bytes = (e.forwarded_bytes + k) % 2 ^ 64 } in
    let ih =
      close_session_total sid ns e' (add_forwarded_bytes sid k r)
        (lookup-add_forwarded_bytes sid k e r n) (omega arith) in
    let same : ((e.forwarded_bytes + k) % 2 ^ 64 + sum ns) % 2 ^ 64
        ≡ (e.forwarded_bytes + (k + sum ns)) % 2 ^ 64 =
      omega arith in
    (ih.0 ∙ ap (λ x. ok (e.session.account_id, x)) same, ih.1)
