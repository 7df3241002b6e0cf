-- ===== src/Hub/Browsers.antt =====
-- The operations of signaling-server/internal/hub/hub.go on browsers and their sessions.
use share_bridge.Prelude.{
  ℕ, ◌+◌, ◌==◌, not, ◌&&◌, ◌||◌, [], ◌∷◌, ◌++◌, String, none, some, lookup, insert, delete, index,
  ◌=?◌, string_key, nat_key, if◌then◌else◌, Result, ok, err,
}
use share_bridge.Hub.State.{
  Conn, nil, Hub, HubError, code_not_registered, agent_not_connected, browser_identity_required,
  Network, closes, Sent, ensure_write_mu, send, silent,
}
use share_bridge.Hub.Ownership.{agent_owns_session, browser_for_agent}

unfoldable pub bind_browser : String → String → String → Conn → Conn → Hub → Hub
unfolding ensure_write_mu
bind_browser session_id conn_id api_key browser_conn agent_conn h =
    ensure_write_mu browser_conn (record h {
      pairs =
          insert session_id
            (record { api_key_id = api_key; agent_conn = agent_conn; browser_conn = browser_conn })
            h.pairs;
      conn_browsers = insert conn_id browser_conn h.conn_browsers;
      browser_owners =
          insert conn_id
            (record { api_key_id = api_key; session_id = session_id; agent_conn = agent_conn })
            h.browser_owners;
    })

-- PairSession, where the code belongs to the caller's agent.
unfoldable pub pair_with : String → String → String → Conn → Hub → Result HubError Hub
unfolding bind_browser
pair_with session_id conn_id api_key browser_conn h = elim (lookup api_key h.agents) [
  | none ↦ err agent_not_connected
  | some agent_conn ↦
      if conn_id =? "" || browser_conn == nil
      then err browser_identity_required
      else ok (bind_browser session_id conn_id api_key browser_conn agent_conn h)
]

-- PairSession
unfoldable pub pair_session : String → String → String → Conn → Hub → Result HubError Hub
unfolding pair_with
pair_session session_id conn_id api_key_id browser_conn h = elim (lookup session_id h.codes) [
  | none ↦ err code_not_registered
  | some api_key ↦
      if not (api_key =? api_key_id)
      then err code_not_registered
      else pair_with session_id conn_id api_key browser_conn h
]

-- UnpairSession
unfoldable pub unpair_session : String → Conn → Hub → Hub
unpair_session session_id browser_conn h = elim (lookup session_id h.pairs) [
  | none ↦ h
  | some p ↦
      if not (browser_conn == nil) && not (p.browser_conn == browser_conn)
      then h
      else record h { pairs = delete session_id h.pairs }
]

-- UnregisterBrowserConn
unfoldable pub unregister_browser_conn : String → Hub → Hub
unregister_browser_conn conn_id h = record h {
  conn_writes = elim (lookup conn_id h.conn_browsers) [
    | none ↦ h.conn_writes
    | some conn ↦ delete conn h.conn_writes
  ];
  conn_browsers = delete conn_id h.conn_browsers;
  browser_owners = delete conn_id h.browser_owners;
  conn_fails = delete conn_id h.conn_fails;
  conn_immich_fails = delete conn_id h.conn_immich_fails;
}

-- IncrementAuthFailure
unfoldable pub increment_auth_failure : String → Conn → String → Hub → ℕ × Hub
increment_auth_failure api_key_id agent_conn conn_id h =
    elim (browser_for_agent api_key_id agent_conn conn_id h) [
      | none ↦ (0, h)
      | some b ↦
          let n = index 0 conn_id h.conn_fails + 1 in
          (n, record h { conn_fails = insert conn_id n h.conn_fails })
    ]

-- IncrementImmichAuthFailure
unfoldable pub increment_immich_auth_failure : String → Conn → String → Hub → ℕ × Hub
increment_immich_auth_failure api_key_id agent_conn conn_id h =
    elim (browser_for_agent api_key_id agent_conn conn_id h) [
      | none ↦ (0, h)
      | some b ↦
          let n = index 0 conn_id h.conn_immich_fails + 1 in
          (n, record h { conn_immich_fails = insert conn_id n h.conn_immich_fails })
    ]

module _ {Msg Bytes : Type 0} (net : Network Msg Bytes) where
  -- ForwardToAgent
  unfoldable pub forward_to_agent : String → Msg → Hub → Sent Bytes
  forward_to_agent session_id msg h = elim (lookup session_id h.pairs) [
    | none ↦ silent net h none
    | some p ↦ send net h p.agent_conn msg
  ]

  -- ForwardToBrowser
  unfoldable pub forward_to_browser : String → Conn → String → Msg → Hub → Sent Bytes
  forward_to_browser api_key_id agent_conn session_id msg h = elim (lookup session_id h.pairs) [
    | none ↦ silent net h none
    | some p ↦
        if agent_owns_session api_key_id agent_conn session_id h && p.agent_conn == agent_conn
        then send net h p.browser_conn msg
        else silent net h none
  ]

  -- ForwardToBrowserByConnID
  unfoldable pub forward_to_browser_by_conn_id : String → Conn → String → Msg → Hub → Sent Bytes
  forward_to_browser_by_conn_id api_key_id agent_conn conn_id msg h =
      elim (browser_for_agent api_key_id agent_conn conn_id h) [
        | none ↦ silent net h none
        | some (conn, code) ↦ send net h conn msg
      ]

  -- CloseBrowserConnWithError
  unfoldable pub close_browser_conn_with_error : String → Conn → String → String → Hub → Sent Bytes
  close_browser_conn_with_error api_key_id agent_conn conn_id message h =
      elim (browser_for_agent api_key_id agent_conn conn_id h) [
        | none ↦ silent net h none
        | some (conn, code) ↦
            let s = send net h conn (net.error_message message) in
            record s { outputs = s.outputs ++ closes conn message ∷ []; error = none }
      ]
