-- ===== src/Hub/Agents.antt =====
-- The operations of signaling-server/internal/hub/hub.go on agents and share codes.
use share_bridge.Prelude.{
  ◌==◌, Bool, true, false, not, ◌&&◌, List, [], ◌∷◌, ◌++◌, map, String, Option, none, some, Map,
  lookup, insert, delete, update, index, ◌=?◌, string_key, nat_key, if◌then◌else◌,
}
use share_bridge.Hub.State.{
  Conn, nil, Pair, BrowserOwner, Hub, agent_not_connected, Network, closes_now, closes, Sent,
  ensure_write_mu, send, silent,
}

-- The body of RegisterAgent's loop over the pairs.
unfoldable pub rebind_pair : String → Conn → Map String String → String → Pair → Pair
unfolding lookup
rebind_pair api_key conn codes code p =
    if p.api_key_id =? api_key && index "" code codes =? api_key
    then record { api_key_id = api_key; agent_conn = conn; browser_conn = p.browser_conn }
    else p

-- The body of its loop over the browsers.
unfoldable pub rebind_owner :
    String → Conn → Map String String → String → BrowserOwner → BrowserOwner
unfolding lookup
rebind_owner api_key conn codes conn_id owner =
    if owner.api_key_id =? api_key && index "" owner.session_id codes =? api_key
    then record owner { agent_conn = conn }
    else owner

-- RegisterAgent
unfoldable pub register_agent : String → Conn → Hub → Hub
unfolding ensure_write_mu
register_agent api_key conn h = ensure_write_mu conn (record h {
  agents = insert api_key conn h.agents;
  pairs = update (rebind_pair api_key conn h.codes) h.pairs;
  browser_owners = update (rebind_owner api_key conn h.codes) h.browser_owners;
})

-- UnregisterAgent
unfoldable pub unregister_agent : String → Conn → Hub → Hub
unregister_agent api_key expected h =
    if expected == nil
    then h
    else let h' = record h { conn_writes = delete expected h.conn_writes } in
      if not (index nil api_key h'.agents == expected)
      then h'
      else record h' { agents = delete api_key h'.agents }

-- AgentConnected
unfoldable pub agent_connected : String → Hub → Bool
agent_connected api_key h = elim (lookup api_key h.agents) [ none ↦ false | some c ↦ true ]

-- RegisterCode
unfoldable pub register_code : String → String → Hub → Hub
register_code code api_key h = record h { codes = insert code api_key h.codes }

-- GetAgentConn
unfoldable pub get_agent_conn : String → Hub → Option Conn
get_agent_conn code h = elim (lookup code h.codes) [
  | none ↦ none
  | some api_key ↦ lookup api_key h.agents
]

-- The keys of the codes that belong to an agent, as CloseAgent's loop collects them.
unfoldable pub stale_codes : String → Map String String → List String
stale_codes api_key [] = []
stale_codes api_key ((code, key) ∷ m) =
    let rest = stale_codes api_key m in if key =? api_key then code ∷ rest else rest

unfoldable pub delete_all {ℓ} : {V : Type ℓ} → List String → Map String V → Map String V
unfolding delete
delete_all [] m = m
delete_all (k ∷ ks) m = delete_all ks (delete k m)

-- The browsers of the pairs of these codes, nil ones left out.
unfoldable pub paired_browsers : List String → Map String Pair → List Conn
unfolding lookup delete
paired_browsers [] pairs = []
paired_browsers (code ∷ codes) pairs =
    let rest = paired_browsers codes (delete code pairs) in
    elim (lookup code pairs) [
      | none ↦ rest
      | some p ↦ if p.browser_conn == nil then rest else p.browser_conn ∷ rest
    ]

unfoldable pub delete_writes : List Conn → Map Conn (Unit {0}) → Map Conn (Unit {0})
unfolding delete
delete_writes [] m = m
delete_writes (c ∷ cs) m = delete_writes cs (delete c m)

-- The agent's own connection, where the source closes it.
unfoldable pub revoked_conn : String → Hub → List Conn
unfolding lookup
revoked_conn api_key h = elim (lookup api_key h.agents) [
  | none ↦ []
  | some c ↦ if c == nil then [] else c ∷ []
]

module _ {Msg Bytes : Type 0} (net : Network Msg Bytes) where
  -- UnregisterCode, once the owner is checked.
  unfoldable pub drop_code : String → String → Hub → Sent Bytes
  drop_code code reason h =
      let h' = record h { codes = delete code h.codes; pairs = delete code h.pairs } in
      elim (lookup code h.pairs) [
        | none ↦ silent net h' none
        | some p ↦
            if p.browser_conn == nil
            then silent net h' none
            else let s = send net h' p.browser_conn (net.error_message reason) in
              record s { outputs = s.outputs ++ closes_now p.browser_conn ∷ []; error = none }
      ]

  -- UnregisterCode
  unfoldable pub unregister_code : String → String → String → Hub → Sent Bytes
  unfolding drop_code
  unregister_code code api_key reason h = elim (lookup code h.codes) [
    | none ↦ silent net h none
    | some owner ↦ if not (owner =? api_key) then silent net h none else drop_code code reason h
  ]

  -- SendToAgent
  unfoldable pub send_to_agent : String → Msg → Hub → Sent Bytes
  send_to_agent api_key msg h = elim (lookup api_key h.agents) [
    | none ↦ silent net h (some agent_not_connected)
    | some conn ↦ send net h conn msg
  ]

  -- CloseAgent
  unfoldable pub close_agent : String → Hub → Sent Bytes
  unfolding stale_codes delete_all paired_browsers delete_writes revoked_conn
  close_agent api_key h =
      let stale = stale_codes api_key h.codes in
      let own = revoked_conn api_key h in
      let browsers = paired_browsers stale h.pairs in
      record {
        hub = record h {
          agents = delete api_key h.agents;
          codes = delete_all stale h.codes;
          pairs = delete_all stale h.pairs;
          conn_writes = delete_writes browsers (delete_writes own h.conn_writes);
        };
        outputs =
            map (λ c. closes c "API key revoked") own
            ++ map (λ c. closes c "agent disconnected") browsers;
        error = none;
      }
