-- ===== src/Hub/Ownership.antt =====
-- signaling-server/internal/hub/ownership.go.
use share_bridge.Prelude.{
  ◌==◌, Bool, not, ◌&&◌, ◌||◌, String, Option, none, some, lookup, index, ◌=?◌, string_key,
  if◌then◌else◌,
}
use share_bridge.Hub.State.{Conn, nil, BrowserOwner, Hub}

-- IsCurrentAgent
unfoldable pub is_current_agent : String → Conn → Hub → Bool
unfolding lookup
is_current_agent api_key_id conn h =
    not (api_key_id =? "") && not (conn == nil) && index nil api_key_id h.agents == conn

-- agentOwnsSessionLocked
unfoldable pub agent_owns_session : String → Conn → String → Hub → Bool
unfolding lookup
agent_owns_session api_key_id conn code h =
    not (api_key_id =? "")
    && not (conn == nil)
    && index nil api_key_id h.agents == conn
    && index "" code h.codes =? api_key_id

-- The checks of browserForAgentLocked, for an owner that is there.
unfoldable pub owner_browser : String → Conn → Conn → BrowserOwner → Hub → Option (Conn × String)
unfolding agent_owns_session
owner_browser api_key_id conn browser owner h =
    if browser == nil
      || not (owner.api_key_id =? api_key_id)
      || not (owner.agent_conn == conn)
      || not (agent_owns_session api_key_id conn owner.session_id h)
    then none
    else some (browser, owner.session_id)

-- browserForAgentLocked
unfoldable pub browser_for_agent : String → Conn → String → Hub → Option (Conn × String)
unfolding owner_browser lookup
browser_for_agent api_key_id conn conn_id h = elim (lookup conn_id h.browser_owners) [
  | none ↦ none
  | some owner ↦ owner_browser api_key_id conn (index nil conn_id h.conn_browsers) owner h
]

-- BrowserSessionForAgent
unfoldable pub browser_session_for_agent : String → Conn → String → Hub → Option String
unfolding browser_for_agent
browser_session_for_agent api_key_id conn conn_id h =
    elim (browser_for_agent api_key_id conn conn_id h) [ none ↦ none | some (b, code) ↦ some code ]
