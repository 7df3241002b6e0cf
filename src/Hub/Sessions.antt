-- ===== src/Hub/Sessions.antt =====
-- Pairing a browser with an agent, and what a reconnect of the agent leaves in place.
use share_bridge.Prelude.{
  ◌≡◌, ◌≢◌, sym, ap, subst, ◌∙◌, inl, inr, ==_iff, String, some, arith, Map, lookup, index,
  string_key, nat_key, Option-cases, ok, lookup-insert, lookup-update, same_refl,
}
use text.Mathlib.TextEquality.{eq_iff}
use share_bridge.Hub.State.{Conn, nil, BrowserOwner, Hub}
use share_bridge.Hub.Ownership.{owner_browser, browser_for_agent}
use share_bridge.Hub.Agents.{register_agent, rebind_owner}
use share_bridge.Hub.Browsers.{bind_browser, pair_session}
use share_bridge.Hub.Fencing.{ensure_write_mu-eq}

-- The browser and the session of an agent's connection, with every check passed.
pub record Owns (key : String) (conn : Conn) (conn_id : String) (browser : Conn) (code : String)
    (h : Hub) : Type 0 where
  pub owner :
      lookup conn_id h.browser_owners
      ≡ some (record { api_key_id = key; session_id = code; agent_conn = conn })
  pub browser_conn : lookup conn_id h.conn_browsers ≡ some browser
  pub code_owner : lookup code h.codes ≡ some key
  pub agent : lookup key h.agents ≡ some conn
  pub named : key ≢ ""
  pub agent_present : conn ≢ nil
  pub browser_present : browser ≢ nil

pub Owns-browser_for_agent :
    (key : String) (conn : Conn) (conn_id : String) (browser : Conn) (code : String) (h : Hub)
    → Owns key conn conn_id browser code h
    → browser_for_agent key conn conn_id h ≡ some (browser, code)
unfolding browser_for_agent
Owns-browser_for_agent key conn conn_id browser code h o = ground (
  arith,
  o.owner,
  o.browser_conn,
  o.code_owner,
  o.agent,
  ==_iff browser nil,
  ==_iff conn nil,
  ==_iff conn conn,
  eq_iff key key,
  eq_iff key "",
  o.named,
  o.agent_present,
  o.browser_present,
)

pub browser_for_agent-Owns :
    (key : String) (conn : Conn) (conn_id : String) (browser : Conn) (code : String) (h : Hub)
    → browser_for_agent key conn conn_id h ≡ some (browser, code)
    → Owns key conn conn_id browser code h
unfolding browser_for_agent
browser_for_agent-Owns key conn conn_id browser code h e =
    elim (Option-cases (lookup conn_id h.browser_owners)) [
      | inl n ↦ absurd (ground arith)
      | inr (o, n) ↦ owned o n (rw (n, browser_for_agent) at e)
    ]
  where
    owned :
        (o : BrowserOwner)
        → lookup conn_id h.browser_owners ≡ some o
        → owner_browser key conn (index nil conn_id h.conn_browsers) o h ≡ some (browser, code)
        → Owns key conn conn_id browser code h
    owned o n e =
        let same_key = eq_iff o.api_key_id key in
        let code_key = eq_iff (index "" o.session_id h.codes) key in
        let empty_key = eq_iff key "" in
        record {
          owner = n ∙ ground (arith, same_key);
          browser_conn = ground arith;
          code_owner = ground (arith, code_key, empty_key);
          agent = ground arith;
          named = ground (arith, empty_key);
          agent_present = ground arith;
          browser_present = ground arith;
        }

rebind_owner-owned :
    (key : String) (new : Conn) (codes : Map String String) (conn_id code : String) (old : Conn)
    → lookup code codes ≡ some key
    → rebind_owner key new codes conn_id
        (record { api_key_id = key; session_id = code; agent_conn = old })
      ≡ record { api_key_id = key; session_id = code; agent_conn = new }
unfolding rebind_owner
rebind_owner-owned key new codes conn_id code old e = ground (arith, e, eq_iff key key)

-- A browser that an agent's connection reaches is reached, in the same session, by the connection,
-- not nil, with which the agent reconnects.
pub browser_for_agent-register_agent :
    (key : String) (old new : Conn) (conn_id : String) (browser : Conn) (code : String) (h : Hub)
    → new ≢ nil
    → browser_for_agent key old conn_id h ≡ some (browser, code)
    → browser_for_agent key new conn_id (register_agent key new h) ≡ some (browser, code)
unfolding register_agent
browser_for_agent-register_agent key old new conn_id browser code h n e =
    let o = browser_for_agent-Owns key old conn_id browser code h e in
    Owns-browser_for_agent key new conn_id browser code (register_agent key new h) (
      subst (Owns key new conn_id browser code) (sym (ensure_write_mu-eq new _)) (record {
        owner = rw lookup-update (
            rw o.owner
              (ap some (rebind_owner-owned key new h.codes conn_id code old o.code_owner)));
        browser_conn = o.browser_conn;
        code_owner = o.code_owner;
        agent = rw lookup-insert (simp same_refl);
        named = o.named;
        agent_present = n;
        browser_present = o.browser_present;
      }))

-- What a successful PairSession says.
pub pair_session_inv :
    (session conn_id key : String) (browser : Conn) (h k : Hub)
    → pair_session session conn_id key browser h ≡ ok k
    → (agent : Conn) × (lookup session h.codes ≡ some key)
      × (lookup key h.agents ≡ some agent)
      × (conn_id ≢ "")
      × (browser ≢ nil)
      × (k ≡ bind_browser session conn_id key browser agent h)
unfolding pair_session
pair_session_inv session conn_id key browser h k e = elim (Option-cases (lookup session h.codes)) [
  | inl n ↦ absurd (ground arith)
  | inr (owner, n) ↦ elim (Option-cases (lookup owner h.agents)) [
    | inl m ↦ absurd (ground arith)
    | inr (agent, m) ↦
        let same = eq_iff owner key in
        let named = eq_iff conn_id "" in
        (
          agent,
          ground (arith, same),
          ground (arith, same),
          ground (arith, named),
          ground arith,
          ground (arith, same),
        )
  ]
]
