-- ===== src/Hub/Pairing.antt =====
-- What PairSession and UnpairSession establish for the messages that follow.
use share_bridge.Prelude.{
  ◌≡◌, ◌≢◌, ◌==◌, not, ◌&&◌, if_elim, ap, ◌∙◌, refl, sym, subst, ==_iff, true, false, ◌=?◌, String,
  none, some, arith, lookup, string_key, nat_key, ok, lookup-insert, lookup-delete, same_refl,
}
use text.Mathlib.TextEquality.{eq_iff}
use share_bridge.Hub.State.{Conn, nil, Pair, Hub, Network, send}
use share_bridge.Hub.Ownership.{agent_owns_session, browser_for_agent}
use share_bridge.Hub.Browsers.{
  bind_browser, pair_session, unpair_session, forward_to_agent, forward_to_browser,
}
use share_bridge.Hub.Fencing.{ensure_write_mu-eq}
use share_bridge.Hub.Sessions.{Owns-browser_for_agent, pair_session_inv}

-- The hub in which a browser is bound to an agent's session.
pub record Bound (session conn_id key : String) (browser agent : Conn) (k : Hub) : Type 0 where
  pub pair :
      lookup session k.pairs
      ≡ some (record { api_key_id = key; agent_conn = agent; browser_conn = browser })
  pub owner :
      lookup conn_id k.browser_owners
      ≡ some (record { api_key_id = key; session_id = session; agent_conn = agent })
  pub browser_conn : lookup conn_id k.conn_browsers ≡ some browser
  pub code_owner : lookup session k.codes ≡ some key
  pub agent_conn : lookup key k.agents ≡ some agent

bind_browser-Bound :
    (session conn_id key : String) (browser agent : Conn) (h : Hub)
    → lookup session h.codes ≡ some key
    → lookup key h.agents ≡ some agent
    → Bound session conn_id key browser agent (bind_browser session conn_id key browser agent h)
unfolding bind_browser
bind_browser-Bound session conn_id key browser agent h c a =
    subst (Bound session conn_id key browser agent) (sym (ensure_write_mu-eq browser _)) (record {
      pair = rw lookup-insert (simp same_refl);
      owner = rw lookup-insert (simp same_refl);
      browser_conn = rw lookup-insert (simp same_refl);
      code_owner = c;
      agent_conn = a;
    })

Bound-owns_session :
    (session conn_id key : String) (browser agent : Conn) (k : Hub)
    → Bound session conn_id key browser agent k
    → key ≢ ""
    → agent ≢ nil
    → agent_owns_session key agent session k ≡ true
unfolding agent_owns_session
Bound-owns_session session conn_id key browser agent k b named present = ground (
  arith,
  b.code_owner,
  b.agent_conn,
  ==_iff agent nil,
  ==_iff agent agent,
  eq_iff key key,
  eq_iff key "",
  named,
  present,
)

-- When PairSession succeeds for a key that is not empty and whose agent's connection is not nil, the browser's messages go to the agent's connection, the agent's
-- messages for the session go to the browser, and the agent's connection resolves the browser's
-- identifier to that browser and session.
pub pair_session_routes :
    {Msg Bytes : Type 0} (net : Network Msg Bytes) (session conn_id key : String)
    (browser agent : Conn) (h k : Hub)
    → pair_session session conn_id key browser h ≡ ok k
    → lookup key h.agents ≡ some agent
    → key ≢ ""
    → agent ≢ nil
    → (browser_for_agent key agent conn_id k ≡ some (browser, session))
      × ((msg : Msg) → forward_to_agent net session msg k ≡ send net k agent msg)
      × ((msg : Msg) → forward_to_browser net key agent session msg k ≡ send net k browser msg)
pair_session_routes net session conn_id key browser agent h k e a named present =
    let (agent', c, a', id, there, eq) = pair_session_inv session conn_id key browser h k e in
    let same : agent' ≡ agent = cc in
    let b =
      subst (Bound session conn_id key browser agent)
        (sym (subst (λ x. k ≡ bind_browser session conn_id key browser x h) same eq))
        (bind_browser-Bound session conn_id key browser agent h c a) in
    let owns = Bound-owns_session session conn_id key browser agent k b named present in
    (
      Owns-browser_for_agent key agent conn_id browser session k (record {
        owner = b.owner;
        browser_conn = b.browser_conn;
        code_owner = b.code_owner;
        agent = b.agent_conn;
        named = named;
        agent_present = present;
        browser_present = there;
      }),
      (λ msg. unfold forward_to_agent in rw (b.pair, forward_to_agent)),
      λ msg.
          unfold forward_to_browser in
          rw (b.pair, forward_to_browser) (rw owns (ground (arith, ==_iff agent agent))),
    )

pairs-pair_session :
    (session conn_id key : String) (browser agent : Conn) (h : Hub) (other : String)
    → (session =? other) ≡ false
    → lookup other (bind_browser session conn_id key browser agent h).pairs ≡ lookup other h.pairs
unfolding bind_browser
pairs-pair_session session conn_id key browser agent h other n =
    ap (λ (k : Hub). lookup other k.pairs) (ensure_write_mu-eq browser _) ∙ rw (lookup-insert, n)

-- The end of a session: its pair is gone, and the other pairs and maps are as they were.
pub record Unpaired (session : String) (h k u : Hub) : Type 0 where
  pub gone : lookup session u.pairs ≡ none
  pub others :
      (other : String) → (session =? other) ≡ false → lookup other u.pairs ≡ lookup other h.pairs
  pub rest : u ≡ record k { pairs = u.pairs }

unpair_session-Unpaired :
    (session : String) (browser : Conn) (p : Pair) (h k : Hub)
    → lookup session k.pairs ≡ some p
    → p.browser_conn ≡ browser
    → ((other : String) → (session =? other) ≡ false → lookup other k.pairs ≡ lookup other h.pairs)
    → Unpaired session h k (unpair_session session browser k)
unfolding unpair_session
unpair_session-Unpaired session browser p h k e same frame =
    rw (e, unpair_session, (==_iff p.browser_conn browser).1 same)
      (if_elim (Unpaired session h k) (not (browser == nil) && not true)
        (λ b. absurd (ground (arith, b)))
        (λ b. record {
          gone = rw lookup-delete (simp same_refl);
          others = λ other n. rw (lookup-delete, n) (frame other n);
          rest = refl;
        }))

unpair_session-replaced :
    (session : String) (old : Conn) (p : Pair) (k : Hub)
    → lookup session k.pairs ≡ some p
    → old ≢ nil
    → p.browser_conn ≢ old
    → unpair_session session old k ≡ k
unfolding unpair_session
unpair_session-replaced session old p k e present differ =
    rw (e, unpair_session) (ground (arith, ==_iff old nil, ==_iff p.browser_conn old))

-- After a PairSession that succeeds, for a key whose agent is the given connection, the cleanup of any
-- other browser's connection leaves the hub as it is, and the cleanup of the paired browser's
-- connection ends the session: its pair is gone, every other pair is as it was before the pairing, and
-- the hub's other maps stay.
pub unpair_session_lem :
    (session conn_id key : String) (browser agent old : Conn) (h k : Hub)
    → pair_session session conn_id key browser h ≡ ok k
    → lookup key h.agents ≡ some agent
    → old ≢ nil
    → old ≢ browser
    → (unpair_session session old k ≡ k) × Unpaired session h k (unpair_session session browser k)
unpair_session_lem session conn_id key browser agent old h k e a present differ =
    let (agent', c, a', id, there, eq) = pair_session_inv session conn_id key browser h k e in
    let same : agent' ≡ agent = cc in
    let bound = subst (λ x. k ≡ bind_browser session conn_id key browser x h) same eq in
    let b =
      subst (Bound session conn_id key browser agent) (sym bound)
        (bind_browser-Bound session conn_id key browser agent h c a) in
    (
      unpair_session-replaced session old _ k b.pair present (λ x. differ (sym x)),
      unpair_session-Unpaired session browser _ h k b.pair refl (
          subst
            (λ (x : Hub).
              (other : String)
              → (session =? other) ≡ false
              → lookup other x.pairs ≡ lookup other h.pairs)
            (sym bound) (pairs-pair_session session conn_id key browser agent h)),
    )
