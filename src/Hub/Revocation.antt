-- ===== src/Hub/Revocation.antt =====
-- CloseAgent: what is left of an agent whose key is revoked.
use share_bridge.Prelude.{
  ◌≡◌, ◌≢◌, sym, map, nat_key, refl, ap, ◌∙◌, Bool, true, false, List, [], ◌∷◌, String, Option,
  none, some, arith, Map, lookup, delete, ◌=?◌, string_key, if◌then◌else◌, lookup-delete, same_refl,
  IsDistinct,
}
use text.Mathlib.TextEquality.{eq_iff}
use share_bridge.Hub.State.{Conn, nil, Pair, Hub, Network, closes, Sent}
use share_bridge.Hub.Disconnects.{
  contains, Has, Has-append_left, Has-append_right, Has-map, Has-revoked_conn, Has-paired_browsers,
  delete_writes-other, revoked_conn-Has, paired_browsers-Has,
}
use share_bridge.Hub.Agents.{
  close_agent, stale_codes, delete_all, paired_browsers, delete_writes, revoked_conn,
}

module _ {ℓ} {V : Type ℓ} where
  lookup-delete_all :
      (ks : List String) (m : Map String V) (j : String)
      → lookup j (delete_all ks m) ≡ (if contains j ks then none else lookup j m)
  unfolding delete_all
  lookup-delete_all [] m j = refl
  lookup-delete_all (k ∷ ks) m j =
      ground (arith, lookup-delete_all ks (delete k m) j, lookup-delete k m j)

-- A code whose owner is known is stale exactly when the owner is the revoked key.
abbrev owned_by : String → Option String → Bool
owned_by key none = false
owned_by key (some k) = k =? key

contains-stale_codes :
    (key code : String) (m : Map String String)
    → IsDistinct m
    → contains code (stale_codes key m) ≡ owned_by key (lookup code m)
unfolding stale_codes lookup
contains-stale_codes key code [] d = refl
contains-stale_codes key code ((c, k) ∷ m) d =
    ground (arith, contains-stale_codes key code m d.1, eq_iff c code, d.0)

owned-stale_codes :
    (key code : String) (h : Hub)
    → IsDistinct h.codes
    → lookup code h.codes ≡ some key
    → contains code (stale_codes key h.codes) ≡ true
owned-stale_codes key code h d e =
    contains-stale_codes key code h.codes d ∙ ap (owned_by key) e ∙ same_refl key

not_owned : (key : String) (o : Option String) → o ≢ some key → owned_by key o ≡ false
not_owned key none n = refl
not_owned key (some k) n = ground (arith, eq_iff k key)

stale_codes-owned :
    (key code : String) (h : Hub)
    → IsDistinct h.codes
    → contains code (stale_codes key h.codes) ≡ true
    → lookup code h.codes ≡ some key
stale_codes-owned key code h d e =
    owner (lookup code h.codes) (sym (contains-stale_codes key code h.codes d) ∙ e)
  where
    owner : (o : Option String) → owned_by key o ≡ true → o ≡ some key
    owner none x = absurd (cc x)
    owner (some k) x = ap some ((eq_iff k key).0 x)

-- What CloseAgent leaves of a hub, what it sends, and what it does not touch.
pub record Revoked {Bytes : Type 0} (key : String) (h : Hub) (s : Sent Bytes) : Type 0 where
  pub agent_gone : lookup key s.hub.agents ≡ none
  pub agents_stay :
      (other : String) → (key =? other) ≡ false → lookup other s.hub.agents ≡ lookup other h.agents
  pub codes_gone :
      (code : String)
      → lookup code h.codes ≡ some key
      → (lookup code s.hub.codes ≡ none) × (lookup code s.hub.pairs ≡ none)
  pub codes_stay :
      (code : String)
      → lookup code h.codes ≢ some key
      → (lookup code s.hub.codes ≡ lookup code h.codes)
        × (lookup code s.hub.pairs ≡ lookup code h.pairs)
  pub others_stay : s.hub ≡ record h {
    agents = s.hub.agents;
    codes = s.hub.codes;
    pairs = s.hub.pairs;
    conn_writes = s.hub.conn_writes;
  }
  pub agent_closed :
      (conn : Conn)
      → lookup key h.agents ≡ some conn
      → conn ≢ nil
      → Has (closes conn "API key revoked") s.outputs
  pub browsers_closed :
      (code : String) (p : Pair)
      → lookup code h.codes ≡ some key
      → lookup code h.pairs ≡ some p
      → p.browser_conn ≢ nil
      → Has (closes p.browser_conn "agent disconnected") s.outputs
  pub writes_stay :
      (c : Conn)
      → lookup key h.agents ≢ some c
      → ((code : String) (p : Pair)
          → lookup code h.codes ≡ some key
          → lookup code h.pairs ≡ some p
          → p.browser_conn ≢ c)
      → lookup c s.hub.conn_writes ≡ lookup c h.conn_writes
  pub succeeds : s.error ≡ none

-- The keys of `codes` being distinct, after CloseAgent the key has no connection, and exactly the codes
-- that it owned are gone, together with their pairs; every other code, pair and agent is as it was, and
-- so are the browsers, their owners and the counts of failures, and the write mutex of every
-- connection that is neither the agent's nor a browser's of such a pair. The agent's connection is
-- closed with "API key revoked", and the browser of every pair of such a code with "agent
-- disconnected", where they are not nil.
pub close_agent_revokes :
    {Msg Bytes : Type 0} (net : Network Msg Bytes) (key : String) (h : Hub)
    → IsDistinct h.codes
    → Revoked key h (close_agent net key h)
unfolding close_agent
close_agent_revokes net key h d =
    let own = revoked_conn key h in
    let stale = stale_codes key h.codes in
    let browsers = paired_browsers stale h.pairs in
    record {
      agent_gone = rw lookup-delete (simp same_refl);
      agents_stay = λ other n. rw (lookup-delete, n);
      codes_gone = λ code e.
          let s = owned-stale_codes key code h d e in
          (rw (lookup-delete_all, s), rw (lookup-delete_all, s));
      codes_stay = λ code n.
          let s : contains code (stale_codes key h.codes) ≡ false =
            contains-stale_codes key code h.codes d ∙ not_owned key (lookup code h.codes) n in
          (rw (lookup-delete_all, s), rw (lookup-delete_all, s));
      others_stay = refl;
      agent_closed = λ conn e present.
          Has-append_left _ (map (λ c. closes c "API key revoked") own) _ (
            Has-map (λ c. closes c "API key revoked") conn own
              (Has-revoked_conn key conn h e present));
      browsers_closed = λ code p owned e present.
          Has-append_right _ (map (λ c. closes c "API key revoked") own) _ (
            Has-map (λ c. closes c "agent disconnected") p.browser_conn browsers
              (Has-paired_browsers stale h.pairs code p (owned-stale_codes key code h d owned) e
                present));
      writes_stay = λ c apart free.
          delete_writes-other browsers (delete_writes own h.conn_writes) c (λ x.
            let (code, p, there, found, same) = paired_browsers-Has stale h.pairs c x in
            absurd (free code p (stale_codes-owned key code h d there) found same))
          ∙ delete_writes-other own h.conn_writes c
              (λ x. absurd (apart (revoked_conn-Has key c h x)));
      succeeds = refl;
    }
