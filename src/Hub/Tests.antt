-- ===== src/Hub/Tests.antt =====
-- The hub at concrete inputs. A message is a number, encoded as itself; nobody can be told 9, and no
-- write to connection 4 succeeds.
use share_bridge.Prelude.{
  ℕ, ◌==◌, ◌≡◌, refl, not, [], ◌∷◌, none, some, lookup, string_key, if◌then◌else◌, ok, arith,
  IsDistinct,
}
use text.Mathlib.TextEquality.{eq_iff}
use share_bridge.Hub.State.{Hub, Network, new_hub, send}
use share_bridge.Hub.Ownership.{browser_for_agent}
use share_bridge.Hub.Agents.{register_agent, close_agent}
use share_bridge.Hub.Browsers.{
  bind_browser, pair_session, unpair_session, forward_to_agent, forward_to_browser,
}
use share_bridge.Hub.Fencing.{Fenced, superseded_agent}
use share_bridge.Hub.Sessions.{browser_for_agent-register_agent}
use share_bridge.Hub.Pairing.{pair_session_routes, Unpaired, unpair_session_lem}
use share_bridge.Hub.Revocation.{Revoked, close_agent_revokes}

abbrev net : Network ℕ ℕ
net = record {
  marshal = λ n. if n == 9 then none else some n;
  accepts = λ conn bytes. not (conn == 4);
  error_message = λ s. 1;
}

-- Agent 1 of key "k" has registered the code "c".
abbrev waiting : Hub
waiting = record new_hub { agents = ("k", 1) ∷ []; codes = ("c", "k") ∷ ("d", "l") ∷ [] }

-- Browser 2, known as "b", has joined.
abbrev paired : Hub
paired = record {
  agents = ("k", 1) ∷ [];
  codes = ("c", "k") ∷ ("d", "l") ∷ [];
  pairs = ("c", record { api_key_id = "k"; agent_conn = 1; browser_conn = 2 }) ∷ [];
  conn_browsers = ("b", 2) ∷ [];
  browser_owners = ("b", record { api_key_id = "k"; session_id = "c"; agent_conn = 1 }) ∷ [];
  conn_fails = [];
  conn_immich_fails = [];
  conn_writes = (1, tt) ∷ (2, tt) ∷ [];
}

superseded_agent_example : Fenced net "k" 1 (register_agent "k" 5 paired)
superseded_agent_example = superseded_agent net "k" 1 5 paired (omega arith)

reached : browser_for_agent "k" 1 "b" paired ≡ some (2, "c")
unfolding browser_for_agent
reached = refl

browser_for_agent-register_agent_example :
    browser_for_agent "k" 5 "b" (register_agent "k" 5 paired) ≡ some (2, "c")
browser_for_agent-register_agent_example =
    browser_for_agent-register_agent "k" 1 5 "b" 2 "c" paired (omega arith) reached

abbrev joined : Hub
joined = bind_browser "c" "b" "k" 2 1 waiting

joins : pair_session "c" "b" "k" 2 waiting ≡ ok joined
unfolding pair_session
joins = refl

agent_here : lookup "k" waiting.agents ≡ some 1
unfolding lookup
agent_here = refl

pair_session_routes_example :
    (browser_for_agent "k" 1 "b" joined ≡ some (2, "c"))
    × ((msg : ℕ) → forward_to_agent net "c" msg joined ≡ send net joined 1 msg)
    × ((msg : ℕ) → forward_to_browser net "k" 1 "c" msg joined ≡ send net joined 2 msg)
pair_session_routes_example =
    pair_session_routes net "c" "b" "k" 2 1 waiting joined joins agent_here
      (ground (arith, eq_iff "k" "")) (omega arith)

unpair_session_lem_example :
    (unpair_session "c" 3 joined ≡ joined)
    × Unpaired "c" waiting joined (unpair_session "c" 2 joined)
unpair_session_lem_example =
    unpair_session_lem "c" "b" "k" 2 1 3 waiting joined joins agent_here (omega arith) (omega arith)

codes-IsDistinct : IsDistinct paired.codes
unfolding lookup
codes-IsDistinct = (refl, (refl, tt))

close_agent_revokes_example : Revoked "k" paired (close_agent net "k" paired)
close_agent_revokes_example = close_agent_revokes net "k" paired codes-IsDistinct
