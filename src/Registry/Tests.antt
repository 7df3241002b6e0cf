-- ===== src/Registry/Tests.antt =====
-- The registry at concrete inputs.
use share_bridge.Prelude.{
  ◌≡◌, ◌≢◌, refl, inr, true, false, [], ◌∷◌, none, some, lookup, IsDistinct, string_key, ok, err,
  arith,
}
use text.Mathlib.TextEquality.{eq_iff}
use share_bridge.Registry.Sessions
use share_bridge.Registry.Sessions.{
  PendingSession, SessionEntry, active, pending_browser, pending_agent, Registry, unknown_sid,
  new_registry, new_entry, cleanup_expired, create_pending_session, bind_browser_socket,
  bind_agent_socket, close_session, adds_bytes, cleans, closes,
}
use share_bridge.Registry.Replay.{OwnToken, token_binds_once}
use share_bridge.Registry.Cleanup.{kept, lookup-cleanup_expired}
use share_bridge.Registry.Meeting.{
  met, add_all, browser_then_agent, agent_then_browser, close_session_total,
}

abbrev film : PendingSession
film = record {
  sid = "s";
  account_id = "a";
  session_code = "c";
  agent_id = "k";
  relay_allowed = true;
  relay_only = false;
  expected_static_pub = "p";
  jti = "j";
  expires_at = 100;
}

abbrev held : SessionEntry
held = record {
  session = film;
  agent_socket = 0;
  browser_socket = 0;
  is_active = false;
  forwarded_bytes = 3;
  agent_ready = false;
  browser_ready = false;
}

abbrev one : Registry
one = record { pending_window = 30; sessions = ("s", held) ∷ []; spent_jti = [] }

own : OwnToken "s" "j" one
unfolding lookup
own s e n differ = ground (arith, eq_iff "s" s)

binds : (bind_browser_socket "s" "j" 2 10 one).0 ≡ ok (0, pending_browser)
unfolding bind_browser_socket lookup
binds = refl

token_binds_once_example :
    (bind_browser_socket "s" "j" 3 12
      (Sessions.run (adds_bytes "s" 5 ∷ cleans 11 ∷ []) (bind_browser_socket "s" "j" 2 10 one).1)).0
    ≢ ok (0, pending_browser)
token_binds_once_example =
    token_binds_once "s" "j" 2 10 3 12 one (adds_bytes "s" 5 ∷ cleans 11 ∷ []) (0, pending_browser)
      (0, pending_browser) own binds (tt, (tt, tt))

unspent : lookup "j" (new_registry 30).spent_jti ≡ none
unfolding new_registry lookup
unspent = refl

browser_then_agent_example :
    let first = bind_browser_socket "s" "j" 2 10 (create_pending_session film (new_registry 30)) in
    let second = bind_agent_socket "s" "k" 1 20 first.1 in
    (first.0 ≡ ok (0, pending_browser))
    × (second.0 ≡ ok (2, active))
    × (lookup "s" second.1.sessions ≡ some (met film 2 1))
browser_then_agent_example =
    browser_then_agent film (new_registry 30) "j" "k" 2 1 10 20 unspent (inr refl) (omega arith)
      (omega arith)

agent_then_browser_example :
    let first = bind_agent_socket "s" "k" 1 10 (create_pending_session film (new_registry 30)) in
    let second = bind_browser_socket "s" "j" 2 20 first.1 in
    (first.0 ≡ ok (0, pending_agent))
    × (second.0 ≡ ok (1, active))
    × (lookup "s" second.1.sessions ≡ some (met film 2 1))
agent_then_browser_example =
    agent_then_browser film (new_registry 30) "j" "k" 2 1 10 20 unspent (inr refl) (omega arith)
      (omega arith)

held_here : lookup "s" one.sessions ≡ some held
unfolding lookup
held_here = refl

close_session_total_example :
    let closed = close_session "s" (add_all "s" (4 ∷ 5 ∷ []) one) in
    (closed.0 ≡ ok ("a", 12)) × ((close_session "s" closed.1).0 ≡ err unknown_sid)
close_session_total_example = close_session_total "s" (4 ∷ 5 ∷ []) held one held_here (omega arith)

one-IsDistinct : IsDistinct one.sessions
unfolding lookup
one-IsDistinct = (refl, tt)

lookup-cleanup_expired_example :
    lookup "s" (cleanup_expired 101 one).sessions ≡ kept 101 (lookup "s" one.sessions)
lookup-cleanup_expired_example = lookup-cleanup_expired 101 "s" one one-IsDistinct
