-- ===== src/Registry/Sessions.antt =====
-- The state and the operations of signaling-server/internal/relay/registry.go. An instant is a
-- number, a socket is a number with 0 for nil, and a channel that is only ever closed is whether it
-- is closed. forwarded_bytes holds the bits of an int64. A wait is two operations: the look-up before
-- it, and what follows when the channel or the deadline comes first.
use share_bridge.Prelude.{
  ℕ, ◌+◌, ◌%◌, ◌^◌, Bool, true, false, not, ◌&&◌, List, [], ◌∷◌, String, none, some, Map, lookup,
  insert, delete, ◌=?◌, string_key, ltb, if◌then◌else◌, Result, ok, err,
}

pub data RegistryError : Type 0 where
  unknown_sid replay window_exceeded : RegistryError

pub data SessionState : Type 0 where
  pending_browser pending_agent active : SessionState

pub record PendingSession : Type 0 where
  pub sid : String
  pub account_id : String
  pub session_code : String
  pub agent_id : String
  pub relay_allowed : Bool
  pub relay_only : Bool
  pub expected_static_pub : String
  pub jti : String
  pub expires_at : ℕ

pub record SessionEntry : Type 0 where
  pub session : PendingSession
  pub agent_socket : ℕ
  pub browser_socket : ℕ
  pub is_active : Bool
  pub forwarded_bytes : ℕ
  pub agent_ready : Bool
  pub browser_ready : Bool

pub record Registry : Type 0 where
  pub pending_window : ℕ
  pub sessions : Map String SessionEntry
  pub spent_jti : Map String ℕ

-- NewRegistry
unfoldable pub new_registry : ℕ → Registry
new_registry window = record { pending_window = window; sessions = []; spent_jti = [] }

unfoldable pub new_entry : PendingSession → SessionEntry
new_entry session = record {
  session = session;
  agent_socket = 0;
  browser_socket = 0;
  is_active = false;
  forwarded_bytes = 0;
  agent_ready = false;
  browser_ready = false;
}

-- CreatePendingSession
unfoldable pub create_pending_session : PendingSession → Registry → Registry
unfolding new_entry
create_pending_session session r = record r {
  sessions = insert session.sid (new_entry session) r.sessions;
}

-- What a bind returns: the other side's socket and the state, or an error.
abbrev pub Bound : Type 0
Bound = Result RegistryError (ℕ × SessionState)

-- BindBrowserSocket, for an entry that has not expired: the other side may be there already.
unfoldable pub bind_browser_entry :
    String → String → ℕ → ℕ → SessionEntry → Registry → Bound × Registry
bind_browser_entry sid jti conn now e r =
    let spent = insert jti now r.spent_jti in
    let e' = record e { browser_socket = conn; browser_ready = true } in
    if e.agent_ready
    then (
      ok (e.agent_socket, active),
      record r {
        sessions = insert sid (record e' { is_active = true }) r.sessions;
        spent_jti = spent;
      },
    )
    else (
      ok (0, pending_browser),
      record r { sessions = insert sid e' r.sessions; spent_jti = spent },
    )

-- BindBrowserSocket
unfoldable pub bind_browser_socket : String → String → ℕ → ℕ → Registry → Bound × Registry
unfolding bind_browser_entry
bind_browser_socket sid jti conn now r = elim (lookup jti r.spent_jti) [
  | some t ↦ (err replay, r)
  | none ↦ elim (lookup sid r.sessions) [
    | none ↦ (err unknown_sid, r)
    | some e ↦
        if ltb e.session.expires_at now
        then (err unknown_sid, r)
        else bind_browser_entry sid jti conn now e r
  ]
]

-- BindAgentSocket, for an entry of this agent that has not expired.
unfoldable pub bind_agent_entry : String → ℕ → SessionEntry → Registry → Bound × Registry
bind_agent_entry sid conn e r =
    let e' = record e { agent_socket = conn; agent_ready = true } in
    if e.browser_ready
    then (
      ok (e.browser_socket, active),
      record r { sessions = insert sid (record e' { is_active = true }) r.sessions },
    )
    else (ok (0, pending_agent), record r { sessions = insert sid e' r.sessions })

-- BindAgentSocket
unfoldable pub bind_agent_socket : String → String → ℕ → ℕ → Registry → Bound × Registry
unfolding bind_agent_entry
bind_agent_socket sid agent_id conn now r = elim (lookup sid r.sessions) [
  | none ↦ (err unknown_sid, r)
  | some e ↦
      if ltb e.session.expires_at now
      then (err unknown_sid, r)
      else if not (e.session.agent_id =? "") && not (e.session.agent_id =? agent_id)
      then (err unknown_sid, r)
      else bind_agent_entry sid conn e r
]

-- cleanupSessionLocked. Whoever holds the entry sees its channels closed; the map forgets it.
unfoldable pub cleanup_session : String → Registry → Registry
cleanup_session sid r = elim (lookup sid r.sessions) [
  | none ↦ r
  | some e ↦ record r {
    sessions = delete sid r.sessions;
    spent_jti = delete e.session.jti r.spent_jti;
  }
]

-- WaitForAgent and WaitForBrowser up to the wait: the deadline.
unfoldable pub wait_deadline : String → ℕ → Registry → Result RegistryError ℕ
wait_deadline sid now r = elim (lookup sid r.sessions) [
  | none ↦ err unknown_sid
  | some e ↦
      let deadline = now + r.pending_window in
      ok (if ltb e.session.expires_at deadline then e.session.expires_at else deadline)
]

-- The end of either wait, by the channel (`true`) or by the deadline.
unfoldable pub wait_end :
    (SessionEntry → ℕ) → Bool → String → Registry → Result RegistryError ℕ × Registry
unfolding cleanup_session
wait_end socket false sid r = (err window_exceeded, cleanup_session sid r)
wait_end socket true sid r = elim (lookup sid r.sessions) [
  | none ↦ (err unknown_sid, r)
  | some e ↦ (ok (socket e), r)
]

-- WaitForAgent, after the wait.
unfoldable pub wait_for_agent : Bool → String → Registry → Result RegistryError ℕ × Registry
unfolding wait_end
wait_for_agent ready sid r = wait_end (λ e. e.agent_socket) ready sid r

-- WaitForBrowser, after the wait.
unfoldable pub wait_for_browser : Bool → String → Registry → Result RegistryError ℕ × Registry
unfolding wait_end
wait_for_browser ready sid r = wait_end (λ e. e.browser_socket) ready sid r

-- AddForwardedBytes
unfoldable pub add_forwarded_bytes : String → ℕ → Registry → Registry
add_forwarded_bytes sid n r = elim (lookup sid r.sessions) [
  | none ↦ r
  | some e ↦ record r {
    sessions =
        insert sid (record e { forwarded_bytes = (e.forwarded_bytes + n) % 2 ^ 64 }) r.sessions;
  }
]

-- Get
unfoldable pub get : String → Registry → Result RegistryError PendingSession
get sid r = elim (lookup sid r.sessions) [ none ↦ err unknown_sid | some e ↦ ok e.session ]

-- MarkDirectSuccess
unfoldable pub mark_direct_success : String → Registry → Registry
unfolding cleanup_session
mark_direct_success sid r = cleanup_session sid r

-- CloseSession
unfoldable pub close_session : String → Registry → Result RegistryError (String × ℕ) × Registry
unfolding cleanup_session
close_session sid r = elim (lookup sid r.sessions) [
  | none ↦ (err unknown_sid, r)
  | some e ↦ (ok (e.session.account_id, e.forwarded_bytes), cleanup_session sid r)
]

-- The test of CleanupExpired's loop.
unfoldable pub is_expired : ℕ → SessionEntry → Bool
is_expired now e = not e.is_active && ltb e.session.expires_at now

-- CleanupExpired's loop, over the entries that the map held when it began.
unfoldable pub cleanup_loop : ℕ → Map String SessionEntry → Registry → Registry
unfolding is_expired cleanup_session
cleanup_loop now [] r = r
cleanup_loop now ((sid, e) ∷ m) r =
    cleanup_loop now m (if is_expired now e then cleanup_session sid r else r)

-- CleanupExpired
unfoldable pub cleanup_expired : ℕ → Registry → Registry
unfolding cleanup_loop
cleanup_expired now r = cleanup_loop now r.sessions r

-- WatchSession: the done channel of an entry is open as long as the map holds the entry.
unfoldable pub watch_session : String → Registry → Result RegistryError (Unit {0})
watch_session sid r = elim (lookup sid r.sessions) [ none ↦ err unknown_sid | some e ↦ ok tt ]

pub data Event : Type 0 where
  creates : PendingSession → Event
  binds_browser binds_agent : String → String → ℕ → ℕ → Event
  ends_agent_wait ends_browser_wait : Bool → String → Event
  adds_bytes : String → ℕ → Event
  marks_direct closes : String → Event
  cleans : ℕ → Event

-- Any order in which the handlers take the registry's lock is a list of events.
unfoldable pub step : Event → Registry → Registry
unfolding create_pending_session bind_browser_socket bind_agent_socket wait_for_agent
    wait_for_browser add_forwarded_bytes mark_direct_success close_session cleanup_expired
step (creates session) r = create_pending_session session r
step (binds_browser sid jti conn now) r = (bind_browser_socket sid jti conn now r).1
step (binds_agent sid agent_id conn now) r = (bind_agent_socket sid agent_id conn now r).1
step (ends_agent_wait ready sid) r = (wait_for_agent ready sid r).1
step (ends_browser_wait ready sid) r = (wait_for_browser ready sid r).1
step (adds_bytes sid n) r = add_forwarded_bytes sid n r
step (marks_direct sid) r = mark_direct_success sid r
step (closes sid) r = (close_session sid r).1
step (cleans now) r = cleanup_expired now r

unfoldable pub run : List Event → Registry → Registry
unfolding step
run [] r = r
run (x ∷ xs) r = run xs (step x r)
