-- ===== src/Registry/Cleanup.antt =====
-- What CleanupExpired of signaling-server/internal/relay/registry.go takes out.
use share_bridge.Prelude.{
  ℕ, ◌≡◌, refl, sym, ap, ◌∙◌, inl, inr, [], ◌∷◌, String, Option, none, some, Map, lookup, ◌=?◌,
  string_key, if◌then◌else◌, arith, Option-cases, Bool-cases, lookup-delete, IsDistinct,
}
use text.Mathlib.TextEquality.{eq_iff}
use share_bridge.Registry.Sessions.{
  SessionEntry, Registry, cleanup_session, is_expired, cleanup_loop, cleanup_expired,
}

lookup-cleanup_session :
    (sid s : String) (r : Registry)
    → lookup s (cleanup_session sid r).sessions ≡ (if sid =? s then none else lookup s r.sessions)
unfolding cleanup_session
lookup-cleanup_session sid s r = elim (Option-cases (lookup sid r.sessions)) [
  | inl n ↦ rw (n, cleanup_session) (ground (arith, eq_iff sid s, n))
  | inr (e, n) ↦ rw (n, cleanup_session) (lookup-delete sid r.sessions s)
]

-- What is left of an entry.
abbrev pub kept : ℕ → Option SessionEntry → Option SessionEntry
kept now none = none
kept now (some e) = if is_expired now e then none else some e

abbrev after : ℕ → Option SessionEntry → Option SessionEntry → Option SessionEntry
after now none here = here
after now (some e) here = if is_expired now e then none else here

cleanup_one :
    (now : ℕ) (sid s : String) (e : SessionEntry) (r : Registry)
    → lookup s (if is_expired now e then cleanup_session sid r else r).sessions
      ≡ (if sid =? s then after now (some e) (lookup s r.sessions) else lookup s r.sessions)
cleanup_one now sid s e r = elim (Bool-cases (is_expired now e)) [
  | inl x ↦ rw x (lookup-cleanup_session sid s r)
  | inr x ↦ rw x (ground arith)
]

lookup-cleanup_loop :
    (now : ℕ) (s : String) (m : Map String SessionEntry) (r : Registry)
    → IsDistinct m
    → lookup s (cleanup_loop now m r).sessions ≡ after now (lookup s m) (lookup s r.sessions)
unfolding cleanup_loop lookup
lookup-cleanup_loop now s [] r d = refl
lookup-cleanup_loop now s ((sid, e) ∷ m) r d =
    let one = cleanup_one now sid s e r in
    let rest =
      lookup-cleanup_loop now s m (if is_expired now e then cleanup_session sid r else r) d.1 in
    rest ∙ ap (after now (lookup s m)) one ∙ elim (Bool-cases (sid =? s)) [
      | inl x ↦
          let gone : lookup s m ≡ none = ap (λ k. lookup k m) (sym ((eq_iff sid s).0 x)) ∙ d.0 in
          rw (x, gone)
      | inr x ↦ rw x
    ]

-- The keys of the map being distinct, CleanupExpired takes out exactly the sessions that are not active
-- and whose time is over: every other session is as it was.
pub lookup-cleanup_expired :
    (now : ℕ) (s : String) (r : Registry)
    → IsDistinct r.sessions
    → lookup s (cleanup_expired now r).sessions ≡ kept now (lookup s r.sessions)
unfolding cleanup_expired
lookup-cleanup_expired now s r d =
    lookup-cleanup_loop now s r.sessions r d
    ∙ elim (Option-cases (lookup s r.sessions)) [ inl n ↦ rw n | inr (e, n) ↦ rw n ]
