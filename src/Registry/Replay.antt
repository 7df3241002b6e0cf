-- ===== src/Registry/Replay.antt =====
-- A browser's relay token is good for one bind.
use share_bridge.Prelude.{
  ℕ, ◌≡◌, ◌≢◌, sym, ap, ◌∙◌, ◌⊎◌, inl, inr, Bool, true, false, List, [], ◌∷◌, String, none, some,
  Map, lookup, insert, ◌=?◌, string_key, ltb, if◌then◌else◌, ok, arith, Bool-cases, Option-cases,
  lookup-insert, lookup-delete, same_refl,
}
use text.Mathlib.TextEquality.{eq_iff}
use share_bridge.Registry.Sessions.{
  PendingSession, SessionEntry, SessionState, Registry, new_entry, create_pending_session,
  bind_browser_entry, bind_browser_socket, cleanup_session, wait_end, close_session, is_expired,
  cleanup_loop, Event, creates, binds_browser, binds_agent, ends_agent_wait, ends_browser_wait,
  adds_bytes, marks_direct, closes, cleans, step, run,
}
use share_bridge.Registry.Continues.{
  Continues, bind_browser-Continues, bind_agent-Continues, add_bytes-Continues,
}

module _ (sid jti : String) where
  -- No session but `sid` was made with the token identifier `jti`.
  abbrev pub OwnToken : Registry → Type 0
  OwnToken r =
      (s : String) (e : SessionEntry) → lookup s r.sessions ≡ some e → s ≢ sid → e.session.jti ≢ jti

  -- The token is used up, or its session is over.
  pub record Spent (r : Registry) : Type 0 where
    pub own : OwnToken r
    pub used : (lookup sid r.sessions ≡ none) ⊎ ((t : ℕ) × (lookup jti r.spent_jti ≡ some t))

Continues-Spent :
    (sid jti : String) (r t : Registry) → Continues r t → Spent sid jti r → Spent sid jti t
Continues-Spent sid jti r t c s = record {
  own = λ x e h n.
      let (d, g, same) = c.back x e h in
      λ j. s.own x d g n (ap (λ (p : PendingSession). p.jti) (sym same) ∙ j);
  used = elim s.used [
    | inl gone ↦ elim (Option-cases (lookup sid t.sessions)) [
      | inl n ↦ inl n
      | inr (e, n) ↦ let (d, g, same) = c.back sid e n in absurd (ground arith)
    ]
    | inr (n, h) ↦ inr (c.kept jti n h)
  ];
}

cleanup-Spent :
    (sid jti s : String) (r : Registry) → Spent sid jti r → Spent sid jti (cleanup_session s r)
unfolding cleanup_session
cleanup-Spent sid jti s r p = elim (Option-cases (lookup s r.sessions)) [
  | inl n ↦ rw (n, cleanup_session) p
  | inr (e, n) ↦
      rw (n, cleanup_session)
        (record {
          own = λ x d h differ. p.own x d (ground (arith, lookup-delete s r.sessions x)) differ;
          used = elim (Bool-cases (s =? sid)) [
            | inl y ↦ inl (rw (lookup-delete, y))
            | inr m ↦
                let other : s ≢ sid = ground (arith, eq_iff s sid) in
                let token = p.own s e n other in
                let differ : (e.session.jti =? jti) ≡ false =
                  ground (arith, eq_iff e.session.jti jti) in
                elim p.used [
                  | inl gone ↦ inl (rw (lookup-delete, m) gone)
                  | inr (t, h) ↦ inr (t, rw (lookup-delete, differ) h)
                ]
          ];
        })
]

cleanup_loop-Spent :
    (sid jti : String) (now : ℕ) (m : Map String SessionEntry) (r : Registry)
    → Spent sid jti r
    → Spent sid jti (cleanup_loop now m r)
unfolding cleanup_loop
cleanup_loop-Spent sid jti now [] r p = p
cleanup_loop-Spent sid jti now ((s, e) ∷ m) r p =
    cleanup_loop-Spent sid jti now m _ (either (is_expired now e))
  where
    either : (b : Bool) → Spent sid jti (if b then cleanup_session s r else r)
    either true = cleanup-Spent sid jti s r p
    either false = p

-- A session is created with an identifier and a token of its own.
abbrev pub IsFresh : String → String → Event → Type 0
IsFresh sid jti (creates session) = (session.sid ≢ sid) × (session.jti ≢ jti)
IsFresh sid jti _ = Unit {0}

abbrev pub AllFresh : String → String → List Event → Type 0
AllFresh sid jti [] = Unit {0}
AllFresh sid jti (x ∷ xs) = IsFresh sid jti x × AllFresh sid jti xs

create-Spent :
    (sid jti : String) (session : PendingSession) (r : Registry)
    → session.sid ≢ sid
    → session.jti ≢ jti
    → Spent sid jti r
    → Spent sid jti (create_pending_session session r)
unfolding create_pending_session
create-Spent sid jti session r other token p =
    let l = lookup-insert session.sid (new_entry session) r.sessions in
    let differ : (session.sid =? sid) ≡ false = ground (arith, eq_iff session.sid sid) in
    record {
      own = λ x d h n. elim (Bool-cases (session.sid =? x)) [
        | inl y ↦
            let same : new_entry session ≡ d = ground (arith, l x) in
            λ j. token (ap (λ (e : SessionEntry). e.session.jti) same ∙ j)
        | inr m ↦ p.own x d (ground (arith, l x)) n
      ];
      used = elim p.used [ inl gone ↦ inl (rw (lookup-insert, differ) gone) | inr s ↦ inr s ];
    }

wait_end-Spent :
    (sid jti : String) (socket : SessionEntry → ℕ) (ready : Bool) (s : String) (r : Registry)
    → Spent sid jti r
    → Spent sid jti (wait_end socket ready s r).1
unfolding wait_end
wait_end-Spent sid jti socket false s r p = cleanup-Spent sid jti s r p
wait_end-Spent sid jti socket true s r p = elim (Option-cases (lookup s r.sessions)) [
  | inl n ↦ rw (n, wait_end) p
  | inr (e, n) ↦ rw (n, wait_end) p
]

close_session-Spent :
    (sid jti s : String) (r : Registry) → Spent sid jti r → Spent sid jti (close_session s r).1
unfolding close_session
close_session-Spent sid jti s r p = elim (Option-cases (lookup s r.sessions)) [
  | inl n ↦ rw (n, close_session) p
  | inr (e, n) ↦ rw (n, close_session) (cleanup-Spent sid jti s r p)
]

step-Spent :
    (sid jti : String) (x : Event) (r : Registry)
    → IsFresh sid jti x
    → Spent sid jti r
    → Spent sid jti (step x r)
unfolding step
step-Spent sid jti (creates session) r f p = create-Spent sid jti session r f.0 f.1 p
step-Spent sid jti (binds_browser s j conn now) r f p =
    Continues-Spent sid jti r _ (bind_browser-Continues s j conn now r) p
step-Spent sid jti (binds_agent s a conn now) r f p =
    Continues-Spent sid jti r _ (bind_agent-Continues s a conn now r) p
step-Spent sid jti (ends_agent_wait ready s) r f p = wait_end-Spent sid jti _ ready s r p
step-Spent sid jti (ends_browser_wait ready s) r f p = wait_end-Spent sid jti _ ready s r p
step-Spent sid jti (adds_bytes s n) r f p =
    Continues-Spent sid jti r _ (add_bytes-Continues s n r) p
step-Spent sid jti (marks_direct s) r f p = cleanup-Spent sid jti s r p
step-Spent sid jti (closes s) r f p = close_session-Spent sid jti s r p
step-Spent sid jti (cleans now) r f p = cleanup_loop-Spent sid jti now r.sessions r p

run-Spent :
    (sid jti : String) (xs : List Event) (r : Registry)
    → AllFresh sid jti xs
    → Spent sid jti r
    → Spent sid jti (run xs r)
unfolding run
run-Spent sid jti [] r f p = p
run-Spent sid jti (x ∷ xs) r f p =
    run-Spent sid jti xs (step x r) f.1 (step-Spent sid jti x r f.0 p)

spent-bind_entry :
    (sid jti : String) (conn now : ℕ) (e : SessionEntry) (r : Registry)
    → (bind_browser_entry sid jti conn now e r).1.spent_jti ≡ insert jti now r.spent_jti
unfolding bind_browser_entry
spent-bind_entry sid jti conn now e r = ground arith

-- A successful bind spends its token.
spent-bind_browser :
    (sid jti : String) (conn now : ℕ) (r : Registry) (b : ℕ × SessionState)
    → (bind_browser_socket sid jti conn now r).0 ≡ ok b
    → (bind_browser_socket sid jti conn now r).1.spent_jti ≡ insert jti now r.spent_jti
unfolding bind_browser_socket
spent-bind_browser sid jti conn now r b e = elim (Option-cases (lookup jti r.spent_jti)) [
  | inr (t, s) ↦ absurd (ground arith)
  | inl s ↦ elim (Option-cases (lookup sid r.sessions)) [
    | inl n ↦ absurd (ground arith)
    | inr (d, n) ↦ elim (Bool-cases (ltb d.session.expires_at now)) [
      | inl late ↦ absurd (ground arith)
      | inr ontime ↦ rw (s, n, ontime, bind_browser_socket) (spent-bind_entry sid jti conn now d r)
    ]
  ]
]

bind-Spent :
    (sid jti : String) (conn now : ℕ) (r : Registry) (b : ℕ × SessionState)
    → OwnToken sid jti r
    → (bind_browser_socket sid jti conn now r).0 ≡ ok b
    → Spent sid jti (bind_browser_socket sid jti conn now r).1
bind-Spent sid jti conn now r b own e = record {
  own = λ x d h n.
      let (c, g, same) = (bind_browser-Continues sid jti conn now r).back x d h in
      λ j. own x c g n (ap (λ (p : PendingSession). p.jti) (sym same) ∙ j);
  used = inr (now, rw (spent-bind_browser sid jti conn now r b e, lookup-insert) (simp same_refl));
}

Spent-refuses :
    (sid jti : String) (conn now : ℕ) (r : Registry) (b : ℕ × SessionState)
    → Spent sid jti r
    → (bind_browser_socket sid jti conn now r).0 ≢ ok b
unfolding bind_browser_socket
Spent-refuses sid jti conn now r b p = elim p.used [
  | inr (t, h) ↦ rw (h, bind_browser_socket) (λ e. cc)
  | inl gone ↦ elim (Option-cases (lookup jti r.spent_jti)) [
    | inl n ↦ rw (n, gone, bind_browser_socket) (λ e. cc)
    | inr (t, h) ↦ rw (h, bind_browser_socket) (λ e. cc)
  ]
]

-- Once a browser has bound its session with a token, that token binds no socket again, whatever the
-- registry does in between, as long as no other session is made with the session's identifier or the
-- token's, before or after.
pub token_binds_once :
    (sid jti : String) (conn now conn' now' : ℕ) (r : Registry) (xs : List Event)
    (b c : ℕ × SessionState)
    → OwnToken sid jti r
    → (bind_browser_socket sid jti conn now r).0 ≡ ok b
    → AllFresh sid jti xs
    → (bind_browser_socket sid jti conn' now' (run xs (bind_browser_socket sid jti conn now r).1)).0
      ≢ ok c
token_binds_once sid jti conn now conn' now' r xs b c own e f =
    Spent-refuses sid jti conn' now' _ c
      (run-Spent sid jti xs _ f (bind-Spent sid jti conn now r b own e))
