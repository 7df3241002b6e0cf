-- ===== src/Registry/Continues.antt =====
-- The operations that end no session: the sessions keep their data and no spent token is forgotten.
use share_bridge.Prelude.{
  ℕ, ◌≡◌, refl, ◌∙◌, inl, inr, Bool, true, false, not, ◌&&◌, String, some, lookup, insert, ◌=?◌,
  string_key, ltb, if◌then◌else◌, arith, Bool-cases, Option-cases, lookup-insert,
}
use text.Mathlib.TextEquality.{eq_iff}
use share_bridge.Registry.Sessions.{
  SessionEntry, Registry, bind_browser_entry, bind_browser_socket, bind_agent_entry,
  bind_agent_socket, add_forwarded_bytes,
}

-- Sessions keep their data, none is added, and no spent token is forgotten.
pub record Continues (r t : Registry) : Type 0 where
  pub back :
      (s : String) (e : SessionEntry)
      → lookup s t.sessions ≡ some e
      → (d : SessionEntry) × (lookup s r.sessions ≡ some d) × (e.session ≡ d.session)
  pub kept :
      (j : String) (n : ℕ)
      → lookup j r.spent_jti ≡ some n
      → (m : ℕ) × (lookup j t.spent_jti ≡ some m)

pub Continues-refl : (r : Registry) → Continues r r
Continues-refl r = record { back = λ s e h. (e, h, refl); kept = λ j n h. (n, h) }

-- An entry is written over by one with the same session.
pub Continues-write :
    (r : Registry) (sid : String) (d e : SessionEntry)
    → lookup sid r.sessions ≡ some d
    → e.session ≡ d.session
    → Continues r (record r { sessions = insert sid e r.sessions })
Continues-write r sid d e h same = record {
  back = λ s x g. elim (Bool-cases (sid =? s)) [
    | inl y ↦ (d, ground (arith, eq_iff sid s), ground (arith, lookup-insert sid e r.sessions s))
    | inr n ↦ (x, ground (arith, lookup-insert sid e r.sessions s), refl)
  ];
  kept = λ j n g. (n, g);
}

pub Continues-spend :
    (r : Registry) (jti : String) (now : ℕ)
    → Continues r (record r { spent_jti = insert jti now r.spent_jti })
Continues-spend r jti now = record {
  back = λ s e h. (e, h, refl);
  kept = λ j n h. elim (Bool-cases (jti =? j)) [
    | inl y ↦ (now, rw (lookup-insert, y))
    | inr m ↦ (n, rw (lookup-insert, m) h)
  ];
}

pub Continues-trans : {r t u : Registry} → Continues r t → Continues t u → Continues r u
Continues-trans p q = record {
  back = λ s e h.
      let (d, g, same) = q.back s e h in let (c, f, same') = p.back s d g in (c, f, same ∙ same');
  kept = λ j n h. let (m, g) = p.kept j n h in q.kept j m g;
}

Continues-if :
    {A : Type 0} (r : Registry) (b : Bool) (p q : A × Registry)
    → Continues r p.1
    → Continues r q.1
    → Continues r (if b then p else q).1
Continues-if r true p q h k = h
Continues-if r false p q h k = k

bind_browser_entry-Continues :
    (sid jti : String) (conn now : ℕ) (e : SessionEntry) (r : Registry)
    → lookup sid r.sessions ≡ some e
    → Continues r (bind_browser_entry sid jti conn now e r).1
unfolding bind_browser_entry
bind_browser_entry-Continues sid jti conn now e r h =
    let spent : Registry = record r { spent_jti = insert jti now r.spent_jti } in
    let write = λ (d : SessionEntry) (same : d.session ≡ e.session).
      Continues-trans (Continues-spend r jti now) (Continues-write spent sid e d h same) in
    let d : SessionEntry = record e { browser_socket = conn; browser_ready = true } in
    Continues-if r e.agent_ready _ _ (write (record d { is_active = true }) refl) (write d refl)

bind_agent_entry-Continues :
    (sid : String) (conn : ℕ) (e : SessionEntry) (r : Registry)
    → lookup sid r.sessions ≡ some e
    → Continues r (bind_agent_entry sid conn e r).1
unfolding bind_agent_entry
bind_agent_entry-Continues sid conn e r h =
    let d : SessionEntry = record e { agent_socket = conn; agent_ready = true } in
    Continues-if r e.browser_ready _ _
      (Continues-write r sid e (record d { is_active = true }) h refl)
      (Continues-write r sid e d h refl)

pub bind_browser-Continues :
    (sid jti : String) (conn now : ℕ) (r : Registry)
    → Continues r (bind_browser_socket sid jti conn now r).1
unfolding bind_browser_socket
bind_browser-Continues sid jti conn now r = elim (Option-cases (lookup jti r.spent_jti)) [
  | inr (t, s) ↦ rw (s, bind_browser_socket) (Continues-refl r)
  | inl s ↦ elim (Option-cases (lookup sid r.sessions)) [
    | inl n ↦ rw (s, n, bind_browser_socket) (Continues-refl r)
    | inr (e, n) ↦ elim (Bool-cases (ltb e.session.expires_at now)) [
      | inl late ↦ rw (s, n, late, bind_browser_socket) (Continues-refl r)
      | inr ontime ↦
          rw (s, n, ontime, bind_browser_socket)
            (bind_browser_entry-Continues sid jti conn now e r n)
    ]
  ]
]

pub bind_agent-Continues :
    (sid agent_id : String) (conn now : ℕ) (r : Registry)
    → Continues r (bind_agent_socket sid agent_id conn now r).1
unfolding bind_agent_socket
bind_agent-Continues sid agent_id conn now r = elim (Option-cases (lookup sid r.sessions)) [
  | inl n ↦ rw (n, bind_agent_socket) (Continues-refl r)
  | inr (e, n) ↦ elim (Bool-cases (ltb e.session.expires_at now)) [
    | inl late ↦ rw (n, late, bind_agent_socket) (Continues-refl r)
    | inr ontime ↦
        elim (Bool-cases (not (e.session.agent_id =? "") && not (e.session.agent_id =? agent_id))) [
          | inl other ↦ rw (n, ontime, other, bind_agent_socket) (Continues-refl r)
          | inr own ↦
              rw (n, ontime, own, bind_agent_socket) (bind_agent_entry-Continues sid conn e r n)
        ]
  ]
]

pub add_bytes-Continues :
    (sid : String) (n : ℕ) (r : Registry) → Continues r (add_forwarded_bytes sid n r)
unfolding add_forwarded_bytes
add_bytes-Continues sid n r = elim (Option-cases (lookup sid r.sessions)) [
  | inl h ↦ rw (h, add_forwarded_bytes) (Continues-refl r)
  | inr (e, h) ↦ rw (h, add_forwarded_bytes) (Continues-write r sid e _ h refl)
]
