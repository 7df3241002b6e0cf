-- ===== src/Hub/Disconnects.antt =====
-- The connections that CloseAgent closes: the agent's own, and the browsers of the codes that it owned.
use share_bridge.Prelude.{
  ◌≡◌, ◌≢◌, ◌==◌, ==_iff, ◌⊎◌, inl, inr, sym, subst, if_elim, Bool-cases, Option-cases, ◌++◌, map,
  nat_key, refl, ap, ◌∙◌, Bool, true, false, List, [], ◌∷◌, String, Option, none, some, arith, Map,
  lookup, delete, ◌=?◌, string_key, if◌then◌else◌, lookup-delete, same_refl,
}
use text.Mathlib.TextEquality.{eq_iff}
use share_bridge.Hub.State.{Conn, nil, Pair, Hub}
use share_bridge.Hub.Agents.{paired_browsers, delete_writes, revoked_conn}

-- Whether a code is in a list.
abbrev pub contains : String → List String → Bool
contains k [] = false
contains k (c ∷ cs) = if c =? k then true else contains k cs

-- Membership in a list.
abbrev pub Has : {A : Type 0} → A → List A → Type 0
Has x [] = true ≡ false
Has x (y ∷ ys) = (y ≡ x) ⊎ Has x ys

pub Has-append_left : {A : Type 0} → (x : A) (xs ys : List A) → Has x xs → Has x (xs ++ ys)
Has-append_left x [] ys h = absurd (cc h)
Has-append_left x (y ∷ xs) ys (inl e) = inl e
Has-append_left x (y ∷ xs) ys (inr h) = inr (Has-append_left x xs ys h)

pub Has-append_right : {A : Type 0} → (x : A) (xs ys : List A) → Has x ys → Has x (xs ++ ys)
Has-append_right x [] ys h = h
Has-append_right x (y ∷ xs) ys h = inr (Has-append_right x xs ys h)

pub Has-map : {A B : Type 0} → (f : A → B) (x : A) (xs : List A) → Has x xs → Has (f x) (map f xs)
Has-map f x [] h = absurd (cc h)
Has-map f x (y ∷ xs) (inl e) = inl (ap f e)
Has-map f x (y ∷ xs) (inr h) = inr (Has-map f x xs h)

pub Has-revoked_conn :
    (key : String) (conn : Conn) (h : Hub)
    → lookup key h.agents ≡ some conn
    → conn ≢ nil
    → Has conn (revoked_conn key h)
unfolding revoked_conn
Has-revoked_conn key conn h e present =
    rw (e, revoked_conn)
      (if_elim (Has conn) (conn == nil) (λ b. absurd (present ((==_iff conn nil).0 b)))
        (λ b. inl refl))

-- What is found for the later codes is found for all of them.
Has-tail_browsers :
    (k : String) (ks : List String) (pairs : Map String Pair) (c : Conn)
    → Has c (paired_browsers ks (delete k pairs))
    → Has c (paired_browsers (k ∷ ks) pairs)
unfolding paired_browsers
Has-tail_browsers k ks pairs c x = elim (Option-cases (lookup k pairs)) [
  | inl e ↦ rw (e, paired_browsers) x
  | inr (q, e) ↦
      rw (e, paired_browsers) (if_elim (Has c) (q.browser_conn == nil) (λ b. x) (λ b. inr x))
]

-- A browser that is found belongs to the first code or to a later one.
head_or_tail :
    (k : String) (ks : List String) (pairs : Map String Pair) (c : Conn)
    → Has c (paired_browsers (k ∷ ks) pairs)
    → ((p : Pair) × (lookup k pairs ≡ some p) × (p.browser_conn ≡ c))
      ⊎ Has c (paired_browsers ks (delete k pairs))
unfolding paired_browsers
head_or_tail k ks pairs c x = go (lookup k pairs) refl x
  where
    rest : List Conn
    rest = paired_browsers ks (delete k pairs)

    go :
        (o : Option Pair)
        → lookup k pairs ≡ o
        → Has c (elim o [
          | none ↦ rest
          | some p ↦ if p.browser_conn == nil then rest else p.browser_conn ∷ rest
        ])
        → ((p : Pair) × (lookup k pairs ≡ some p) × (p.browser_conn ≡ c)) ⊎ Has c rest
    go none e y = inr y
    go (some p) e y = elim (Bool-cases (p.browser_conn == nil)) [
      | inl b ↦ inr (subst (λ (t : Bool). Has c (if t then rest else p.browser_conn ∷ rest)) b y)
      | inr b ↦ elim (subst (λ (t : Bool). Has c (if t then rest else p.browser_conn ∷ rest)) b y) [
        | inl same ↦ inl (p, e, same)
        | inr later ↦ inr later
      ]
    ]

undeleted :
    (k : String) (pairs : Map String Pair) (code : String) (p : Pair)
    → lookup code (delete k pairs) ≡ some p
    → ((k =? code) ≡ false) × (lookup code pairs ≡ some p)
undeleted k pairs code p e = split (k =? code) refl (sym (lookup-delete k pairs code) ∙ e)
  where
    split :
        (t : Bool)
        → (k =? code) ≡ t
        → (if t then none else lookup code pairs) ≡ some p
        → ((k =? code) ≡ false) × (lookup code pairs ≡ some p)
    split true q x = absurd (cc x)
    split false q x = (q, x)

-- The browser of a code in the list is among the browsers found.
pub Has-paired_browsers :
    (codes : List String) (pairs : Map String Pair) (code : String) (p : Pair)
    → contains code codes ≡ true
    → lookup code pairs ≡ some p
    → p.browser_conn ≢ nil
    → Has p.browser_conn (paired_browsers codes pairs)
unfolding paired_browsers
Has-paired_browsers [] pairs code p c e present = absurd (cc c)
Has-paired_browsers (k ∷ ks) pairs code p c e present = elim (Bool-cases (k =? code)) [
  | inl same ↦
      let here : lookup k pairs ≡ some p =
        subst (λ x. lookup x pairs ≡ some p) (sym ((eq_iff k code).0 same)) e in
      rw (here, paired_browsers)
        (if_elim (Has p.browser_conn) (p.browser_conn == nil)
          (λ b. absurd (present ((==_iff p.browser_conn nil).0 b))) (λ b. inl refl))
  | inr differs ↦
      let there : lookup code (delete k pairs) ≡ some p = rw (lookup-delete, differs) e in
      Has-tail_browsers k ks pairs p.browser_conn
        (Has-paired_browsers ks (delete k pairs) code p (ground (arith, c, differs)) there present)
]

pub delete_writes-other :
    (conns : List Conn) (m : Map Conn (Unit {0})) (c : Conn)
    → (Has c conns → true ≡ false)
    → lookup c (delete_writes conns m) ≡ lookup c m
unfolding delete_writes
delete_writes-other [] m c n = refl
delete_writes-other (x ∷ xs) m c n =
    delete_writes-other xs (delete x m) c (λ h. n (inr h))
    ∙ rw lookup-delete (
        if_elim (λ o. o ≡ lookup c m) (x == c) (λ b. absurd (cc (n (inl ((==_iff x c).0 b)))))
          (λ b. refl))

pub revoked_conn-Has :
    (key : String) (c : Conn) (h : Hub) → Has c (revoked_conn key h) → lookup key h.agents ≡ some c
unfolding revoked_conn
revoked_conn-Has key c h x = go (lookup key h.agents) x
  where
    go :
        (o : Option Conn)
        → Has c (elim o [ none ↦ [] | some conn ↦ if conn == nil then [] else conn ∷ [] ])
        → o ≡ some c
    go none y = absurd (cc y)
    go (some conn) y = elim (Bool-cases (conn == nil)) [
      | inl b ↦ absurd (cc (subst (λ (t : Bool). Has c (if t then [] else conn ∷ [])) b y))
      | inr b ↦ elim (subst (λ (t : Bool). Has c (if t then [] else conn ∷ [])) b y) [
        | inl same ↦ ap some same
        | inr y' ↦ absurd (cc y')
      ]
    ]

pub paired_browsers-Has :
    (codes : List String) (pairs : Map String Pair) (c : Conn)
    → Has c (paired_browsers codes pairs)
    → (code : String) × (p : Pair) × (contains code codes ≡ true)
      × (lookup code pairs ≡ some p)
      × (p.browser_conn ≡ c)
unfolding paired_browsers
paired_browsers-Has [] pairs c x = absurd (cc x)
paired_browsers-Has (k ∷ ks) pairs c x = elim (head_or_tail k ks pairs c x) [
  | inl (p, e, same) ↦ (k, p, ground (arith, same_refl k), e, same)
  | inr later ↦
      let (code, p, there, found, same) = paired_browsers-Has ks (delete k pairs) c later in
      let apart = undeleted k pairs code p found in
      (code, p, ground (arith, there, apart), apart.1, same)
]
