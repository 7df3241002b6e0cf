-- ===== src/Noise/Transport.antt =====
-- The cipher states of agent/internal/noise/cipher.go as the transport uses them: one side seals
-- texts one after another, the other opens what arrives in the same order.
use share_bridge.Prelude.{
  ℕ, ◌+◌, ◌%◌, ◌^◌, ◌==◌, ◌<◌, ◌≡◌, ap, inl, inr, false, List, [], ◌∷◌, ok, Result-cases, length,
  arith, ==_iff,
}
use share_bridge.Noise.Crypto.{Crypto, Laws}
use share_bridge.Noise.Cipher.{
  CipherState, last_nonce, nonce_bytes, advance, ready_gcm, encrypt, encrypt_with_ad, decrypt,
  decrypt_with_ad,
}

-- Texts with their associated data.
abbrev pub Texts : Type 0
Texts = List (List ℕ × List ℕ)

module _ {Priv Pub Block Gcm : Type 0} (c : Crypto Priv Pub Block Gcm) where
  -- The texts sealed one after another, what that gives, and the states before and after.
  pub data Seals : CipherState → Texts → Texts → CipherState → Type 0 where
    sealed_none : {cs : CipherState} → Seals cs [] [] cs
    sealed_one :
        {cs cs1 cs2 : CipherState} (ad text ciphertext : List ℕ) {texts rest : Texts}
        → encrypt c ad text cs ≡ (ok ciphertext, cs1)
        → Seals cs1 texts rest cs2
        → Seals cs ((ad, text) ∷ texts) ((ad, ciphertext) ∷ rest) cs2

  -- The same for opening.
  pub data Opens : CipherState → Texts → Texts → CipherState → Type 0 where
    opened_none : {cs : CipherState} → Opens cs [] [] cs
    opened_one :
        {cs cs1 cs2 : CipherState} (ad ciphertext text : List ℕ) {rest texts : Texts}
        → decrypt c ad ciphertext cs ≡ (ok text, cs1)
        → Opens cs1 rest texts cs2
        → Opens cs ((ad, ciphertext) ∷ rest) ((ad, text) ∷ texts) cs2

  pub encrypt_inv :
      (ad text ciphertext : List ℕ) (cs cs1 : CipherState)
      → encrypt c ad text cs ≡ (ok ciphertext, cs1)
      → (g : Gcm) × (ready_gcm c cs ≡ ok g)
        × (ciphertext ≡ c.seal g (nonce_bytes cs.n) text ad)
        × (cs1 ≡ advance cs)
  unfolding encrypt encrypt_with_ad
  encrypt_inv ad text ciphertext cs cs1 e = elim (Result-cases (ready_gcm c cs)) [
    | inl (x, r) ↦ absurd (ground arith)
    | inr (g, r) ↦ (g, r, ground arith, ground arith)
  ]

  ready-n : (cs : CipherState) (g : Gcm) → ready_gcm c cs ≡ ok g → (cs.n == last_nonce) ≡ false
  unfolding ready_gcm
  ready-n cs g r = ground arith

  pub decrypt-encrypt :
      Laws c
      → (ad text ciphertext : List ℕ) (cs cs1 : CipherState)
      → encrypt c ad text cs ≡ (ok ciphertext, cs1)
      → decrypt c ad ciphertext cs ≡ (ok text, cs1)
  unfolding decrypt decrypt_with_ad
  decrypt-encrypt laws ad text ciphertext cs cs1 e =
      let (g, r, s, a) = encrypt_inv ad text ciphertext cs cs1 e in
      rw (r, s, a, decrypt_with_ad)
        (rw (laws.open-seal g (nonce_bytes cs.n) text ad, decrypt_with_ad))

  advances :
      (ad text ciphertext : List ℕ) (cs cs1 : CipherState)
      → cs.n < 2 ^ 64
      → encrypt c ad text cs ≡ (ok ciphertext, cs1)
      → (cs1.n ≡ cs.n + 1) × (cs1.n < 2 ^ 64)
  unfolding advance
  advances ad text ciphertext cs cs1 small e =
      let (g, r, s, a) = encrypt_inv ad text ciphertext cs cs1 e in
      let last = ready-n cs g r in
      let n : cs1.n ≡ (cs.n + 1) % 2 ^ 64 = ap (λ (x : CipherState). x.n) a in
      ground (arith, ==_iff cs.n last_nonce)

  -- What one side seals, with any texts and associated data, the other side opens to the same texts
  -- if it begins in the same state, its counter a uint64, and gets them in the same order; both end in the same state. The
  -- nonce counter has then gone up by one for each text, so no nonce was used twice.
  pub Seals-Opens :
      Laws c
      → {cs cs2 : CipherState} {texts sealed : Texts} → cs.n < 2 ^ 64
      → Seals cs texts sealed cs2
      → Opens cs sealed texts cs2 × (cs2.n ≡ cs.n + length texts) × (cs2.n < 2 ^ 64)
  Seals-Opens laws small sealed_none = (opened_none, omega arith, small)
  Seals-Opens laws {cs = cs} small (sealed_one {cs1 = cs1} ad text ciphertext e more) =
      let (up, small1) = advances ad text ciphertext cs cs1 small e in
      let (opened, n, small2) = Seals-Opens laws small1 more in
      (
        opened_one ad ciphertext text (decrypt-encrypt laws ad text ciphertext cs cs1 e) opened,
        omega arith,
        small2,
      )
