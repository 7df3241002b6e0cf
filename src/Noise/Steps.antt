-- ===== src/Noise/Steps.antt =====
-- What the parts of a message operation do where they succeed, and the pieces of a message.
use share_bridge.Prelude.{
  append_assoc, ℕ, suc, zero, ◌≡◌, refl, ap, sym, subst, not, if◌then◌else◌, ◌∙◌, Bool, true, List,
  [], ◌∷◌, ◌++◌, Option, some, ok, length, take, drop, arith, length-append,
}
use share_bridge.Noise.Crypto.{Crypto, Laws, mix_hash, hkdf2}
use share_bridge.Noise.Cipher.{
  new_cipher_state, nonce_bytes, ready_gcm, encrypt_with_ad, decrypt_with_ad,
}
use share_bridge.Noise.Handshake.{
  NoiseXx, M, continue, ◌>>=◌, slice, exchange, diffie_hellman, mix_key, encrypt_and_hash,
  decrypt_and_hash,
}

pub bind-ok :
    {Priv A B : Type 0} (m : M Priv A) (f : A → M Priv B) {n n' : NoiseXx Priv} {a : A}
    → m n ≡ (ok a, n')
    → (m >>= f) n ≡ f a n'
unfolding continue
bind-ok m f e = ap (λ x. continue x f) e

take-prefix : (k : ℕ) (xs ys : List ℕ) → length xs ≡ k → take k (xs ++ ys) ≡ xs
take-prefix zero [] ys e = refl
take-prefix zero (x ∷ xs) ys e = absurd (omega arith)
take-prefix (suc k) [] ys e = absurd (omega arith)
take-prefix (suc k) (x ∷ xs) ys e = ap (λ t. x ∷ t) (take-prefix k xs ys (omega arith))

drop-prefix : (k : ℕ) (xs ys : List ℕ) → length xs ≡ k → drop k (xs ++ ys) ≡ ys
drop-prefix zero [] ys e = refl
drop-prefix zero (x ∷ xs) ys e = absurd (omega arith)
drop-prefix (suc k) [] ys e = absurd (omega arith)
drop-prefix (suc k) (x ∷ xs) ys e = drop-prefix k xs ys (omega arith)

take-whole : (k : ℕ) (xs : List ℕ) → length xs ≡ k → take k xs ≡ xs
take-whole zero [] e = refl
take-whole zero (x ∷ xs) e = absurd (omega arith)
take-whole (suc k) [] e = absurd (omega arith)
take-whole (suc k) (x ∷ xs) e = ap (λ t. x ∷ t) (take-whole k xs (omega arith))

-- The two pieces of message 3, and the three of message 2.
pub slice-two :
    (a b : List ℕ)
    → length a ≡ 81
    → length b ≡ 16
    → (length (a ++ b) ≡ 97) × (take 81 (a ++ b) ≡ a) × (slice 81 97 (a ++ b) ≡ b)
slice-two a b la lb = (
  omega (arith, length-append a b),
  take-prefix 81 a b la,
  ap (take 16) (drop-prefix 81 a b la) ∙ take-whole 16 b lb,
)

pub slice-three :
    (a b t : List ℕ)
    → length a ≡ 65
    → length b ≡ 81
    → length t ≡ 16
    → (length ((a ++ b) ++ t) ≡ 162)
      × (take 65 ((a ++ b) ++ t) ≡ a)
      × (slice 65 146 ((a ++ b) ++ t) ≡ b)
      × (slice 146 162 ((a ++ b) ++ t) ≡ t)
slice-three a b t la lb lt = (
  omega (arith, length-append a b, length-append (a ++ b) t),
  ap (take 65) (append_assoc a b t) ∙ take-prefix 65 a (b ++ t) la,
  ap (slice 65 146) (append_assoc a b t)
      ∙ ap (take 81) (drop-prefix 65 a (b ++ t) la)
      ∙ take-prefix 81 b t lb,
  ap (take 16) (drop-prefix 146 (a ++ b) t (omega (arith, length-append a b))) ∙ take-whole 16 t lt,
)

else_branch : {A : Type 0} {b : Bool} (x : A) {y : A} → b ≡ true → (if not b then x else y) ≡ y
else_branch x e = rw e

module _ {Priv Pub Block Gcm : Type 0} (c : Crypto Priv Pub Block Gcm) (laws : Laws c) where
  abbrev pub hashed : List ℕ → NoiseXx Priv → NoiseXx Priv
  hashed bytes n = record n { h = mix_hash c n.h bytes }

  abbrev pub keyed : List ℕ → NoiseXx Priv → NoiseXx Priv
  keyed ikm n = record n { ck = (hkdf2 c n.ck ikm).0; k = (hkdf2 c n.ck ikm).1; has_k = true }

  -- A text sealed with a fresh cipher, as every sealed part of a message is.
  abbrev pub sealed : Gcm → List ℕ → NoiseXx Priv → List ℕ
  sealed g plaintext n = c.seal g (nonce_bytes 0) plaintext n.h

  pub exchange-ok :
      (own : NoiseXx Priv → Option Priv) (remote : NoiseXx Priv → List ℕ) (n : NoiseXx Priv)
      {o : Priv} {p : Pub} {secret : List ℕ}
      → own n ≡ some o
      → remote n ≡ c.bytes p
      → c.ecdh o p ≡ some secret
      → exchange c own remote n ≡ (ok tt, keyed secret n)
  unfolding exchange diffie_hellman mix_key continue
  exchange-ok own remote n {p = p} a b s =
      rw (a, b, diffie_hellman) (rw (laws.new_public_key-bytes p, s, diffie_hellman))

  pub encrypt-ok :
      (plaintext : List ℕ) (n : NoiseXx Priv) {g : Gcm}
      → n.has_k ≡ true
      → ready_gcm c (new_cipher_state n.k) ≡ ok g
      → encrypt_and_hash c plaintext n
        ≡ (ok (sealed g plaintext n), hashed (sealed g plaintext n) n)
  unfolding encrypt_and_hash encrypt_with_ad new_cipher_state
  encrypt-ok plaintext n k r = else_branch _ k ∙ rw (r, encrypt_with_ad)

  pub decrypt-ok :
      (plaintext : List ℕ) (n : NoiseXx Priv) {g : Gcm} {ciphertext : List ℕ}
      → n.has_k ≡ true
      → ready_gcm c (new_cipher_state n.k) ≡ ok g
      → ciphertext ≡ sealed g plaintext n
      → decrypt_and_hash c ciphertext n ≡ (ok plaintext, hashed ciphertext n)
  unfolding decrypt_and_hash decrypt_with_ad new_cipher_state
  decrypt-ok plaintext n {g = g} {ciphertext = ciphertext} k r e =
      subst (λ x. decrypt_and_hash c x n ≡ (ok plaintext, hashed x n)) (sym e)
        (else_branch _ k
          ∙ rw (r, decrypt_with_ad) (rw (laws.open-seal g (nonce_bytes 0) plaintext n.h)))
