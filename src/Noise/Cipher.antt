-- ===== src/Noise/Cipher.antt =====
-- agent/internal/noise/cipher.go: a key with its nonce counter, a uint64.
use share_bridge.Prelude.{
  ℕ, ◌+◌, ◌-◌, ◌%◌, ◌^◌, ◌==◌, List, ◌∷◌, Option, none, some, Result, ok, err, if◌then◌else◌,
  put_uint64,
}
use share_bridge.Noise.Crypto.{
  Crypto, NoiseError, key_not_initialized, nonce_exhausted, new_cipher_failed,
  authentication_failed, is_zero_key,
}

pub record CipherState : Type 0 where
  pub key : List ℕ
  pub n : ℕ

unfoldable pub new_cipher_state : List ℕ → CipherState
new_cipher_state key = record { key = key; n = 0 }

-- ^uint64(0)
abbrev pub last_nonce : ℕ
last_nonce = 2 ^ 64 - 1

unfoldable pub nonce_bytes : ℕ → List ℕ
nonce_bytes n = 0 ∷ 0 ∷ 0 ∷ 0 ∷ put_uint64 n

-- cs.n++
unfoldable pub advance : CipherState → CipherState
advance cs = record cs { n = (cs.n + 1) % 2 ^ 64 }

module _ {Priv Pub Block Gcm : Type 0} (c : Crypto Priv Pub Block Gcm) where
  unfoldable pub new_gcm : List ℕ → Option Gcm
  new_gcm key = elim (c.new_cipher key) [ none ↦ none | some block ↦ c.new_gcm_block block ]

  -- What both directions do first: the cipher of the key, while it has nonces left.
  unfoldable pub ready_gcm : CipherState → Result NoiseError Gcm
  unfolding new_gcm is_zero_key
  ready_gcm cs =
      if is_zero_key cs.key
      then err key_not_initialized
      else if cs.n == last_nonce
      then err nonce_exhausted
      else elim (new_gcm cs.key) [ none ↦ err new_cipher_failed | some gcm ↦ ok gcm ]

  unfoldable pub encrypt_with_ad :
      List ℕ → List ℕ → CipherState → Result NoiseError (List ℕ) × CipherState
  unfolding ready_gcm nonce_bytes advance
  encrypt_with_ad ad plaintext cs = elim (ready_gcm cs) [
    | err e ↦ (err e, cs)
    | ok gcm ↦ (ok (c.seal gcm (nonce_bytes cs.n) plaintext ad), advance cs)
  ]

  unfoldable pub decrypt_with_ad :
      List ℕ → List ℕ → CipherState → Result NoiseError (List ℕ) × CipherState
  unfolding ready_gcm nonce_bytes advance
  decrypt_with_ad ad ciphertext cs = elim (ready_gcm cs) [
    | err e ↦ (err e, cs)
    | ok gcm ↦ elim (c.open_sealed gcm (nonce_bytes cs.n) ciphertext ad) [
      | none ↦ (err authentication_failed, cs)
      | some plaintext ↦ (ok plaintext, advance cs)
    ]
  ]

  unfoldable pub encrypt : List ℕ → List ℕ → CipherState → Result NoiseError (List ℕ) × CipherState
  unfolding encrypt_with_ad
  encrypt ad plaintext cs = encrypt_with_ad ad plaintext cs

  unfoldable pub decrypt : List ℕ → List ℕ → CipherState → Result NoiseError (List ℕ) × CipherState
  unfolding decrypt_with_ad
  decrypt ad ciphertext cs = decrypt_with_ad ad ciphertext cs
