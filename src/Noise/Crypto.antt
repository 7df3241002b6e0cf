-- ===== src/Noise/Crypto.antt =====
-- What agent/internal/noise takes from Go's crypto packages, and transcript.go and keys.go on it. A
-- byte string is a list of numbers, a [32]byte array one of 32.
use share_bridge.Prelude.{
  ℕ, ◌+◌, ◌≡◌, Bool, true, ◌&&◌, ◌==◌, List, [], ◌∷◌, ◌++◌, Option, some, take, length,
}

-- Private and public P-256 keys, AES blocks and GCM ciphers are values of the libraries' own.
pub record Crypto (Priv Pub Block Gcm : Type 0) : Type 0 where
  pub sha256 : List ℕ → List ℕ
  pub hmac : List ℕ → List ℕ → List ℕ
  pub public_key : Priv → Pub
  pub bytes : Pub → List ℕ
  pub new_public_key : List ℕ → Option Pub
  pub ecdh : Priv → Pub → Option (List ℕ)
  pub new_cipher : List ℕ → Option Block
  pub new_gcm_block : Block → Option Gcm
  pub seal : Gcm → List ℕ → List ℕ → List ℕ → List ℕ
  pub open_sealed : Gcm → List ℕ → List ℕ → List ℕ → Option (List ℕ)

-- What the libraries document: a key has 65 bytes and is read back from them, both sides of an
-- exchange get the same secret, a sealed text is 16 bytes longer and is opened by what sealed it.
pub record Laws {Priv Pub Block Gcm : Type 0} (c : Crypto Priv Pub Block Gcm) : Type 0 where
  pub length-bytes : (p : Pub) → length (c.bytes p) ≡ 65
  pub new_public_key-bytes : (p : Pub) → c.new_public_key (c.bytes p) ≡ some p
  pub ecdh_comm : (a b : Priv) → c.ecdh a (c.public_key b) ≡ c.ecdh b (c.public_key a)
  pub length-seal :
      (g : Gcm) (nonce plaintext ad : List ℕ)
      → length (c.seal g nonce plaintext ad) ≡ length plaintext + 16
  pub open-seal :
      (g : Gcm) (nonce plaintext ad : List ℕ)
      → c.open_sealed g nonce (c.seal g nonce plaintext ad) ad ≡ some plaintext

pub data NoiseError : Type 0 where
  wrong_role wrong_phase wrong_length keypair_failed bad_public_key dh_failed : NoiseError
  key_not_initialized nonce_exhausted new_cipher_failed authentication_failed : NoiseError

unfoldable pub zeros : List ℕ
zeros =
    0 ∷ 0 ∷ 0 ∷ 0 ∷ 0 ∷ 0 ∷ 0 ∷ 0 ∷ 0 ∷ 0 ∷ 0 ∷ 0 ∷ 0 ∷ 0 ∷ 0 ∷ 0 ∷ 0 ∷ 0 ∷ 0 ∷ 0 ∷ 0 ∷ 0 ∷ 0 ∷ 0
    ∷ 0 ∷ 0 ∷ 0 ∷ 0 ∷ 0 ∷ 0 ∷ 0 ∷ 0 ∷ []

-- copy(a[:], bytes) into a new [32]byte
unfoldable pub array32 : List ℕ → List ℕ
unfolding zeros
array32 bytes = take 32 (bytes ++ zeros)

-- "Noise_XX_P256_AESGCM_SHA256"
abbrev pub protocol_name : List ℕ
protocol_name =
    78 ∷ 111 ∷ 105 ∷ 115 ∷ 101 ∷ 95 ∷ 88 ∷ 88 ∷ 95 ∷ 80 ∷ 50 ∷ 53 ∷ 54 ∷ 95 ∷ 65 ∷ 69 ∷ 83 ∷ 71 ∷ 67
    ∷ 77 ∷ 95 ∷ 83 ∷ 72 ∷ 65 ∷ 50 ∷ 53 ∷ 54 ∷ []

-- h and ck
unfoldable pub initialize : List ℕ × List ℕ
unfolding array32
initialize = (array32 protocol_name, array32 protocol_name)

unfoldable pub is_zero_key : List ℕ → Bool
is_zero_key [] = true
is_zero_key (b ∷ bs) = b == 0 && is_zero_key bs

module _ {Priv Pub Block Gcm : Type 0} (c : Crypto Priv Pub Block Gcm) where
  unfoldable pub mix_hash : List ℕ → List ℕ → List ℕ
  unfolding array32
  mix_hash h bytes = array32 (c.sha256 (h ++ bytes))

  unfoldable pub hkdf2 : List ℕ → List ℕ → List ℕ × List ℕ
  unfolding array32
  hkdf2 ck ikm =
      let temp_key = c.hmac ck ikm in
      let o1 = c.hmac temp_key (1 ∷ []) in
      let o2 = c.hmac temp_key (o1 ++ 2 ∷ []) in (array32 o1, array32 o2)

  unfoldable pub split_keys : List ℕ → List ℕ × List ℕ
  unfolding hkdf2
  split_keys ck = hkdf2 ck []
