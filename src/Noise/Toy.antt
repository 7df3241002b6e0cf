-- ===== src/Noise/Toy.antt =====
-- A toy cryptography that keeps the laws: a key pair is a number, a shared secret is the sum, and the
-- seal of a text marks the length of the associated data.
use share_bridge.Prelude.{
  ok, ◌≡◌, ℕ, suc, ◌+◌, ◌%◌, ◌==◌, ==_iff, refl, ap, List, [], ◌∷◌, ◌++◌, Option, none, some,
  if◌then◌else◌, length, drop, arith,
}
use share_bridge.Noise.Cipher.{new_cipher_state, ready_gcm, new_gcm}
use share_bridge.Noise.Agreement.{ck1, ck2, ck3}
use share_bridge.Noise.Crypto.{array32, hkdf2, initialize, is_zero_key, Crypto, Laws, zeros}

abbrev pub fifteen : List ℕ
fifteen = 0 ∷ 0 ∷ 0 ∷ 0 ∷ 0 ∷ 0 ∷ 0 ∷ 0 ∷ 0 ∷ 0 ∷ 0 ∷ 0 ∷ 0 ∷ 0 ∷ 0 ∷ []

abbrev pub read_key : List ℕ → Option ℕ
read_key [] = none
read_key (x ∷ xs) = some x

abbrev pub unseal : List ℕ → List ℕ → Option (List ℕ)
unseal [] ad = none
unseal (tag ∷ rest) ad = if tag == length ad % 256 then some (drop 15 rest) else none

abbrev pub toy : Crypto ℕ ℕ (List ℕ) (List ℕ)
toy = record {
  sha256 = λ xs. (length xs % 256) ∷ [];
  hmac = λ key xs. suc (length xs % 255) ∷ [];
  public_key = λ p. p;
  bytes = λ p. p ∷ zeros ++ zeros;
  new_public_key = read_key;
  ecdh = λ a b. some ((a + b) ∷ []);
  new_cipher = λ key. some key;
  new_gcm_block = λ block. some block;
  seal = λ g nonce text ad. (length ad % 256) ∷ fifteen ++ text;
  open_sealed = λ g nonce text ad. unseal text ad;
}

pub toy-Laws : Laws toy
unfolding zeros
toy-Laws = record {
  length-bytes = λ p. refl;
  new_public_key-bytes = λ p. refl;
  ecdh_comm = λ a b. ap (λ n. some (n ∷ [])) (omega arith);
  length-seal = λ g nonce text ad. omega arith;
  open-seal = λ g nonce text ad. ground (arith, ==_iff (length ad % 256) (length ad % 256));
}

-- The keys of a handshake of the static keys 1 and 2 with the ephemeral keys 3 and 4.
abbrev pub key1 : List ℕ
key1 = (ck1 toy toy-Laws 1 2 3 4 (7 ∷ []) (5 ∷ []) (5 ∷ [])).1

abbrev pub key2 : List ℕ
key2 = (ck2 toy toy-Laws 1 2 3 4 (7 ∷ []) (5 ∷ []) (5 ∷ [])).1

abbrev pub key3 : List ℕ
key3 = (ck3 toy toy-Laws 1 2 3 4 (7 ∷ []) (5 ∷ []) (5 ∷ [])).1

pub ready :
    (ready_gcm toy (new_cipher_state key1) ≡ ok key1)
    × (ready_gcm toy (new_cipher_state key2) ≡ ok key2)
    × (ready_gcm toy (new_cipher_state key3) ≡ ok key3)
unfolding ready_gcm new_gcm is_zero_key new_cipher_state hkdf2 initialize array32 zeros
ready = (refl, refl, refl)
