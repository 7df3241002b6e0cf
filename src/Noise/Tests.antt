-- ===== src/Noise/Tests.antt =====
-- The handshake and the ciphers at concrete inputs.
use share_bridge.Prelude.{◌+◌, ◌<◌, ◌^◌, ◌≡◌, refl, [], ◌∷◌, ◌++◌, arith}
use share_bridge.Noise.Crypto.{is_zero_key}
use share_bridge.Noise.Cipher.{CipherState, ready_gcm, new_gcm, encrypt, encrypt_with_ad, advance}
use share_bridge.Noise.Outcomes.{Agreed, NonceShared}
use share_bridge.Noise.Agreement.{handshake_agrees, nonce_shared}
use share_bridge.Noise.Transport.{Seals, sealed_one, sealed_none, Opens, Seals-Opens}
use share_bridge.Noise.Toy.{fifteen, toy, toy-Laws, key1, key2, key3, ready}

handshake_agrees_example : Agreed toy 1 2 3 4
handshake_agrees_example =
    handshake_agrees toy toy-Laws 1 2 3 4 (7 ∷ []) (5 ∷ []) (5 ∷ []) key1 key2 key3 refl refl refl
      ready.0 ready.1 ready.2

nonce_shared_example : NonceShared toy 1 2 3 4
nonce_shared_example =
    nonce_shared toy toy-Laws 1 2 3 4 (7 ∷ []) (5 ∷ []) (5 ∷ []) key1 key2 key3 refl refl refl
      ready.0 ready.1 ready.2

abbrev begun : CipherState
begun = record { key = 9 ∷ []; n = 4 }

two-Seals :
    Seals toy begun
      (([], 6 ∷ []) ∷ (8 ∷ [], 5 ∷ 5 ∷ []) ∷ [])
      (([], 0 ∷ fifteen ++ 6 ∷ []) ∷ (8 ∷ [], 1 ∷ fifteen ++ 5 ∷ 5 ∷ []) ∷ [])
      (record begun { n = 6 })
unfolding encrypt encrypt_with_ad ready_gcm new_gcm is_zero_key advance
two-Seals = sealed_one [] (6 ∷ []) _ refl (sealed_one (8 ∷ []) (5 ∷ 5 ∷ []) _ refl sealed_none)

Seals-Opens_example :
    Opens toy begun
      (([], 0 ∷ fifteen ++ 6 ∷ []) ∷ (8 ∷ [], 1 ∷ fifteen ++ 5 ∷ 5 ∷ []) ∷ [])
      (([], 6 ∷ []) ∷ (8 ∷ [], 5 ∷ 5 ∷ []) ∷ [])
      (record begun { n = 6 })
    × (6 ≡ begun.n + 2)
    × (6 < 2 ^ 64)
Seals-Opens_example = Seals-Opens toy toy-Laws (omega arith) two-Seals
