-- ===== src/Noise/Handshake.antt =====
-- agent/internal/noise/handshake.go. An operation changes the state in place, also when it fails
-- half-way, so it returns its result with the state. A random key pair is an argument, `none` where
-- the generator fails.
use share_bridge.Prelude.{
  ℕ, ◌-◌, ◌==◌, Bool, true, false, not, List, [], ◌++◌, Option, none, some, Result, ok, err, length,
  take, drop, if◌then◌else◌,
}
use share_bridge.Noise.Crypto.{
  Crypto, NoiseError, wrong_role, wrong_phase, wrong_length, keypair_failed, bad_public_key,
  dh_failed, key_not_initialized, initialize, mix_hash, hkdf2, split_keys, zeros,
}
use share_bridge.Noise.Cipher.{CipherState, new_cipher_state, encrypt_with_ad, decrypt_with_ad}

pub data Role : Type 0 where
  initiator responder : Role

pub data Phase : Type 0 where
  fresh msg1_sent msg1_received msg2_sent msg2_received done : Phase

abbrev pub same_role : Role → Role → Bool
same_role initiator initiator = true
same_role responder responder = true
same_role _ _ = false

abbrev pub same_phase : Phase → Phase → Bool
same_phase fresh fresh = true
same_phase msg1_sent msg1_sent = true
same_phase msg1_received msg1_received = true
same_phase msg2_sent msg2_sent = true
same_phase msg2_received msg2_received = true
same_phase done done = true
same_phase _ _ = false

pub record NoiseXx (Priv : Type 0) : Type 0 where
  pub role : Role
  pub phase : Phase
  pub h : List ℕ
  pub ck : List ℕ
  pub k : List ℕ
  pub has_k : Bool
  pub e_priv : Option Priv
  pub e_pub : List ℕ
  pub s_priv : Priv
  pub s_pub : List ℕ
  pub r_e_pub : List ℕ
  pub r_s_pub : List ℕ

abbrev pub slice : ℕ → ℕ → List ℕ → List ℕ
slice from to bytes = take (to - from) (drop from bytes)

-- A computation on the state that may fail.
abbrev pub M : Type 0 → Type 0 → Type 0
M Priv A = NoiseXx Priv → Result NoiseError A × NoiseXx Priv

unfoldable pub continue :
    {Priv A B : Type 0}
    → Result NoiseError A × NoiseXx Priv
    → (A → M Priv B)
    → Result NoiseError B × NoiseXx Priv
continue (ok a, n) f = f a n
continue (err e, n) f = (err e, n)

infixl 5 ◌>>=◌ ◌>>◌
abbrev pub ◌>>=◌ : {Priv A B : Type 0} → M Priv A → (A → M Priv B) → M Priv B
◌>>=◌ m f n = continue (m n) f

abbrev pub ◌>>◌ : {Priv A B : Type 0} → M Priv A → M Priv B → M Priv B
m >> f = m >>= λ _. f

module _ {Priv : Type 0} where
  abbrev pub return : {A : Type 0} → A → M Priv A
  return a n = (ok a, n)

  abbrev pub fail : {A : Type 0} → NoiseError → M Priv A
  fail e n = (err e, n)

  abbrev pub modify : (NoiseXx Priv → NoiseXx Priv) → M Priv (Unit {0})
  modify f n = (ok tt, f n)

  abbrev pub gets : {A : Type 0} → (NoiseXx Priv → A) → M Priv A
  gets f n = (ok (f n), n)

  -- The checks of the role and the phase that every message operation begins with.
  unfoldable pub expect : Role → Phase → M Priv (Unit {0})
  expect r p n =
      if not (same_role n.role r)
      then (err wrong_role, n)
      else if not (same_phase n.phase p)
      then (err wrong_phase, n)
      else (ok tt, n)

  unfoldable pub expect_length : ℕ → List ℕ → M Priv (Unit {0})
  expect_length size msg n = if length msg == size then (ok tt, n) else (err wrong_length, n)

  unfoldable pub enter : Phase → M Priv (Unit {0})
  enter p n = (ok tt, record n { phase = p })

  unfoldable pub got_e : List ℕ → M Priv (Unit {0})
  got_e e n = (ok tt, record n { r_e_pub = e })

  unfoldable pub got_s : List ℕ → M Priv (Unit {0})
  got_s s n = (ok tt, record n { r_s_pub = s })

  -- RemoteStaticPub
  unfoldable pub remote_static_pub : NoiseXx Priv → List ℕ
  remote_static_pub n = n.r_s_pub

  module _ {Pub Block Gcm : Type 0} (c : Crypto Priv Pub Block Gcm) where
    -- The common part of NewInitiator and NewResponder.
    unfoldable pub start : Role → Priv → NoiseXx Priv
    unfolding initialize mix_hash zeros
    start r static = record {
      role = r;
      phase = fresh;
      h = mix_hash c initialize.0 [];
      ck = initialize.1;
      k = zeros;
      has_k = false;
      e_priv = none;
      e_pub = [];
      s_priv = static;
      s_pub = c.bytes (c.public_key static);
      r_e_pub = [];
      r_s_pub = [];
    }

    -- NewInitiator
    unfoldable pub new_initiator : Option Priv → Result NoiseError (NoiseXx Priv)
    unfolding start
    new_initiator none = err keypair_failed
    new_initiator (some static) = ok (start initiator static)

    -- NewResponder
    unfoldable pub new_responder : Priv → NoiseXx Priv
    unfolding start
    new_responder static = start responder static

    unfoldable pub mix_in : List ℕ → M Priv (Unit {0})
    unfolding mix_hash
    mix_in bytes n = (ok tt, record n { h = mix_hash c n.h bytes })

    -- mixKey
    unfoldable pub mix_key : List ℕ → M Priv (Unit {0})
    unfolding hkdf2
    mix_key ikm n =
        (ok tt, record n { ck = (hkdf2 c n.ck ikm).0; k = (hkdf2 c n.ck ikm).1; has_k = true })

    -- encryptAndHash
    unfoldable pub encrypt_and_hash : List ℕ → M Priv (List ℕ)
    unfolding encrypt_with_ad new_cipher_state mix_hash
    encrypt_and_hash plaintext n =
        if not n.has_k
        then (err key_not_initialized, n)
        else elim (encrypt_with_ad c n.h plaintext (new_cipher_state n.k)).0 [
          | err e ↦ (err e, n)
          | ok ct ↦ (ok ct, record n { h = mix_hash c n.h ct })
        ]

    -- decryptAndHash
    unfoldable pub decrypt_and_hash : List ℕ → M Priv (List ℕ)
    unfolding decrypt_with_ad new_cipher_state mix_hash
    decrypt_and_hash ciphertext n =
        if not n.has_k
        then (err key_not_initialized, n)
        else elim (decrypt_with_ad c n.h ciphertext (new_cipher_state n.k)).0 [
          | err e ↦ (err e, n)
          | ok pt ↦ (ok pt, record n { h = mix_hash c n.h ciphertext })
        ]

    -- The fresh ephemeral key; its public bytes.
    unfoldable pub new_ephemeral : Option Priv → M Priv (List ℕ)
    new_ephemeral none n = (err keypair_failed, record n { e_priv = none })
    new_ephemeral (some e) n =
        let e_pub = c.bytes (c.public_key e) in
        (ok e_pub, record n { e_priv = some e; e_pub = e_pub })

    -- importPublicKey and dhP256. The ephemeral key is there whenever one is used.
    unfoldable pub diffie_hellman : Option Priv → List ℕ → M Priv (List ℕ)
    diffie_hellman none remote n = (err dh_failed, n)
    diffie_hellman (some own) remote n = elim (c.new_public_key remote) [
      | none ↦ (err bad_public_key, n)
      | some p ↦ elim (c.ecdh own p) [ none ↦ (err dh_failed, n) | some secret ↦ (ok secret, n) ]
    ]

    -- The key exchange of a token, its remote key read back from the state, mixed in.
    unfoldable pub exchange :
        (NoiseXx Priv → Option Priv) → (NoiseXx Priv → List ℕ) → M Priv (Unit {0})
    unfolding diffie_hellman mix_key
    exchange own remote n = (diffie_hellman (own n) (remote n) >>= mix_key) n

    -- WriteMessage1
    unfoldable pub write_message1 : Option Priv → M Priv (List ℕ)
    unfolding expect new_ephemeral mix_in enter
    write_message1 generated = do
      expect initiator fresh
      e ← new_ephemeral generated
      mix_in e
      enter msg1_sent
      return e

    -- ReadMessage1
    unfoldable pub read_message1 : List ℕ → M Priv (Unit {0})
    unfolding expect expect_length got_e mix_in enter
    read_message1 msg = do
      expect responder fresh
      expect_length 65 msg
      got_e msg
      mix_in msg
      enter msg1_received

    -- WriteMessage2
    unfoldable pub write_message2 : Option Priv → M Priv (List ℕ)
    unfolding expect new_ephemeral mix_in exchange encrypt_and_hash enter
    write_message2 generated = do
      expect responder msg1_received
      e ← new_ephemeral generated
      mix_in e
      exchange (λ n. n.e_priv) (λ n. n.r_e_pub)
      own ← gets (λ n. n.s_pub)
      enc_s ← encrypt_and_hash own
      exchange (λ n. some n.s_priv) (λ n. n.r_e_pub)
      tag ← encrypt_and_hash []
      enter msg2_sent
      return ((e ++ enc_s) ++ tag)

    -- ReadMessage2 once the length is right, on the three pieces of the message.
    unfoldable pub accept_message2 : List ℕ → List ℕ → List ℕ → M Priv (Unit {0})
    unfolding got_e got_s mix_in exchange decrypt_and_hash enter
    accept_message2 e enc_s tag = do
      got_e e
      mix_in e
      exchange (λ n. n.e_priv) (λ n. n.r_e_pub)
      s ← decrypt_and_hash enc_s
      got_s s
      exchange (λ n. n.e_priv) (λ n. n.r_s_pub)
      decrypt_and_hash tag
      enter msg2_received

    -- ReadMessage2
    unfoldable pub read_message2 : List ℕ → M Priv (Unit {0})
    unfolding expect expect_length accept_message2
    read_message2 msg = do
      expect initiator msg1_sent
      expect_length 162 msg
      accept_message2 (take 65 msg) (slice 65 146 msg) (slice 146 162 msg)

    -- WriteMessage3
    unfoldable pub write_message3 : M Priv (List ℕ)
    unfolding expect exchange encrypt_and_hash enter
    write_message3 = do
      expect initiator msg2_received
      own ← gets (λ n. n.s_pub)
      enc_s ← encrypt_and_hash own
      exchange (λ n. some n.s_priv) (λ n. n.r_e_pub)
      tag ← encrypt_and_hash []
      enter done
      return (enc_s ++ tag)

    -- ReadMessage3 once the length is right, on the two pieces of the message.
    unfoldable pub accept_message3 : List ℕ → List ℕ → M Priv (Unit {0})
    unfolding got_s exchange decrypt_and_hash enter
    accept_message3 enc_s tag = do
      s ← decrypt_and_hash enc_s
      got_s s
      exchange (λ n. n.e_priv) (λ n. n.r_s_pub)
      decrypt_and_hash tag
      enter done

    -- ReadMessage3
    unfoldable pub read_message3 : List ℕ → M Priv (Unit {0})
    unfolding expect expect_length accept_message3
    read_message3 msg = do
      expect responder msg2_sent
      expect_length 97 msg
      accept_message3 (take 81 msg) (slice 81 97 msg)

    -- Split: the sending and the receiving state. `none` is the panic before the last phase.
    unfoldable pub split : NoiseXx Priv → Option (CipherState × CipherState)
    unfolding split_keys new_cipher_state
    split n =
        let cs1 = new_cipher_state (split_keys c n.ck).0 in
        let cs2 = new_cipher_state (split_keys c n.ck).1 in
        if not (same_phase n.phase done)
        then none
        else if same_role n.role initiator
        then some (cs1, cs2)
        else some (cs2, cs1)
