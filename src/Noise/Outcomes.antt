-- ===== src/Noise/Outcomes.antt =====
-- What a run of the handshake of agent/internal/noise/handshake.go comes to.
use share_bridge.Prelude.{ℕ, ◌≡◌, List, [], ◌++◌, some, ok}
use share_bridge.Noise.Crypto.{Crypto}
use share_bridge.Noise.Cipher.{CipherState}
use share_bridge.Noise.Handshake.{
  NoiseXx, initiator, responder, start, new_initiator, new_responder, write_message1, read_message1,
  write_message2, read_message2, write_message3, read_message3, remote_static_pub, split,
}

-- A run of the handshake in which every message is written and accepted as it was written.
pub record Agreed {Priv Pub Block Gcm : Type 0} (c : Crypto Priv Pub Block Gcm) (si sr ei er : Priv)
    : Type 0 where
  pub i0 : NoiseXx Priv
  pub i1 : NoiseXx Priv
  pub i2 : NoiseXx Priv
  pub i3 : NoiseXx Priv
  pub r1 : NoiseXx Priv
  pub r2 : NoiseXx Priv
  pub r3 : NoiseXx Priv
  pub m1 : List ℕ
  pub m2 : List ℕ
  pub m3 : List ℕ
  pub to_browser : CipherState
  pub to_agent : CipherState
  pub starts : new_initiator c (some si) ≡ ok i0
  pub writes1 : write_message1 c (some ei) i0 ≡ (ok m1, i1)
  pub reads1 : read_message1 c m1 (new_responder c sr) ≡ (ok tt, r1)
  pub writes2 : write_message2 c (some er) r1 ≡ (ok m2, r2)
  pub reads2 : read_message2 c m2 i1 ≡ (ok tt, i2)
  pub writes3 : write_message3 c i2 ≡ (ok m3, i3)
  pub reads3 : read_message3 c m3 r2 ≡ (ok tt, r3)
  pub same_transcript : i3.h ≡ r3.h
  pub agent_known : remote_static_pub i3 ≡ c.bytes (c.public_key sr)
  pub browser_known : remote_static_pub r3 ≡ c.bytes (c.public_key si)
  pub browser_split : split c i3 ≡ some (to_agent, to_browser)
  pub agent_split : split c r3 ≡ some (to_browser, to_agent)

-- A run in which message 2 ends and message 3 begins with a text sealed by one cipher under one
-- nonce.
pub record NonceShared {Priv Pub Block Gcm : Type 0} (c : Crypto Priv Pub Block Gcm)
    (si sr ei er : Priv) : Type 0 where
  pub i1 : NoiseXx Priv
  pub i2 : NoiseXx Priv
  pub i3 : NoiseXx Priv
  pub r1 : NoiseXx Priv
  pub r2 : NoiseXx Priv
  pub m1 : List ℕ
  pub m2_front : List ℕ
  pub m3_back : List ℕ
  pub cipher : Gcm
  pub nonce : List ℕ
  pub ad2 : List ℕ
  pub ad3 : List ℕ
  pub writes1 : write_message1 c (some ei) (start c initiator si) ≡ (ok m1, i1)
  pub reads1 : read_message1 c m1 (start c responder sr) ≡ (ok tt, r1)
  pub writes2 : write_message2 c (some er) r1 ≡ (ok (m2_front ++ c.seal cipher nonce [] ad2), r2)
  pub reads2 : read_message2 c (m2_front ++ c.seal cipher nonce [] ad2) i1 ≡ (ok tt, i2)
  pub writes3 :
      write_message3 c i2
      ≡ (ok (c.seal cipher nonce (c.bytes (c.public_key si)) ad3 ++ m3_back), i3)
