-- ===== src/Noise/Agreement.antt =====
-- The two sides of the handshake of agent/internal/noise/handshake.go end with each other's keys.
use share_bridge.Prelude.{ℕ, ◌+◌, ◌≡◌, refl, ap, ◌∙◌, List, [], ◌++◌, some, ok}
use share_bridge.Noise.Crypto.{Crypto, Laws, hkdf2, initialize, split_keys}
use share_bridge.Noise.Cipher.{nonce_bytes, new_cipher_state, ready_gcm}
use share_bridge.Noise.Handshake.{
  NoiseXx, continue, initiator, responder, msg1_sent, msg1_received, msg2_sent, msg2_received, done,
  start, new_initiator, new_responder, expect, expect_length, enter, got_e, got_s, mix_in,
  new_ephemeral, exchange, write_message1, read_message1, write_message2, accept_message2,
  read_message2, write_message3, accept_message3, read_message3, remote_static_pub, split,
}
use share_bridge.Noise.Steps.{
  hashed, keyed, sealed, exchange-ok, encrypt-ok, decrypt-ok, slice-two, slice-three,
}
use share_bridge.Noise.Outcomes.{Agreed, NonceShared}

module _ {Priv Pub Block Gcm : Type 0} (c : Crypto Priv Pub Block Gcm) (laws : Laws c)
    (si sr ei er : Priv) (ee es se : List ℕ) where
  abbrev pub_of : Priv → List ℕ
  pub_of p = c.bytes (c.public_key p)

  abbrev pub ck1 : List ℕ × List ℕ
  ck1 = hkdf2 c initialize.1 ee

  abbrev pub ck2 : List ℕ × List ℕ
  ck2 = hkdf2 c ck1.0 es

  abbrev pub ck3 : List ℕ × List ℕ
  ck3 = hkdf2 c ck2.0 se

  abbrev i1 : NoiseXx Priv
  i1 = record (hashed c laws (pub_of ei) (start c initiator si)) {
    e_priv = some ei;
    e_pub = pub_of ei;
    phase = msg1_sent;
  }

  abbrev r1 : NoiseXx Priv
  r1 = record (hashed c laws (pub_of ei) (start c responder sr)) {
    r_e_pub = pub_of ei;
    phase = msg1_received;
  }

  abbrev r1_e : NoiseXx Priv
  r1_e = hashed c laws (pub_of er) (record r1 { e_priv = some er; e_pub = pub_of er })

  abbrev i1_e : NoiseXx Priv
  i1_e = hashed c laws (pub_of er) (record i1 { r_e_pub = pub_of er })

  abbrev r2_ee : NoiseXx Priv
  r2_ee = keyed c laws ee r1_e

  abbrev i2_ee : NoiseXx Priv
  i2_ee = keyed c laws ee i1_e

  module _ (g1 g2 g3 : Gcm) where
    abbrev s2 : List ℕ
    s2 = sealed c laws g1 (pub_of sr) r2_ee

    abbrev r2_es : NoiseXx Priv
    r2_es = keyed c laws es (hashed c laws s2 r2_ee)

    abbrev i2_s : NoiseXx Priv
    i2_s = record (hashed c laws s2 i2_ee) { r_s_pub = pub_of sr }

    abbrev i2_es : NoiseXx Priv
    i2_es = keyed c laws es i2_s

    abbrev t2 : List ℕ
    t2 = sealed c laws g2 [] r2_es

    abbrev r2 : NoiseXx Priv
    r2 = record (hashed c laws t2 r2_es) { phase = msg2_sent }

    abbrev i2 : NoiseXx Priv
    i2 = record (hashed c laws t2 i2_es) { phase = msg2_received }

    abbrev s3 : List ℕ
    s3 = sealed c laws g2 (pub_of si) i2

    abbrev i3_se : NoiseXx Priv
    i3_se = keyed c laws se (hashed c laws s3 i2)

    abbrev r3_s : NoiseXx Priv
    r3_s = record (hashed c laws s3 r2) { r_s_pub = pub_of si }

    abbrev r3_se : NoiseXx Priv
    r3_se = keyed c laws se r3_s

    abbrev t3 : List ℕ
    t3 = sealed c laws g3 [] i3_se

    abbrev i3 : NoiseXx Priv
    i3 = record (hashed c laws t3 i3_se) { phase = done }

    abbrev r3 : NoiseXx Priv
    r3 = record (hashed c laws t3 r3_se) { phase = done }

    module _ (dh_ee : c.ecdh ei (c.public_key er) ≡ some ee)
        (dh_es : c.ecdh ei (c.public_key sr) ≡ some es)
        (dh_se : c.ecdh si (c.public_key er) ≡ some se)
        (ready1 : ready_gcm c (new_cipher_state ck1.1) ≡ ok g1)
        (ready2 : ready_gcm c (new_cipher_state ck2.1) ≡ ok g2)
        (ready3 : ready_gcm c (new_cipher_state ck3.1) ≡ ok g3) where
      reads1 : read_message1 c (pub_of ei) (start c responder sr) ≡ (ok tt, r1)
      unfolding read_message1 expect expect_length got_e mix_in enter start continue
      reads1 = rw (laws.length-bytes (c.public_key ei))

      writes2 : write_message2 c (some er) r1 ≡ (ok ((pub_of er ++ s2) ++ t2), r2)
      unfolding write_message2 expect new_ephemeral mix_in enter start continue
      writes2 =
          let a : exchange c (λ n. n.e_priv) (λ n. n.r_e_pub) r1_e ≡ (ok tt, r2_ee) =
            exchange-ok c laws (λ n. n.e_priv) (λ n. n.r_e_pub) r1_e refl refl
              (laws.ecdh_comm er ei ∙ dh_ee) in
          let b = encrypt-ok c laws (pub_of sr) r2_ee refl ready1 in
          let d : exchange c (λ n. some n.s_priv) (λ n. n.r_e_pub) (hashed c laws s2 r2_ee)
              ≡ (ok tt, r2_es) =
            exchange-ok c laws (λ n. some n.s_priv) (λ n. n.r_e_pub) (hashed c laws s2 r2_ee) refl
              refl (laws.ecdh_comm sr ei ∙ dh_es) in
          let e = encrypt-ok c laws [] r2_es refl ready2 in
          rw (a, continue) (rw (b, continue) (rw (d, continue) (rw (e, continue))))

      accepts2 : accept_message2 c (pub_of er) s2 t2 i1 ≡ (ok tt, i2)
      unfolding accept_message2 got_e got_s mix_in enter start continue
      accepts2 =
          let a : exchange c (λ n. n.e_priv) (λ n. n.r_e_pub) i1_e ≡ (ok tt, i2_ee) =
            exchange-ok c laws (λ n. n.e_priv) (λ n. n.r_e_pub) i1_e refl refl dh_ee in
          let b = decrypt-ok c laws (pub_of sr) i2_ee refl ready1 refl in
          let d : exchange c (λ n. n.e_priv) (λ n. n.r_s_pub) i2_s ≡ (ok tt, i2_es) =
            exchange-ok c laws (λ n. n.e_priv) (λ n. n.r_s_pub) i2_s refl refl dh_es in
          let e = decrypt-ok c laws [] i2_es refl ready2 refl in
          rw (a, continue) (rw (b, continue) (rw (d, continue) (rw (e, continue))))

      reads2 : read_message2 c ((pub_of er ++ s2) ++ t2) i1 ≡ (ok tt, i2)
      unfolding read_message2 expect expect_length start continue
      reads2 =
          let (whole, first, second, third) =
            slice-three (pub_of er) s2 t2 (laws.length-bytes _)
              (laws.length-seal g1 _ _ _ ∙ ap (λ x. x + 16) (laws.length-bytes (c.public_key sr)))
              (laws.length-seal g2 _ _ _) in
          rw (first, second, third) (rw (whole, continue) accepts2)

      writes3 : write_message3 c i2 ≡ (ok (s3 ++ t3), i3)
      unfolding write_message3 expect enter start continue
      writes3 =
          let a = encrypt-ok c laws (pub_of si) i2 refl ready2 in
          let b : exchange c (λ n. some n.s_priv) (λ n. n.r_e_pub) (hashed c laws s3 i2)
              ≡ (ok tt, i3_se) =
            exchange-ok c laws (λ n. some n.s_priv) (λ n. n.r_e_pub) (hashed c laws s3 i2) refl refl
              dh_se in
          let d = encrypt-ok c laws [] i3_se refl ready3 in
          rw (a, continue) (rw (b, continue) (rw (d, continue)))

      accepts3 : accept_message3 c s3 t3 r2 ≡ (ok tt, r3)
      unfolding accept_message3 got_s enter start continue
      accepts3 =
          let a = decrypt-ok c laws (pub_of si) r2 refl ready2 refl in
          let b : exchange c (λ n. n.e_priv) (λ n. n.r_s_pub) r3_s ≡ (ok tt, r3_se) =
            exchange-ok c laws (λ n. n.e_priv) (λ n. n.r_s_pub) r3_s refl refl
              (laws.ecdh_comm er si ∙ dh_se) in
          let d = decrypt-ok c laws [] r3_se refl ready3 refl in
          rw (a, continue) (rw (b, continue) (rw (d, continue)))

      reads3 : read_message3 c (s3 ++ t3) r2 ≡ (ok tt, r3)
      unfolding read_message3 expect expect_length start continue
      reads3 =
          let (whole, first, second) =
            slice-two s3 t3
              (laws.length-seal g2 _ _ _ ∙ ap (λ x. x + 16) (laws.length-bytes (c.public_key si)))
              (laws.length-seal g3 _ _ _) in
          rw (first, second) (rw (whole, continue) accepts3)

      -- Take private keys whose exchanges give the secrets ee, es and se, and let the keys derived from
      -- these be usable. Then a handshake between the browser and the agent goes through: each side
      -- accepts the other's messages, and they end with the same transcript, each with the other's
      -- static key, and the browser sends with the state that the agent receives with, and the other
      -- way round.
      pub handshake_agrees : Agreed c si sr ei er
      unfolding new_initiator new_responder write_message1 expect new_ephemeral mix_in enter start
          continue split remote_static_pub
      handshake_agrees = record {
        i0 = start c initiator si;
        i1 = i1;
        i2 = i2;
        i3 = i3;
        r1 = r1;
        r2 = r2;
        r3 = r3;
        m1 = pub_of ei;
        m2 = (pub_of er ++ s2) ++ t2;
        m3 = s3 ++ t3;
        to_agent = new_cipher_state (split_keys c ck3.0).0;
        to_browser = new_cipher_state (split_keys c ck3.0).1;
        starts = refl;
        writes1 = refl;
        reads1 = reads1;
        writes2 = writes2;
        reads2 = reads2;
        writes3 = writes3;
        reads3 = reads3;
        same_transcript = refl;
        agent_known = refl;
        browser_known = refl;
        browser_split = refl;
        agent_split = refl;
      }

      -- Under the conditions of a handshake that goes through, with usable derived keys, the empty
      -- payload of message 2 and the browser's static key in message 3 are sealed by the same cipher
      -- under the same nonce.
      pub nonce_shared : NonceShared c si sr ei er
      unfolding write_message1 expect new_ephemeral mix_in enter start continue
      nonce_shared = record {
        i1 = i1;
        i2 = i2;
        i3 = i3;
        r1 = r1;
        r2 = r2;
        m1 = pub_of ei;
        m2_front = pub_of er ++ s2;
        m3_back = t3;
        cipher = g2;
        nonce = nonce_bytes 0;
        ad2 = r2_es.h;
        ad3 = i2.h;
        writes1 = refl;
        reads1 = reads1;
        writes2 = writes2;
        reads2 = reads2;
        writes3 = writes3;
      }
