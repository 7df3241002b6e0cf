-- ===== src/RelayChannel/Opening.antt =====
-- The handshake over the relay, and the size of what the channel takes.
use share_bridge.Prelude.{
  append-nil, append_assoc, Option, ℕ, ◌==◌, ◌≤◌, ◌≡◌, refl, sym, ap, ◌∙◌, ◌⊎◌, true, not, List, [],
  ◌∷◌, ◌++◌, none, some, ok, put_uint32, length, inl, inr, Bool-cases, arith,
}
use share_bridge.RelayFrame.{
  frame_handshake, frame_text, frame_binary, max_frame_payload, max_handshake_payload, write_frame,
  decode_one_frame, cap_for_kind,
}
use share_bridge.RelayFrame.RoundTrip.{decode-write, write_lem}
use share_bridge.Lane.{TrafficClass, lane_for_class, encode_envelope}
use share_bridge.Lane.Envelope.{lane_for_class-valid}
use share_bridge.Noise.Crypto.{Crypto, Laws}
use share_bridge.Noise.Cipher.{CipherState, nonce_bytes, ready_gcm, encrypt, encrypt_with_ad}
use share_bridge.Noise.Handshake.{
  NoiseXx, Role, Phase, initiator, responder, fresh, msg1_sent, msg2_sent, read_message2, same_role,
  same_phase, M, continue, ◌>>◌, expect, expect_length, new_responder, read_message1, read_message3,
}
use share_bridge.Noise.Outcomes.{Agreed}
use share_bridge.RelayChannel.State.{Channel, writes, tell, endpoint_send, max_relay_payload_bytes}
use share_bridge.RelayChannel.Wire.{
  plaintext_for, write_bytes, write_sealed, write_open, write_plain, write_scheduled,
}
use share_bridge.RelayChannel.Start.{
  decode_frame_payload, decode_read, run_handshake, after_message1, send_message2, receive_message3,
  after_message3, keep_states, call_open, finish_start, start_channel,
}

decode_read-write :
    (message frame : List ℕ)
    → write_frame frame_handshake message ≡ ok frame
    → decode_read (some frame) ≡ ok message
unfolding decode_read decode_frame_payload
decode_read-write message frame e = rw (
  ap decode_one_frame (sym (append-nil frame)) ∙ decode-write frame_handshake message [] frame e,
  decode_frame_payload,
)

-- The calls of a callback that may be missing.
abbrev pub called_at : Option ℕ → List ℕ
called_at none = []
called_at (some handler) = handler ∷ []

module _ {Priv Pub Block Gcm : Type 0} (c : Crypto Priv Pub Block Gcm) where
  expect_length_inv :
      {A : Type 0} (size : ℕ) (msg : List ℕ) (m : M Priv A) (n n' : NoiseXx Priv) (x : A)
      → (expect_length size msg >> m) n ≡ (ok x, n')
      → length msg ≡ size
  unfolding expect_length continue
  expect_length_inv size msg m n n' x e = elim (Bool-cases (length msg == size)) [
    | inl b ↦ ground arith
    | inr b ↦ absurd (cc (rw (b, continue) at e))
  ]

  expect_inv :
      {A : Type 0} (r : Role) (p : Phase) (m : M Priv A) (n n' : NoiseXx Priv) (x : A)
      → (expect r p >> m) n ≡ (ok x, n')
      → m n ≡ (ok x, n')
  unfolding expect continue
  expect_inv r p m n n' x e = elim (Bool-cases (not (same_role n.role r))) [
    | inl b ↦ absurd (cc (rw (b, continue) at e))
    | inr b ↦ elim (Bool-cases (not (same_phase n.phase p))) [
      | inl d ↦ absurd (cc (rw (b, d, continue) at e))
      | inr d ↦ rw (b, d, continue) at e
    ]
  ]

  length-message1 :
      (m : List ℕ) (n n' : NoiseXx Priv) → read_message1 c m n ≡ (ok tt, n') → length m ≡ 65
  unfolding read_message1
  length-message1 m n n' e =
      expect_length_inv 65 m _ n n' tt (expect_inv responder fresh _ n n' tt e)

  length-message2 :
      (m : List ℕ) (n n' : NoiseXx Priv) → read_message2 c m n ≡ (ok tt, n') → length m ≡ 162
  unfolding read_message2
  length-message2 m n n' e =
      expect_length_inv 162 m _ n n' tt (expect_inv initiator msg1_sent _ n n' tt e)

  length-message3 :
      (m : List ℕ) (n n' : NoiseXx Priv) → read_message3 c m n ≡ (ok tt, n') → length m ≡ 97
  unfolding read_message3
  length-message3 m n n' e =
      expect_length_inv 97 m _ n n' tt (expect_inv responder msg2_sent _ n n' tt e)

  -- A handshake message in its frame.
  abbrev pub handshake_frame : List ℕ → List ℕ
  handshake_frame m = frame_handshake ∷ put_uint32 (length m) ++ m

  framed :
      (m : List ℕ)
      → length m ≤ max_handshake_payload
      → write_frame frame_handshake m ≡ ok (handshake_frame m)
  unfolding cap_for_kind
  framed m small = write_lem frame_handshake m max_handshake_payload refl small

  handshake_states :
      (si sr ei er : Priv) (a : Agreed c si sr ei er) (ch : Channel)
      → run_handshake c
          (some (handshake_frame a.m1))
          (some er)
          true
          (some (handshake_frame a.m3))
          (new_responder c sr)
          ch
        ≡ (
          none,
          record (tell (writes (handshake_frame a.m2)) ch) {
            send = some a.to_browser;
            recv = some a.to_agent;
          },
        )
  unfolding run_handshake after_message1 send_message2 receive_message3 after_message3 keep_states
  handshake_states si sr ei er a ch =
      let e1 = framed a.m1 (omega (arith, length-message1 a.m1 _ _ a.reads1)) in
      let e2 = framed a.m2 (omega (arith, length-message2 a.m2 _ _ a.reads2)) in
      let e3 = framed a.m3 (omega (arith, length-message3 a.m3 _ _ a.reads3)) in
      rw (decode_read-write a.m1 (handshake_frame a.m1) e1, a.reads1, run_handshake)
        (rw (a.writes2, after_message1)
          (rw (e2, send_message2)
            (rw (decode_read-write a.m3 (handshake_frame a.m3) e3, receive_message3)
              (rw (a.reads3, after_message3) (rw (a.agent_split, after_message3))))))

  -- The channel that is open, with what it was before and whom onOpen names.
  pub record Opened (on_open : Option ℕ) (hello : List ℕ) {si sr ei er : Priv}
      (a : Agreed c si sr ei er) (ch ch' : Channel) : Type 0 where
    pub connected : ch'.has_conn ≡ true
    pub sends : ch'.send ≡ some a.to_browser
    pub receives : ch'.recv ≡ some a.to_agent
    pub told : ch'.told ≡ ch.told ++ (writes hello ∷ writes (handshake_frame a.m2) ∷ [])
    pub opened : ch'.opened ≡ ch.opened ++ called_at on_open
    pub closed : ch'.closed ≡ ch.closed
    pub called : ch'.called ≡ ch.called

  call_open-Opened :
      (on_open : Option ℕ) (hello : List ℕ) {si sr ei er : Priv} (a : Agreed c si sr ei er)
      (ch : Channel)
      → Opened on_open hello a ch (
          call_open on_open
            (record (tell
              (writes (handshake_frame a.m2))
              (tell (writes hello) (record ch { has_conn = true }))) {
                send = some a.to_browser;
                recv = some a.to_agent;
              }))
  unfolding call_open tell
  call_open-Opened none hello a ch = record {
    connected = refl;
    sends = refl;
    receives = refl;
    told = append_assoc ch.told (writes hello ∷ []) (writes (handshake_frame a.m2) ∷ []);
    opened = sym (append-nil ch.opened);
    closed = refl;
    called = refl;
  }
  call_open-Opened (some handler) hello a ch = record {
    connected = refl;
    sends = refl;
    receives = refl;
    told = append_assoc ch.told (writes hello ∷ []) (writes (handshake_frame a.m2) ∷ []);
    opened = refl;
    closed = refl;
    called = refl;
  }

  -- Take a run of the Noise handshake that goes through. If the relay is reached and takes every write,
  -- and the browser's two messages come in handshake frames, Start returns without an error: it has
  -- written the hello and the frame of the agent's message, the channel is connected and no more closed
  -- than it was, it sends with the state that the browser receives with and receives with the state
  -- that the browser sends with, and onOpen has been called once, where it is set.
  pub handshake_opens :
      (si sr ei er : Priv) (a : Agreed c si sr ei er) (hello : List ℕ) (ch : Channel)
      → let started =
          start_channel c true true hello sr
            (some (handshake_frame a.m1))
            (some er)
            true
            (some (handshake_frame a.m3))
            ch in
        (started.0 ≡ none) × Opened ch.on_open hello a ch started.1
  unfolding start_channel finish_start
  handshake_opens si sr ei er a hello ch =
      rw
        (
          handshake_states si sr ei er a (tell (writes hello) (record ch { has_conn = true })),
          finish_start,
        )
        (refl, call_open-Opened ch.on_open hello a ch)

  sealed_fits :
      (kind : ℕ) (ciphertext : List ℕ) (ch : Channel)
      → (kind ≡ frame_text) ⊎ (kind ≡ frame_binary)
      → length ciphertext ≤ max_frame_payload
      → (write_sealed true kind (ok ciphertext) ch).0 ≡ none
  unfolding write_sealed write_bytes cap_for_kind
  sealed_fits kind ciphertext ch k small =
      let cap : cap_for_kind kind ≡ ok max_frame_payload = ground arith in
      rw (write_lem kind ciphertext max_frame_payload cap small, write_sealed)

  -- A payload that an endpoint takes is never too large for a frame: with a class that has a lane, a
  -- frame kind for payloads, an open connection that takes the write and a sending state that can
  -- encrypt, it is written without an error.
  pub write_scheduled-fits :
      Laws c
      → (call kind lane : ℕ) (class : TrafficClass) (payload : List ℕ) (ch ch0 : Channel)
        (cs : CipherState) (g : Gcm)
      → (endpoint_send call class kind payload ch0).0 ≡ none
      → lane_for_class class ≡ ok lane
      → (kind ≡ frame_text) ⊎ (kind ≡ frame_binary)
      → ch.send ≡ some cs
      → ch.has_conn ≡ true
      → ready_gcm c cs ≡ ok g
      → (write_scheduled c true class kind payload ch).0 ≡ none
  unfolding write_scheduled write_plain write_open encrypt encrypt_with_ad endpoint_send
      encode_envelope plaintext_for
  write_scheduled-fits laws call kind lane class payload ch ch0 cs g taken l k s h r =
      let v = lane_for_class-valid class lane l in
      let plain : plaintext_for class payload ≡ ok (lane ∷ payload) = rw (l, v, plaintext_for) in
      let small : length payload ≤ max_relay_payload_bytes = ground arith in
      let fits = laws.length-seal g (nonce_bytes cs.n) (lane ∷ payload) [] in
      rw (plain, s, h, write_plain)
        (rw (r, encrypt_with_ad)
          (sealed_fits kind (c.seal g (nonce_bytes cs.n) (lane ∷ payload) []) _ k
            (omega (arith, fits, small))))
