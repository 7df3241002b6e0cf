-- ===== src/RelayChannel/Exchange.antt =====
-- One request: what a successful write says, and that the other end reads it.
use share_bridge.Prelude.{
  append-nil, ℕ, ◌==◌, ◌≡◌, refl, sym, ap, ◌∙◌, ◌⊎◌, inl, inr, Bool, true, false, not, ◌&&◌, List,
  [], Option, none, some, lookup, nat_key, Result, ok, err, Result-cases, arith,
}
use share_bridge.RelayFrame.{frame_text, frame_binary, write_frame, decode_one_frame}
use share_bridge.RelayFrame.RoundTrip.{decode-write}
use share_bridge.Lane.{TrafficClass, lane_for_class, encode_envelope}
use share_bridge.Lane.Envelope.{decode-encode_envelope}
use share_bridge.Noise.Crypto.{Crypto, Laws, NoiseError}
use share_bridge.Noise.Cipher.{CipherState, encrypt}
use share_bridge.Noise.Transport.{decrypt-encrypt}
use share_bridge.RelayChannel.State.{Channel, ChannelError, writes, tell, handle}
use share_bridge.RelayChannel.Wire.{
  plaintext_for, write_bytes, write_open, write_plain, write_sealed, write_scheduled, read_one,
  read_with, read_sealed, read_opened, read_plain, deliver_lane,
}

module _ {Priv Pub Block Gcm : Type 0} (c : Crypto Priv Pub Block Gcm) where
  -- What a successful write says.
  pub record Written (class : TrafficClass) (kind : ℕ) (payload : List ℕ) (ch : Channel)
      (ch' : Channel) (frame : List ℕ) : Type 0 where
    pub lane : ℕ
    pub plaintext : List ℕ
    pub before : CipherState
    pub after : CipherState
    pub ciphertext : List ℕ
    pub lane_of : lane_for_class class ≡ ok lane
    pub enveloped : encode_envelope lane payload ≡ ok plaintext
    pub sending : ch.send ≡ some before
    pub sealed : encrypt c [] plaintext before ≡ (ok ciphertext, after)
    pub framed : write_frame kind ciphertext ≡ ok frame
    pub result : ch' ≡ tell (writes frame) (record ch { send = some after })

  plaintext_inv :
      (class : TrafficClass) (payload plaintext : List ℕ)
      → plaintext_for class payload ≡ ok plaintext
      → (lane : ℕ) × (lane_for_class class ≡ ok lane)
        × (encode_envelope lane payload ≡ ok plaintext)
  unfolding plaintext_for
  plaintext_inv class payload plaintext e = elim (Result-cases (lane_for_class class)) [
    | inl (x, l) ↦ absurd (ground arith)
    | inr (lane, l) ↦ (
      lane,
      l,
      elim (Result-cases (encode_envelope lane payload)) [
        | inl (x, v) ↦ absurd (ground arith)
        | inr (y, v) ↦ ground arith
      ],
    )
  ]

  sealed_inv :
      (kind : ℕ) (sealed : Result NoiseError (List ℕ)) (ch ch' : Channel)
      → write_sealed true kind sealed ch ≡ (none, ch')
      → (ciphertext : List ℕ) × (frame : List ℕ) × (sealed ≡ ok ciphertext)
        × (write_frame kind ciphertext ≡ ok frame)
        × (ch' ≡ tell (writes frame) ch)
  unfolding write_sealed write_bytes
  sealed_inv kind (err x) ch ch' e = absurd (ground arith)
  sealed_inv kind (ok ciphertext) ch ch' e = elim (Result-cases (write_frame kind ciphertext)) [
    | inl (x, f) ↦ absurd (ground arith)
    | inr (frame, f) ↦ (ciphertext, frame, refl, f, ground arith)
  ]

  open_inv :
      (kind : ℕ) (plaintext : List ℕ) (send : Option CipherState) (has_conn : Bool)
      (ch ch' : Channel)
      → write_open c true kind plaintext send has_conn ch ≡ (none, ch')
      → (cs : CipherState) × (send ≡ some cs)
        × (write_sealed true kind
              (encrypt c [] plaintext cs).0
              (record ch { send = some (encrypt c [] plaintext cs).1 })
            ≡ (none, ch'))
  unfolding write_open
  open_inv kind plaintext none has_conn ch ch' e = absurd (ground arith)
  open_inv kind plaintext (some cs) false ch ch' e = absurd (ground arith)
  open_inv kind plaintext (some cs) true ch ch' e = (cs, refl, e)

  plain_inv :
      (kind : ℕ) (r : Result ChannelError (List ℕ)) (ch ch' : Channel)
      → write_plain c true kind r ch ≡ (none, ch')
      → (plaintext : List ℕ) × (r ≡ ok plaintext)
        × (write_open c true kind plaintext ch.send ch.has_conn ch ≡ (none, ch'))
  unfolding write_plain
  plain_inv kind (err x) ch ch' e = absurd (ground arith)
  plain_inv kind (ok plaintext) ch ch' e = (plaintext, refl, e)

  pub written :
      (class : TrafficClass) (kind : ℕ) (payload : List ℕ) (ch ch' : Channel)
      → write_scheduled c true class kind payload ch ≡ (none, ch')
      → (frame : List ℕ) × Written class kind payload ch ch' frame
  unfolding write_scheduled
  written class kind payload ch ch' e =
      let (plaintext, p, e1) = plain_inv kind (plaintext_for class payload) ch ch' e in
      let (cs, s, e2) = open_inv kind plaintext ch.send ch.has_conn ch ch' e1 in
      let (lane, l, v) = plaintext_inv class payload plaintext p in
      let sealed = encrypt c [] plaintext cs in
      let (ciphertext, frame, z, f, r) =
        sealed_inv kind sealed.0 (record ch { send = some sealed.1 }) ch' e2 in
      (
        frame,
        record {
          lane = lane;
          plaintext = plaintext;
          before = cs;
          after = sealed.1;
          ciphertext = ciphertext;
          lane_of = l;
          enveloped = v;
          sending = s;
          sealed = ap (λ x. (x, sealed.1)) z;
          framed = f;
          result = r;
        },
      )

  -- The handler of a lane, where every lane has an endpoint.
  abbrev pub Handles : Channel → (ℕ → Option ℕ) → Type 0
  Handles ch handlers =
      (class : TrafficClass) (lane : ℕ)
      → lane_for_class class ≡ ok lane
      → lookup lane ch.endpoints ≡ some (handlers lane)

  module _ (laws : Laws c) where
    pub read-Written :
        (class : TrafficClass) (kind : ℕ) (payload : List ℕ) (ch ch' peer : Channel)
        (frame : List ℕ) (handlers : ℕ → Option ℕ)
        → (kind ≡ frame_text) ⊎ (kind ≡ frame_binary)
        → (w : Written class kind payload ch ch' frame) → peer.recv ≡ ch.send
        → Handles peer handlers
        → read_one c frame peer
          ≡ (true, handle (handlers w.lane) payload (record peer { recv = some w.after }))
    read-Written class kind payload ch ch' peer frame handlers k w r h =
        let d : decode_one_frame frame ≡ ok (record { kind = kind; payload = w.ciphertext }, []) =
          ap decode_one_frame (sym (append-nil frame))
          ∙ decode-write kind w.ciphertext [] frame w.framed in
        let allowed : (not (kind == frame_text) && not (kind == frame_binary)) ≡ false =
          ground arith in
        let opens = decrypt-encrypt c laws [] w.plaintext w.ciphertext w.before w.after w.sealed in
        let lane = (decode-encode_envelope w.lane payload w.plaintext).0 w.enveloped in
        unfold read_one read_with read_sealed read_opened read_plain deliver_lane in
        rw (d, allowed, r ∙ w.sending, read_one)
          (rw (opens, read_sealed)
            (rw (lane, read_plain) (rw (h class w.lane w.lane_of, deliver_lane))))
