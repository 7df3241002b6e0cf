-- ===== src/RelayChannel/Wire.antt =====
-- What the channel writes for the scheduler, and its read loop.
use share_bridge.Prelude.{
  ℕ, ◌==◌, Bool, true, false, not, ◌&&◌, List, [], ◌∷◌, String, Option, none, some, lookup, nat_key,
  if◌then◌else◌, Result, ok, err,
}
use share_bridge.RelayFrame.{frame_text, frame_binary, write_frame, decode_one_frame}
use share_bridge.Lane.{TrafficClass, lane_for_class, encode_envelope, decode_envelope}
use share_bridge.Noise.Crypto.{Crypto, NoiseError}
use share_bridge.Noise.Cipher.{CipherState, encrypt, decrypt}
use share_bridge.RelayChannel.State.{
  Channel, ChannelError, unknown_class, bad_lane, not_open, encrypt_failed, frame_failed,
  write_failed, writes, closes_policy, tell, abort_transport, close_scheduler, notify_close, handle,
}

-- The plaintext of a scheduled request: its payload in the envelope of its class's lane.
unfoldable pub plaintext_for : TrafficClass → List ℕ → Result ChannelError (List ℕ)
unfolding lane_for_class encode_envelope
plaintext_for class payload = elim (lane_for_class class) [
  | err e ↦ err unknown_class
  | ok lane ↦ elim (encode_envelope lane payload) [ err e ↦ err bad_lane | ok bytes ↦ ok bytes ]
]

-- The frame is written; `accepts` is what the websocket does with it.
unfoldable pub write_bytes : Bool → List ℕ → Channel → Option ChannelError × Channel
unfolding tell abort_transport
write_bytes true frame ch = (none, tell (writes frame) ch)
write_bytes false frame ch = (some write_failed, abort_transport ch)

-- After the encryption.
unfoldable pub write_sealed :
    Bool → ℕ → Result NoiseError (List ℕ) → Channel → Option ChannelError × Channel
unfolding write_frame write_bytes abort_transport
write_sealed accepts kind (err e) ch = (some encrypt_failed, abort_transport ch)
write_sealed accepts kind (ok ciphertext) ch = elim (write_frame kind ciphertext) [
  | err e ↦ (some frame_failed, abort_transport ch)
  | ok frame ↦ write_bytes accepts frame ch
]

-- The close of the websocket with which the read loop gives up.
unfoldable pub refuse : String → Channel → Bool × Channel
unfolding tell
refuse reason ch = (false, tell (closes_policy reason) ch)

-- The endpoint's handler gets the payload.
unfoldable pub deliver_lane : ℕ → List ℕ → Channel → Bool × Channel
unfolding refuse handle lookup
deliver_lane lane payload ch = elim (lookup lane ch.endpoints) [
  | none ↦ refuse "unknown encrypted lane" ch
  | some handler ↦ (true, handle handler payload ch)
]

unfoldable pub read_plain : List ℕ → Channel → Bool × Channel
unfolding decode_envelope deliver_lane refuse
read_plain plain ch = elim (decode_envelope plain) [
  | err e ↦ refuse "invalid encrypted lane" ch
  | ok (lane, payload) ↦ deliver_lane lane payload ch
]

-- What the decryption gave, and the receiving state after it.
unfoldable pub read_opened : Result NoiseError (List ℕ) × CipherState → Channel → Bool × Channel
unfolding read_plain refuse
read_opened (err e, cs) ch = refuse "relay decrypt failed" (record ch { recv = some cs })
read_opened (ok plain, cs) ch = read_plain plain (record ch { recv = some cs })

module _ {Priv Pub Block Gcm : Type 0} (c : Crypto Priv Pub Block Gcm) where
  -- writeScheduled from its test of the sending state and the connection.
  unfoldable pub write_open :
      Bool → ℕ → List ℕ → Option CipherState → Bool → Channel → Option ChannelError × Channel
  unfolding write_sealed encrypt
  write_open accepts kind plaintext none has_conn ch = (some not_open, ch)
  write_open accepts kind plaintext (some cs) false ch = (some not_open, ch)
  write_open accepts kind plaintext (some cs) true ch =
      let sealed = encrypt c [] plaintext cs in
      write_sealed accepts kind sealed.0 (record ch { send = some sealed.1 })

  unfoldable pub write_plain :
      Bool → ℕ → Result ChannelError (List ℕ) → Channel → Option ChannelError × Channel
  unfolding write_open
  write_plain accepts kind (err e) ch = (some e, ch)
  write_plain accepts kind (ok plaintext) ch =
      write_open accepts kind plaintext ch.send ch.has_conn ch

  -- writeScheduled
  unfoldable pub write_scheduled :
      Bool → TrafficClass → ℕ → List ℕ → Channel → Option ChannelError × Channel
  unfolding plaintext_for write_plain
  write_scheduled accepts class kind payload ch =
      write_plain accepts kind (plaintext_for class payload) ch

  -- The decryption in the read loop, with the receiving state.
  unfoldable pub read_sealed : List ℕ → CipherState → Channel → Bool × Channel
  unfolding decrypt read_opened
  read_sealed ciphertext cs ch = read_opened (decrypt c [] ciphertext cs) ch

  -- A channel that reads has finished its handshake, so the receiving state is there.
  unfoldable pub read_with : List ℕ → Option CipherState → Channel → Bool × Channel
  unfolding read_sealed
  read_with ciphertext none ch = (false, ch)
  read_with ciphertext (some cs) ch = read_sealed ciphertext cs ch

  -- One message of the read loop: whether the loop goes on.
  unfoldable pub read_one : List ℕ → Channel → Bool × Channel
  unfolding decode_one_frame read_with refuse
  read_one bytes ch = elim (decode_one_frame bytes) [
    | err e ↦ refuse "invalid relay frame" ch
    | ok (frame, []) ↦
        if not (frame.kind == frame_text) && not (frame.kind == frame_binary)
        then refuse "unexpected relay frame kind" ch
        else read_with frame.payload ch.recv ch
    | ok (frame, b ∷ rest) ↦ refuse "multiple relay frames in websocket message" ch
  ]

  -- The loop over the messages that arrive, after which a read fails.
  unfoldable pub read_messages : List (List ℕ) → Channel → Channel
  unfolding read_one
  read_messages [] ch = ch
  read_messages (m ∷ ms) ch =
      let (goes_on, ch') = read_one m ch in
      elim goes_on [ true ↦ read_messages ms ch' | false ↦ ch' ]

  -- readLoop, with what it defers.
  unfoldable pub read_loop : List (List ℕ) → Channel → Channel
  unfolding read_messages close_scheduler notify_close
  read_loop ms ch = notify_close (close_scheduler (read_messages ms ch))
