-- ===== src/RelayChannel/Start.antt =====
-- Start of the channel: the websocket, the relay's hello, and the Noise handshake as the responder.
-- What the websocket does, and the ephemeral key, are arguments. The channel keeps its noise state
-- for the handshake only, which therefore returns what Split gives and no more.
use share_bridge.Prelude.{
  ℕ, ◌==◌, Bool, true, not, List, [], ◌∷◌, ◌++◌, Option, none, some, if◌then◌else◌, Result, ok, err,
}
use share_bridge.RelayFrame.{frame_handshake, write_frame, decode_one_frame}
use share_bridge.Noise.Crypto.{Crypto, NoiseError}
use share_bridge.Noise.Cipher.{CipherState}
use share_bridge.Noise.Handshake.{
  NoiseXx, new_responder, read_message1, write_message2, read_message3, split,
}
use share_bridge.RelayChannel.State.{
  Channel, ChannelError, frame_failed, trailing_bytes, wrong_kind, noise_failed, split_panics,
  read_failed, write_failed, dial_failed, writes, closes_now, tell, tell_conn, close_scheduler,
  notify_close,
}

-- decodeFramePayload
unfoldable pub decode_frame_payload : List ℕ → ℕ → Result ChannelError (List ℕ)
unfolding decode_one_frame
decode_frame_payload raw want = elim (decode_one_frame raw) [
  | err e ↦ err frame_failed
  | ok (frame, []) ↦ if not (frame.kind == want) then err wrong_kind else ok frame.payload
  | ok (frame, b ∷ rest) ↦ err trailing_bytes
]

unfoldable pub decode_read : Option (List ℕ) → Result ChannelError (List ℕ)
unfolding decode_frame_payload
decode_read none = err read_failed
decode_read (some raw) = decode_frame_payload raw frame_handshake

abbrev pub Outcome : Type 0
Outcome = Option ChannelError × Channel

-- The end of runHandshake, with the two cipher states.
unfoldable pub keep_states : Option (CipherState × CipherState) → Channel → Outcome
keep_states none ch = (some split_panics, ch)
keep_states (some (send, recv)) ch = (none, record ch { send = some send; recv = some recv })

-- onOpen, where it is set.
unfoldable pub call_open : Option ℕ → Channel → Channel
call_open none ch = ch
call_open (some handler) ch = record ch { opened = ch.opened ++ handler ∷ [] }

module _ {Priv Pub Block Gcm : Type 0} (c : Crypto Priv Pub Block Gcm) where
  unfoldable pub after_message3 : Result NoiseError (Unit {0}) × NoiseXx Priv → Channel → Outcome
  unfolding keep_states split
  after_message3 (err e, n) ch = (some noise_failed, ch)
  after_message3 (ok u, n) ch = keep_states (split c n) ch

  unfoldable pub receive_message3 : Option (List ℕ) → NoiseXx Priv → Channel → Outcome
  unfolding after_message3 decode_read
  receive_message3 raw3 n ch = elim (decode_read raw3) [
    | err e ↦ (some e, ch)
    | ok msg3 ↦ after_message3 (read_message3 c msg3 n) ch
  ]

  unfoldable pub send_message2 :
      Bool → Option (List ℕ) → Result NoiseError (List ℕ) × NoiseXx Priv → Channel → Outcome
  unfolding receive_message3 tell
  send_message2 accepts raw3 (err e, n) ch = (some noise_failed, ch)
  send_message2 accepts raw3 (ok msg2, n) ch = elim (write_frame frame_handshake msg2) [
    | err e ↦ (some frame_failed, ch)
    | ok frame ↦
        if accepts
        then receive_message3 raw3 n (tell (writes frame) ch)
        else (some write_failed, ch)
  ]

  unfoldable pub after_message1 :
      Option Priv
      → Bool
      → Option (List ℕ)
      → Result NoiseError (Unit {0}) × NoiseXx Priv
      → Channel
      → Outcome
  unfolding send_message2
  after_message1 generated accepts raw3 (err e, n) ch = (some noise_failed, ch)
  after_message1 generated accepts raw3 (ok u, n) ch =
      send_message2 accepts raw3 (write_message2 c generated n) ch

  -- runHandshake
  unfoldable pub run_handshake :
      Option (List ℕ) → Option Priv → Bool → Option (List ℕ) → NoiseXx Priv → Channel → Outcome
  unfolding after_message1 decode_read
  run_handshake raw1 generated accepts raw3 n ch = elim (decode_read raw1) [
    | err e ↦ (some e, ch)
    | ok msg1 ↦ after_message1 generated accepts raw3 (read_message1 c msg1 n) ch
  ]

  -- What Start defers for when it does not get to its end.
  unfoldable pub abandon : ChannelError → Channel → Outcome
  unfolding close_scheduler tell_conn notify_close
  abandon e ch = (some e, notify_close (tell_conn closes_now (close_scheduler ch)))

  unfoldable pub finish_start : Outcome → Outcome
  unfolding abandon tell call_open
  finish_start (some e, ch) = abandon e (tell closes_now ch)
  finish_start (none, ch) = (none, call_open ch.on_open ch)

  -- Start, until the read loop is running.
  unfoldable pub start_channel :
      Bool
      → Bool
      → List ℕ
      → Priv
      → Option (List ℕ)
      → Option Priv
      → Bool
      → Option (List ℕ)
      → Channel
      → Outcome
  unfolding abandon tell run_handshake finish_start new_responder
  start_channel dials hello_accepted hello static raw1 generated accepts raw3 ch =
      if not dials
      then abandon dial_failed ch
      else let connected = record ch { has_conn = true } in
        if not hello_accepted
        then abandon write_failed (tell closes_now connected)
        else finish_start (
            run_handshake raw1 generated accepts raw3 (new_responder c static)
              (tell (writes hello) connected))
