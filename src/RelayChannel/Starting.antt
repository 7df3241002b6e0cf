-- ===== src/RelayChannel/Starting.antt =====
-- What Start does to the callbacks of a channel's close.
use share_bridge.Prelude.{
  ℕ, ◌≡◌, ◌≢◌, refl, inl, inr, Bool, true, false, List, Option, none, some, Result, ok, err,
  Result-cases, arith,
}
use share_bridge.RelayFrame.{frame_handshake, write_frame}
use share_bridge.Noise.Crypto.{Crypto, NoiseError}
use share_bridge.Noise.Cipher.{CipherState}
use share_bridge.Noise.Handshake.{
  NoiseXx, new_responder, read_message1, write_message2, read_message3, split,
}
use share_bridge.RelayChannel.State.{
  Channel, ChannelError, dial_failed, write_failed, writes, closes_now, tell, tell_conn,
  notify_close, close_scheduler,
}
use share_bridge.RelayChannel.Start.{
  Outcome, decode_read, keep_states, call_open, after_message3, receive_message3, send_message2,
  after_message1, run_handshake, abandon, finish_start, start_channel,
}
use share_bridge.RelayChannel.Callbacks.{
  SameCallbacks, SameCallbacks-Answers, same_refl, same_trans, Answers, notify-Answers,
  tell_conn-Answers,
}

-- A close leaves the channel closed.
pub notify-closed : (ch : Channel) → (notify_close ch).closed ≡ true
unfolding notify_close
notify-closed ch = ground arith

same-keep_states :
    (o : Option (CipherState × CipherState)) (ch : Channel) → SameCallbacks ch (keep_states o ch).1
unfolding keep_states
same-keep_states none ch = same_refl ch
same-keep_states (some (a, b)) ch = record { closed = refl; called = refl; listeners = refl }

same-tell : (frame : List ℕ) (ch : Channel) → SameCallbacks ch (tell (writes frame) ch)
unfolding tell
same-tell frame ch = record { closed = refl; called = refl; listeners = refl }

same-call_open : (o : Option ℕ) (ch : Channel) → SameCallbacks ch (call_open o ch)
unfolding call_open
same-call_open none ch = same_refl ch
same-call_open (some handler) ch = record { closed = refl; called = refl; listeners = refl }

module _ {Priv Pub Block Gcm : Type 0} (c : Crypto Priv Pub Block Gcm) where
  same-message3 :
      (r : Result NoiseError (Unit {0}) × NoiseXx Priv) (ch : Channel)
      → SameCallbacks ch (after_message3 c r ch).1
  unfolding after_message3
  same-message3 (err e, n) ch = same_refl ch
  same-message3 (ok u, n) ch = same-keep_states (split c n) ch

  same-receive3 :
      (raw3 : Option (List ℕ)) (n : NoiseXx Priv) (ch : Channel)
      → SameCallbacks ch (receive_message3 c raw3 n ch).1
  unfolding receive_message3
  same-receive3 raw3 n ch = elim (Result-cases (decode_read raw3)) [
    | inl (e, q) ↦ rw (q, receive_message3) (same_refl ch)
    | inr (msg3, q) ↦ rw (q, receive_message3) (same-message3 (read_message3 c msg3 n) ch)
  ]

  same-send2 :
      (accepts : Bool) (raw3 : Option (List ℕ)) (r : Result NoiseError (List ℕ) × NoiseXx Priv)
      (ch : Channel)
      → SameCallbacks ch (send_message2 c accepts raw3 r ch).1
  unfolding send_message2
  same-send2 accepts raw3 (err e, n) ch = same_refl ch
  same-send2 true raw3 (ok msg2, n) ch = elim (Result-cases (write_frame frame_handshake msg2)) [
    | inl (e, q) ↦ rw (q, send_message2) (same_refl ch)
    | inr (frame, q) ↦
        rw (q, send_message2)
          (same_trans (same-tell frame ch) (same-receive3 raw3 n (tell (writes frame) ch)))
  ]
  same-send2 false raw3 (ok msg2, n) ch = elim (Result-cases (write_frame frame_handshake msg2)) [
    | inl (e, q) ↦ rw (q, send_message2) (same_refl ch)
    | inr (frame, q) ↦ rw (q, send_message2) (same_refl ch)
  ]

  same-message1 :
      (generated : Option Priv) (accepts : Bool) (raw3 : Option (List ℕ))
      (r : Result NoiseError (Unit {0}) × NoiseXx Priv) (ch : Channel)
      → SameCallbacks ch (after_message1 c generated accepts raw3 r ch).1
  unfolding after_message1
  same-message1 generated accepts raw3 (err e, n) ch = same_refl ch
  same-message1 generated accepts raw3 (ok u, n) ch =
      same-send2 accepts raw3 (write_message2 c generated n) ch

  same-run_handshake :
      (raw1 : Option (List ℕ)) (generated : Option Priv) (accepts : Bool) (raw3 : Option (List ℕ))
      (n : NoiseXx Priv) (ch : Channel)
      → SameCallbacks ch (run_handshake c raw1 generated accepts raw3 n ch).1
  unfolding run_handshake
  same-run_handshake raw1 generated accepts raw3 n ch = elim (Result-cases (decode_read raw1)) [
    | inl (e, q) ↦ rw (q, run_handshake) (same_refl ch)
    | inr (msg1, q) ↦
        rw (q, run_handshake) (same-message1 generated accepts raw3 (read_message1 c msg1 n) ch)
  ]

  -- What an outcome of Start does to the callbacks, and that a failure leaves the channel closed.
  pub record Started (h n : ℕ) (o : Outcome) : Type 0 where
    pub answers : Answers h n o.1
    pub fails : o.0 ≢ none → o.1.closed ≡ true

  abandon-Started :
      (h n : ℕ) (e : ChannelError) (ch : Channel) → Answers h n ch → Started h n (abandon c e ch)
  unfolding abandon close_scheduler
  abandon-Started h n e ch a = record {
    answers = notify-Answers h n (tell_conn closes_now (close_scheduler ch)) (
        tell_conn-Answers h n closes_now (close_scheduler ch)
          (record { while_open = a.while_open; once_closed = a.once_closed }));
    fails = λ x. notify-closed (tell_conn closes_now (close_scheduler ch));
  }

  finish-Started : (h n : ℕ) (o : Outcome) → Answers h n o.1 → Started h n (finish_start c o)
  unfolding finish_start tell
  finish-Started h n (some e, ch) a =
      abandon-Started h n e (tell closes_now ch)
        (record { while_open = a.while_open; once_closed = a.once_closed })
  finish-Started h n (none, ch) a = record {
    answers = SameCallbacks-Answers h n (same-call_open ch.on_open ch) a;
    fails = λ x. absurd (x refl);
  }

  pub start-Started :
      (h n : ℕ) (dials hello_accepted : Bool) (hello : List ℕ) (static : Priv)
      (raw1 : Option (List ℕ)) (generated : Option Priv) (accepts : Bool) (raw3 : Option (List ℕ))
      (ch : Channel)
      → Answers h n ch
      → Started h n
          (start_channel c dials hello_accepted hello static raw1 generated accepts raw3 ch)
  unfolding start_channel tell
  start-Started h n false hello_accepted hello static raw1 generated accepts raw3 ch a =
      abandon-Started h n dial_failed ch a
  start-Started h n true false hello static raw1 generated accepts raw3 ch a =
      abandon-Started h n write_failed (tell closes_now (record ch { has_conn = true }))
        (record { while_open = a.while_open; once_closed = a.once_closed })
  start-Started h n true true hello static raw1 generated accepts raw3 ch a =
      let connected = tell (writes hello) (record ch { has_conn = true }) in
      finish-Started h n _ (
        SameCallbacks-Answers h n
          (same-run_handshake raw1 generated accepts raw3 (new_responder c static) connected)
          (record { while_open = a.while_open; once_closed = a.once_closed }))
