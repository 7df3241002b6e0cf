-- ===== src/RelayChannel/Callbacks.antt =====
-- What each operation of a channel does to the callbacks of its close.
use share_bridge.Prelude.{
  ℕ, ◌+◌, ◌==◌, ◌≡◌, refl, sym, ap, ◌∙◌, inl, inr, Bool, true, false, not, ◌&&◌, List, [], ◌∷◌,
  ◌++◌, Option, none, some, Result, ok, err, lookup, nat_key, if◌then◌else◌, arith, Bool-cases,
  Option-cases, Result-cases,
}
use share_bridge.Lane.{decode_envelope}
use share_bridge.RelayFrame.{frame_text, frame_binary, write_frame, decode_one_frame}
use share_bridge.Noise.Crypto.{Crypto, NoiseError}
use share_bridge.Noise.Cipher.{CipherState, encrypt, decrypt}
use share_bridge.RelayChannel.State.{
  Channel, ChannelError, Callback, Told, closes_now, closes_normal, owner, listener, add_on_close,
  owner_callback, listener_callbacks, notify_close, tell, tell_conn, abort_transport,
  close_scheduler, close_channel, handle,
}
use share_bridge.RelayChannel.Wire.{
  write_bytes, write_sealed, write_open, write_plain, refuse, deliver_lane, read_plain, read_opened,
  read_with, read_sealed, read_one, read_messages, read_loop,
}

-- How often a listener was called.
abbrev pub calls : ℕ → List Callback → ℕ
calls h [] = 0
calls h (owner k ∷ xs) = calls h xs
calls h (listener k ∷ xs) = (if k == h then 1 else 0) + calls h xs

abbrev pub times : ℕ → List ℕ → ℕ
times h [] = 0
times h (k ∷ ks) = (if k == h then 1 else 0) + times h ks

calls-append : (h : ℕ) (xs ys : List Callback) → calls h (xs ++ ys) ≡ calls h xs + calls h ys
calls-append h [] ys = omega arith
calls-append h (owner k ∷ xs) ys = calls-append h xs ys
calls-append h (listener k ∷ xs) ys = omega (arith, calls-append h xs ys)

times-append : (h : ℕ) (xs ys : List ℕ) → times h (xs ++ ys) ≡ times h xs + times h ys
times-append h [] ys = omega arith
times-append h (k ∷ xs) ys = omega (arith, times-append h xs ys)

calls-listeners : (h : ℕ) (ks : List ℕ) → calls h (listener_callbacks ks) ≡ times h ks
unfolding listener_callbacks
calls-listeners h [] = refl
calls-listeners h (k ∷ ks) = omega (arith, calls-listeners h ks)

calls-owner : (h : ℕ) (o : Option ℕ) → calls h (owner_callback o) ≡ 0
unfolding owner_callback
calls-owner h none = refl
calls-owner h (some k) = refl

-- A listener was asked for `n` times: while the channel is open none has been called, and after that
-- each has been called as often as it was asked for.
pub record Answers (h n : ℕ) (ch : Channel) : Type 0 where
  pub while_open : ch.closed ≡ false → (calls h ch.called ≡ 0) × (times h ch.close_listeners ≡ n)
  pub once_closed : ch.closed ≡ true → calls h ch.called ≡ n

-- The callbacks are as they were.
pub record SameCallbacks (ch ch' : Channel) : Type 0 where
  pub closed : ch'.closed ≡ ch.closed
  pub called : ch'.called ≡ ch.called
  pub listeners : ch'.close_listeners ≡ ch.close_listeners

pub SameCallbacks-Answers :
    (h n : ℕ) {ch ch' : Channel} → SameCallbacks ch ch' → Answers h n ch → Answers h n ch'
SameCallbacks-Answers h n {ch = ch} {ch' = ch'} s a = record {
  while_open = λ o.
      let (q, t) = a.while_open (sym s.closed ∙ o) in
      (ap (calls h) s.called ∙ q, ap (times h) s.listeners ∙ t);
  once_closed = λ o. ap (calls h) s.called ∙ a.once_closed (sym s.closed ∙ o);
}

pub notify-Answers : (h n : ℕ) (ch : Channel) → Answers h n ch → Answers h n (notify_close ch)
unfolding notify_close
notify-Answers h n ch a =
    let first =
      calls-append h (ch.called ++ owner_callback ch.on_close)
        (listener_callbacks ch.close_listeners) in
    let second = calls-append h ch.called (owner_callback ch.on_close) in
    let third = calls-listeners h ch.close_listeners in
    let fourth = calls-owner h ch.on_close in
    record { while_open = λ o. ground arith; once_closed = λ o. ground arith }

pub add-Answers :
    (h n k : ℕ) (ch : Channel)
    → Answers h n ch
    → Answers h ((if k == h then 1 else 0) + n) (add_on_close (some k) ch)
unfolding add_on_close
add-Answers h n k ch a =
    let first = calls-append h ch.called (listener k ∷ []) in
    let second = times-append h ch.close_listeners (k ∷ []) in
    record { while_open = λ o. ground arith; once_closed = λ o. ground arith }

pub same_refl : (ch : Channel) → SameCallbacks ch ch
same_refl ch = record { closed = refl; called = refl; listeners = refl }

same-deliver_lane :
    (lane : ℕ) (payload : List ℕ) (ch : Channel) → SameCallbacks ch (deliver_lane lane payload ch).1
unfolding deliver_lane refuse tell handle
same-deliver_lane lane payload ch = elim (Option-cases (lookup lane ch.endpoints)) [
  | inl n ↦ rw (n, deliver_lane) (record { closed = refl; called = refl; listeners = refl })
  | inr (none, n) ↦ rw (n, deliver_lane) (same_refl ch)
  | inr (some k, n) ↦
      rw (n, deliver_lane) (record { closed = refl; called = refl; listeners = refl })
]

same-read_plain : (plain : List ℕ) (ch : Channel) → SameCallbacks ch (read_plain plain ch).1
unfolding read_plain refuse tell
same-read_plain plain ch = elim (Result-cases (decode_envelope plain)) [
  | inl (e, n) ↦ rw (n, read_plain) (record { closed = refl; called = refl; listeners = refl })
  | inr ((lane, payload), n) ↦ rw (n, read_plain) (same-deliver_lane lane payload ch)
]

same-read_opened :
    (r : Result NoiseError (List ℕ) × CipherState) (ch : Channel)
    → SameCallbacks ch (read_opened r ch).1
unfolding read_opened refuse tell
same-read_opened (err e, cs) ch = record { closed = refl; called = refl; listeners = refl }
same-read_opened (ok plain, cs) ch =
    let s = same-read_plain plain (record ch { recv = some cs }) in
    record { closed = s.closed; called = s.called; listeners = s.listeners }

pub same_trans :
    {ch ch1 ch2 : Channel} → SameCallbacks ch ch1 → SameCallbacks ch1 ch2 → SameCallbacks ch ch2
same_trans s t = record {
  closed = t.closed ∙ s.closed;
  called = t.called ∙ s.called;
  listeners = t.listeners ∙ s.listeners;
}

pub tell_conn-Answers :
    (h n : ℕ) (x : Told) (ch : Channel) → Answers h n ch → Answers h n (tell_conn x ch)
unfolding tell_conn tell
tell_conn-Answers h n x ch a = record {
  while_open = λ o. ground arith;
  once_closed = λ o. ground arith;
}

abort-Answers : (h n : ℕ) (ch : Channel) → Answers h n ch → Answers h n (abort_transport ch)
unfolding abort_transport
abort-Answers h n ch a =
    notify-Answers h n (tell_conn closes_now ch) (tell_conn-Answers h n closes_now ch a)

bytes-Answers :
    (h n : ℕ) (accepts : Bool) (frame : List ℕ) (ch : Channel)
    → Answers h n ch
    → Answers h n (write_bytes accepts frame ch).1
unfolding write_bytes tell
bytes-Answers h n true frame ch a = record {
  while_open = a.while_open;
  once_closed = a.once_closed;
}
bytes-Answers h n false frame ch a = abort-Answers h n ch a

module _ {Priv Pub Block Gcm : Type 0} (c : Crypto Priv Pub Block Gcm) where
  same-read_with :
      (x : List ℕ) (o : Option CipherState) (ch : Channel) → SameCallbacks ch (read_with c x o ch).1
  unfolding read_with read_sealed
  same-read_with x none ch = same_refl ch
  same-read_with x (some cs) ch = same-read_opened (decrypt c [] x cs) ch

  same-read_one : (m : List ℕ) (ch : Channel) → SameCallbacks ch (read_one c m ch).1
  unfolding read_one refuse tell read_sealed
  same-read_one m ch = elim (Result-cases (decode_one_frame m)) [
    | inl (e, n) ↦ rw (n, read_one) (record { closed = refl; called = refl; listeners = refl })
    | inr ((frame, b ∷ rest), n) ↦
        rw (n, read_one) (record { closed = refl; called = refl; listeners = refl })
    | inr ((frame, []), n) ↦
        rw (n, read_one)
          (elim (Bool-cases (not (frame.kind == frame_text) && not (frame.kind == frame_binary))) [
            | inl k ↦ rw k (record { closed = refl; called = refl; listeners = refl })
            | inr k ↦ rw k (same-read_with frame.payload ch.recv ch)
          ])
  ]

  same-read_messages :
      (ms : List (List ℕ)) (ch : Channel) → SameCallbacks ch (read_messages c ms ch)
  unfolding read_messages
  same-read_messages [] ch = same_refl ch
  same-read_messages (m ∷ ms) ch = elim (Bool-cases (read_one c m ch).0) [
    | inl x ↦
        rw (x, read_messages)
          (same_trans (same-read_one m ch) (same-read_messages ms (read_one c m ch).1))
    | inr x ↦ rw (x, read_messages) (same-read_one m ch)
  ]

  -- What writeScheduled does to the callbacks: nothing, or it aborts a channel with the same ones.
  written-Answers :
      (h n : ℕ) (accepts : Bool) (kind : ℕ) (r : Result NoiseError (List ℕ)) (ch : Channel)
      → Answers h n ch
      → Answers h n (write_sealed accepts kind r ch).1
  unfolding write_sealed write_bytes tell
  written-Answers h n accepts kind (err e) ch a = abort-Answers h n ch a
  written-Answers h n accepts kind (ok x) ch a = elim (Result-cases (write_frame kind x)) [
    | inl (e, f) ↦ rw (f, write_sealed) (abort-Answers h n ch a)
    | inr (frame, f) ↦ rw (f, write_sealed) (bytes-Answers h n accepts frame ch a)
  ]

  open-Answers :
      (h n : ℕ) (accepts : Bool) (kind : ℕ) (x : List ℕ) (send : Option CipherState) (b : Bool)
      (ch : Channel)
      → Answers h n ch
      → Answers h n (write_open c accepts kind x send b ch).1
  unfolding write_open
  open-Answers h n accepts kind x none b ch a = a
  open-Answers h n accepts kind x (some cs) false ch a = a
  open-Answers h n accepts kind x (some cs) true ch a =
      written-Answers h n accepts kind (encrypt c [] x cs).0
        (record ch { send = some (encrypt c [] x cs).1 })
        (record { while_open = a.while_open; once_closed = a.once_closed })

  pub plain-Answers :
      (h n : ℕ) (accepts : Bool) (kind : ℕ) (r : Result ChannelError (List ℕ)) (ch : Channel)
      → Answers h n ch
      → Answers h n (write_plain c accepts kind r ch).1
  unfolding write_plain
  plain-Answers h n accepts kind (err e) ch a = a
  plain-Answers h n accepts kind (ok x) ch a =
      open-Answers h n accepts kind x ch.send ch.has_conn ch a

  pub loop-Answers :
      (h n : ℕ) (ms : List (List ℕ)) (ch : Channel)
      → Answers h n ch
      → Answers h n (read_loop c ms ch)
  unfolding read_loop close_scheduler
  loop-Answers h n ms ch a =
      let t = SameCallbacks-Answers h n (same-read_messages ms ch) a in
      notify-Answers h n (close_scheduler (read_messages c ms ch))
        (record { while_open = t.while_open; once_closed = t.once_closed })

  pub close-Answers : (h n : ℕ) (ch : Channel) → Answers h n ch → Answers h n (close_channel ch)
  unfolding close_channel close_scheduler
  close-Answers h n ch a = notify-Answers h n _ (
      tell_conn-Answers h n (closes_normal "relay closed") (close_scheduler ch)
        (record { while_open = a.while_open; once_closed = a.once_closed }))
