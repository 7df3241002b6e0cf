-- ===== src/RelayChannel/Closing.antt =====
-- Any sequence of operations on a channel, Start among them, and the callbacks of its close.
use share_bridge.Prelude.{
  ℕ, ◌+◌, ◌==◌, ◌≡◌, ◌≢◌, refl, subst, inl, inr, Bool, true, false, List, [], ◌∷◌, Option, none,
  some, lookup, nat_key, if◌then◌else◌, arith, Option-cases,
}
use share_bridge.Lane.{TrafficClass}
use share_bridge.Noise.Crypto.{Crypto}
use share_bridge.RelayChannel.State.{
  Channel, new_channel, set_on_open, set_on_close, add_on_close, close_channel, set_on_message,
  closes_normal, tell_conn, close_scheduler,
}
use share_bridge.RelayChannel.Wire.{plaintext_for, write_scheduled, read_messages, read_loop}
use share_bridge.RelayChannel.Start.{start_channel}
use share_bridge.RelayChannel.Starting.{start-Started, notify-closed}
use share_bridge.RelayChannel.Callbacks.{
  calls, Answers, add-Answers, plain-Answers, loop-Answers, close-Answers,
}

module _ {Priv Pub Block Gcm : Type 0} (c : Crypto Priv Pub Block Gcm) where
  pub data Event : Type 0 where
    adds : Option ℕ → Event
    sets_open sets_owner : Option ℕ → Event
    sets_handler : ℕ → Option ℕ → Event
    writes_request : Bool → TrafficClass → ℕ → List ℕ → Event
    reads : List (List ℕ) → Event
    closes_channel : Event
    starts :
        Bool → Bool → List ℕ → Priv → Option (List ℕ) → Option Priv → Bool → Option (List ℕ) → Event

  unfoldable pub step : Event → Channel → Channel
  unfolding add_on_close set_on_open set_on_close set_on_message write_scheduled read_loop
      close_channel start_channel
  step (adds k) ch = add_on_close k ch
  step (sets_open k) ch = set_on_open k ch
  step (sets_owner k) ch = set_on_close k ch
  step (sets_handler lane k) ch = set_on_message lane k ch
  step (writes_request accepts class kind payload) ch =
      (write_scheduled c accepts class kind payload ch).1
  step (reads ms) ch = read_loop c ms ch
  step closes_channel ch = close_channel ch
  step (starts dials hello_accepted hello static raw1 generated accepts raw3) ch =
      (start_channel c dials hello_accepted hello static raw1 generated accepts raw3 ch).1

  unfoldable pub run : List Event → Channel → Channel
  unfolding step
  run [] ch = ch
  run (x ∷ xs) ch = run xs (step x ch)

  -- How often a listener is asked for.
  abbrev pub asked_by : ℕ → Event → ℕ
  asked_by h (adds (some k)) = if k == h then 1 else 0
  asked_by h _ = 0

  abbrev pub asked : ℕ → List Event → ℕ
  asked h [] = 0
  asked h (x ∷ xs) = asked_by h x + asked h xs

  -- The events after which a channel has to be closed: Close, the end of the read loop, and a
  -- Start that fails.
  pub Closes : Event → Channel → Type 0
  Closes closes_channel ch = Unit
  Closes (reads ms) ch = Unit
  Closes (starts dials hello_accepted hello static raw1 generated accepts raw3) ch =
      (start_channel c dials hello_accepted hello static raw1 generated accepts raw3 ch).0 ≢ none
  Closes _ ch = true ≡ false

  as_many : {h n m : ℕ} {ch : Channel} → n ≡ m → Answers h n ch → Answers h m ch
  as_many {h = h} {ch = ch} e a = subst (λ k. Answers h k ch) e a

  set_on_message-Answers :
      (h n lane : ℕ) (k : Option ℕ) (ch : Channel)
      → Answers h n ch
      → Answers h n (set_on_message lane k ch)
  unfolding set_on_message
  set_on_message-Answers h n lane k ch a = elim (Option-cases (lookup lane ch.endpoints)) [
    | inl e ↦ rw (e, set_on_message) a
    | inr (old, e) ↦
        rw (e, set_on_message) (record { while_open = a.while_open; once_closed = a.once_closed })
  ]

  step-Answers :
      (h n : ℕ) (x : Event) (ch : Channel)
      → Answers h n ch
      → Answers h (asked_by h x + n) (step x ch)
  unfolding step set_on_open set_on_close add_on_close write_scheduled
  step-Answers h n (adds none) ch a = as_many (omega arith) a
  step-Answers h n (adds (some k)) ch a = add-Answers h n k ch a
  step-Answers h n (sets_open k) ch a =
      as_many (omega arith) (record { while_open = a.while_open; once_closed = a.once_closed })
  step-Answers h n (sets_owner k) ch a =
      as_many (omega arith) (record { while_open = a.while_open; once_closed = a.once_closed })
  step-Answers h n (sets_handler lane k) ch a =
      as_many (omega arith) (set_on_message-Answers h n lane k ch a)
  step-Answers h n (writes_request accepts class kind payload) ch a =
      as_many (omega arith) (plain-Answers c h n accepts kind (plaintext_for class payload) ch a)
  step-Answers h n (reads ms) ch a = as_many (omega arith) (loop-Answers c h n ms ch a)
  step-Answers h n closes_channel ch a = as_many (omega arith) (close-Answers c h n ch a)
  step-Answers h n (starts dials hello_accepted hello static raw1 generated accepts raw3) ch a =
      as_many (omega arith)
        (start-Started c h n dials hello_accepted hello static raw1 generated accepts raw3 ch
          a).answers

  step-closed :
      (h n : ℕ) (x : Event) (ch : Channel)
      → Answers h n ch
      → Closes x ch
      → (step x ch).closed ≡ true
  unfolding step Closes close_channel read_loop
  step-closed h n closes_channel ch a k =
      notify-closed (tell_conn (closes_normal "relay closed") (close_scheduler ch))
  step-closed h n (reads ms) ch a k = notify-closed (close_scheduler (read_messages c ms ch))
  step-closed h n (starts dials hello_accepted hello static raw1 generated accepts raw3) ch a k =
      (start-Started c h n dials hello_accepted hello static raw1 generated accepts raw3 ch a).fails
        k
  step-closed h n x ch a k = absurd (cc k)

  run-Answers :
      (h n : ℕ) (xs : List Event) (ch : Channel)
      → Answers h n ch
      → Answers h (asked h xs + n) (run xs ch)
  unfolding run
  run-Answers h n [] ch a = as_many (omega arith) a
  run-Answers h n (x ∷ xs) ch a =
      as_many (omega arith)
        (run-Answers h (asked_by h x + n) xs (step x ch) (step-Answers h n x ch a))

  -- Whatever happens to a new channel, in any order, Start included: a close listener has not been
  -- called while the channel is open, once it is closed the listener has been called exactly as often
  -- as it was added, before or after the close, and Close, the end of the read loop and a Start that
  -- fails leave it closed.
  pub listener_once :
      (h : ℕ) (xs : List Event)
      → let t = run xs new_channel in
        (t.closed ≡ false → calls h t.called ≡ 0)
        × (t.closed ≡ true → calls h t.called ≡ asked h xs)
        × ((x : Event) → Closes x t → (step x t).closed ≡ true)
  listener_once h xs =
      let start : Answers h 0 new_channel =
        unfold new_channel in
        record { while_open = λ o. (refl, refl); once_closed = λ o. absurd (ground arith) } in
      let a = run-Answers h 0 xs new_channel start in
      (
        (λ o. (a.while_open o).0),
        (λ o. omega (arith, a.once_closed o)),
        λ x k. step-closed h (asked h xs + 0) x (run xs new_channel) a k,
      )
