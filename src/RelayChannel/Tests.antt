-- ===== src/RelayChannel/Tests.antt =====
-- Relay channels at concrete inputs.
use share_bridge.Prelude.{◌≡◌, refl, inl, inr, true, false, List, [], ◌∷◌, none, some, ok, nat_key}
use share_bridge.RelayFrame.{frame_text, frame_binary, write_frame, cap_for_kind}
use share_bridge.Lane.{control, bulk, lane_for_class, encode_envelope, valid}
use share_bridge.Noise.Cipher.{ready_gcm, new_gcm, encrypt, encrypt_with_ad, advance}
use share_bridge.Noise.Crypto.{is_zero_key}
use share_bridge.Noise.Outcomes.{Agreed}
use share_bridge.Noise.Agreement.{handshake_agrees}
use share_bridge.Noise.Toy.{toy, toy-Laws, key1, key2, key3, ready}
use share_bridge.RelayChannel.State.{Channel, new_channel, tell, endpoint_send}
use share_bridge.RelayChannel.Wire.{
  plaintext_for, write_bytes, write_sealed, write_open, write_plain, write_scheduled,
}
use share_bridge.RelayChannel.Start.{start_channel}
use share_bridge.RelayChannel.Delivery.{
  Requests, Writes, wrote_none, wrote_one, Transmitted, Writes-Transmitted,
}
use share_bridge.RelayChannel.Closing
use share_bridge.RelayChannel.Closing.{
  Event, adds, closes_channel, reads, starts, asked, Closes, listener_once,
}
use share_bridge.RelayChannel.Callbacks.{calls}
use share_bridge.RelayChannel.Opening.{
  handshake_frame, Opened, handshake_opens, write_scheduled-fits,
}

abbrev sender : Channel
sender = record new_channel { has_conn = true; send = some (record { key = 9 ∷ []; n = 4 }) }

abbrev sent_one : Channel
sent_one = (write_scheduled toy true control frame_text (1 ∷ []) sender).1

abbrev sent_two : Channel
sent_two = (write_scheduled toy true bulk frame_binary (2 ∷ 3 ∷ []) sent_one).1

abbrev requests : Requests
requests = (control, frame_text, 1 ∷ []) ∷ (bulk, frame_binary, 2 ∷ 3 ∷ []) ∷ []

two-Writes : Writes toy sender requests sent_two
unfolding write_scheduled plaintext_for write_plain write_open write_sealed write_bytes encrypt
    encrypt_with_ad ready_gcm new_gcm is_zero_key advance write_frame cap_for_kind encode_envelope
    valid lane_for_class tell new_channel
two-Writes =
    wrote_one control frame_text (1 ∷ []) (inl refl) refl
      (wrote_one bulk frame_binary (2 ∷ 3 ∷ []) (inr refl) refl wrote_none)

Writes-Transmitted_example : Transmitted toy sender requests sent_two
Writes-Transmitted_example = Writes-Transmitted toy toy-Laws two-Writes

-- Start, whose handshake fails, between two listeners.
abbrev events : List (Event toy)
events =
    adds (some 5)
    ∷ starts true true (7 ∷ []) 2 none none true none
    ∷ adds (some 6)
    ∷ closes_channel
    ∷ adds (some 5)
    ∷ reads []
    ∷ []

listener_once_example :
    let t = Closing.run toy events new_channel in
    (t.closed ≡ false → calls 5 t.called ≡ 0)
    × (t.closed ≡ true → calls 5 t.called ≡ asked toy 5 events)
    × ((x : Event toy) → Closes toy x t → (Closing.step toy x t).closed ≡ true)
listener_once_example = listener_once toy 5 events

abbrev agreed : Agreed toy 1 2 3 4
agreed =
    handshake_agrees toy toy-Laws 1 2 3 4 (7 ∷ []) (5 ∷ []) (5 ∷ []) key1 key2 key3 refl refl refl
      ready.0 ready.1 ready.2

abbrev opening : Channel
opening = record new_channel { on_open = some 8 }

handshake_opens_example :
    let started =
      start_channel toy true true
        (7 ∷ [])
        2
        (some (handshake_frame toy agreed.m1))
        (some 4)
        true
        (some (handshake_frame toy agreed.m3))
        opening in
    (started.0 ≡ none) × Opened toy opening.on_open (7 ∷ []) agreed opening started.1
handshake_opens_example = handshake_opens toy 1 2 3 4 agreed (7 ∷ []) opening

takes_small : (endpoint_send 1 control frame_text (1 ∷ []) new_channel).0 ≡ none
unfolding endpoint_send
takes_small = refl

ready_sender : ready_gcm toy (record { key = 9 ∷ []; n = 4 }) ≡ ok (9 ∷ [])
unfolding ready_gcm new_gcm is_zero_key
ready_sender = refl

write_scheduled-fits_example :
    (write_scheduled toy true control frame_text (1 ∷ []) sender).0 ≡ none
unfolding lane_for_class
write_scheduled-fits_example =
    write_scheduled-fits toy toy-Laws 1 frame_text 0 control (1 ∷ []) sender new_channel
      (record { key = 9 ∷ []; n = 4 }) (9 ∷ []) takes_small refl (inl refl) refl refl ready_sender
