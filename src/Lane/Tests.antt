-- ===== src/Lane/Tests.antt =====
-- Envelopes and the handshake at concrete inputs.
use share_bridge.Prelude.{◌≡◌, refl, ◌↔◌, true, [], ◌∷◌, none, some, ok, err}
use share_bridge.Prelude.Int.{pos}
use share_bridge.Lane.{encode_envelope, decode_envelope, lane_media, invalid_lane}
use share_bridge.Lane.Envelope.{decode-encode_envelope}
use share_bridge.Lane.Handshake.{
  TransportHandshake, Outcome, deliver_all, install, fresh, handshake-Outcome,
}

encode_invalid : encode_envelope 3 [] ≡ err (invalid_lane 3)
unfolding encode_envelope
encode_invalid = refl

decode-encode_envelope_example :
    (encode_envelope lane_media (9 ∷ []) ≡ ok (1 ∷ 9 ∷ []))
    ↔ (decode_envelope (1 ∷ 9 ∷ []) ≡ ok (lane_media, 9 ∷ []))
decode-encode_envelope_example = decode-encode_envelope lane_media (9 ∷ []) (1 ∷ 9 ∷ [])

abbrev hello : TransportHandshake
hello = record { type = "transport_hello"; version = pos 2 }

handshake-Outcome_example :
    Outcome
      (some hello)
      true
      (deliver_all ((some hello, true) ∷ (none, true) ∷ []) (install true fresh))
handshake-Outcome_example = handshake-Outcome (some hello) true ((none, true) ∷ [])
