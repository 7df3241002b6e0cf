-- ===== src/Lane/Envelope.antt =====
-- The lane envelope is a bijection between lanes with a payload and the accepted byte strings.
use share_bridge.Prelude.{ℕ, ◌≡◌, ◌↔◌, List, arith, ok, true}
use share_bridge.Lane.{valid, encode_envelope, decode_envelope, TrafficClass, lane_for_class}

-- A byte string decodes to a lane and a payload exactly when it is their encoding.
pub decode-encode_envelope :
    (lane : ℕ) (payload encoded : List ℕ)
    → (encode_envelope lane payload ≡ ok encoded) ↔ (decode_envelope encoded ≡ ok (lane, payload))
unfolding encode_envelope decode_envelope
decode-encode_envelope lane payload encoded = ground arith

-- Every traffic class that has a lane has one that the envelope accepts.
pub lane_for_class-valid :
    (class : TrafficClass) (lane : ℕ) → lane_for_class class ≡ ok lane → valid lane ≡ true
unfolding lane_for_class valid
lane_for_class-valid class lane h = ground arith
