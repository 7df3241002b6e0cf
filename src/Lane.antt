-- ===== src/Lane.antt =====
-- agent/internal/multilane/lane.go: lanes, traffic classes and the lane envelope. A lane, a kind and
-- a traffic class are bytes in the source; `unassigned` is every byte that names no class.
pub mod Envelope
pub mod Handshake
mod Tests
use share_bridge.Prelude.{
  ℕ, ◌≡◌, refl, ◌↔◌, Bool, true, false, ◌||◌, List, [], ◌∷◌, arith, ◌==◌, ==_iff, if◌then◌else◌,
  Key, Result, ok, err, ◌>>=◌, ◌>>◌, fail_if, not,
}

abbrev pub lane_control : ℕ
lane_control = 0x00

abbrev pub lane_media : ℕ
lane_media = 0x01

abbrev pub lane_bulk : ℕ
lane_bulk = 0x02

abbrev pub kind_text : ℕ
kind_text = 0x01

abbrev pub kind_binary : ℕ
kind_binary = 0x02

pub data LaneError : Type 0 where
  invalid_lane : ℕ → LaneError
  empty_envelope : LaneError

unfoldable pub valid : ℕ → Bool
valid lane = lane == lane_control || lane == lane_media || lane == lane_bulk

unfoldable pub encode_envelope : ℕ → List ℕ → Result LaneError (List ℕ)
unfolding valid
encode_envelope lane payload = do
  fail_if (not (valid lane)) (invalid_lane lane)
  ok (lane ∷ payload)

unfoldable pub decode_envelope : List ℕ → Result LaneError (ℕ × List ℕ)
unfolding valid
decode_envelope [] = err empty_envelope
decode_envelope (lane ∷ payload) = do
  fail_if (not (valid lane)) (invalid_lane lane)
  ok (lane, payload)

pub data TrafficClass : Type 0 where
  control interactive_media thumbnail bulk : TrafficClass
  unassigned : ℕ → TrafficClass

abbrev pub same_class : TrafficClass → TrafficClass → Bool
same_class control control = true
same_class interactive_media interactive_media = true
same_class thumbnail thumbnail = true
same_class bulk bulk = true
same_class (unassigned a) (unassigned b) = a == b
same_class _ _ = false

pub same_class_iff : (a b : TrafficClass) → (same_class a b ≡ true) ↔ (a ≡ b)
same_class_iff control b = ground arith
same_class_iff a b = ground arith

instance abbrev pub class_key : Key TrafficClass
class_key = record { same = same_class; same_iff = same_class_iff }

pub data ClassError : Type 0 where
  unknown_class : TrafficClass → ClassError

unfoldable pub lane_for_class : TrafficClass → Result ClassError ℕ
lane_for_class control = ok lane_control
lane_for_class interactive_media = ok lane_media
lane_for_class thumbnail = ok lane_media
lane_for_class bulk = ok lane_bulk
lane_for_class (unassigned b) = err (unknown_class (unassigned b))
