-- ===== src/RelayFrame.antt =====
-- agent/internal/relaychannel/frame.go: the framing of the relayed byte stream, one kind byte, a
-- big-endian length of four bytes, and the payload. A byte is a number below 256.
pub mod RoundTrip
mod Tests
use share_bridge.Prelude.{
  ℕ, ◌+◌, ◌*◌, ◌^◌, ◌%◌, List, [], ◌∷◌, ◌++◌, length, take, drop, ltb, ◌==◌, if◌then◌else◌, Result,
  ok, err, ◌>>=◌, ◌>>◌, fail_if, put_uint32, get_uint32,
}

abbrev pub frame_handshake : ℕ
frame_handshake = 0x00

abbrev pub frame_text : ℕ
frame_text = 0x01

abbrev pub frame_binary : ℕ
frame_binary = 0x02

abbrev pub max_handshake_payload : ℕ
max_handshake_payload = 4 * 1024

abbrev pub max_frame_payload : ℕ
max_frame_payload = 8 * 1024 * 1024

pub record Frame : Type 0 where
  pub kind : ℕ
  pub payload : List ℕ

pub data FrameError : Type 0 where
  unknown_kind frame_too_large : ℕ → FrameError
  incomplete_header incomplete_payload : FrameError

unfoldable pub cap_for_kind : ℕ → Result FrameError ℕ
cap_for_kind kind =
    if kind == frame_handshake
    then ok max_handshake_payload
    else if kind == frame_text
    then ok max_frame_payload
    else if kind == frame_binary
    then ok max_frame_payload
    else err (unknown_kind kind)

unfoldable pub write_frame : ℕ → List ℕ → Result FrameError (List ℕ)
unfolding cap_for_kind
write_frame kind payload = do
  cap ← cap_for_kind kind
  fail_if (ltb cap (length payload)) (frame_too_large (length payload))
  ok (kind ∷ put_uint32 (length payload % 2 ^ 32) ++ payload)

unfoldable pub decode_one_frame : List ℕ → Result FrameError (Frame × List ℕ)
unfolding cap_for_kind
decode_one_frame (kind ∷ a ∷ b ∷ c ∷ d ∷ body) = do
  cap ← cap_for_kind kind
  let size = get_uint32 a b c d
  fail_if (ltb cap size) (frame_too_large size)
  fail_if (ltb (5 + length body) (5 + size)) incomplete_payload
  ok (record { kind = kind; payload = take size body }, drop size body)
decode_one_frame _ = err incomplete_header
