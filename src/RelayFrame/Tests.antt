-- ===== src/RelayFrame/Tests.antt =====
-- The frame codec at concrete inputs.
use share_bridge.Prelude.{ℕ, ◌≡◌, refl, ◌⊎◌, List, [], ◌∷◌, ◌++◌, ok, err, take, arith}
use share_bridge.RelayFrame.{
  frame_text, write_frame, decode_one_frame, unknown_kind, frame_too_large, incomplete_header,
  incomplete_payload,
}
use share_bridge.RelayFrame.RoundTrip.{decode-write, write-decode, decode-take_write}

abbrev hello : List ℕ
hello = 0x01 ∷ 0 ∷ 0 ∷ 0 ∷ 2 ∷ 104 ∷ 105 ∷ []

write_hello : write_frame frame_text (104 ∷ 105 ∷ []) ≡ ok hello
unfolding write_frame
write_hello = refl

decode_hello :
    decode_one_frame (hello ++ 7 ∷ [])
    ≡ ok (record { kind = frame_text; payload = 104 ∷ 105 ∷ [] }, 7 ∷ [])
unfolding decode_one_frame
decode_hello = refl

decode_errors :
    (decode_one_frame (9 ∷ 0 ∷ 0 ∷ 0 ∷ 0 ∷ []) ≡ err (unknown_kind 9))
    × (decode_one_frame (0 ∷ 0 ∷ 0 ∷ 16 ∷ 1 ∷ []) ≡ err (frame_too_large 4097))
unfolding decode_one_frame
decode_errors = (refl, refl)

decode-write_example :
    decode_one_frame (hello ++ 7 ∷ [])
    ≡ ok (record { kind = frame_text; payload = 104 ∷ 105 ∷ [] }, 7 ∷ [])
decode-write_example = decode-write frame_text (104 ∷ 105 ∷ []) (7 ∷ []) hello write_hello

write-decode_example :
    (out : List ℕ) × (write_frame frame_text (104 ∷ 105 ∷ []) ≡ ok out)
    × (out ++ 7 ∷ [] ≡ hello ++ 7 ∷ [])
write-decode_example =
    write-decode (hello ++ 7 ∷ []) (record { kind = frame_text; payload = 104 ∷ 105 ∷ [] }) (7 ∷ [])
      (omega arith) decode_hello

decode-take_write_example :
    (decode_one_frame (take 6 hello) ≡ err incomplete_header)
    ⊎ (decode_one_frame (take 6 hello) ≡ err incomplete_payload)
decode-take_write_example =
    decode-take_write frame_text (104 ∷ 105 ∷ []) hello 6 write_hello (omega arith)
