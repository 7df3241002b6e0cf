-- ===== src/RelayFrame/RoundTrip.antt =====
-- What is written is read back, what is read was written so, and nothing shorter is read.
use share_bridge.Prelude.{
  Result-cases, ℕ, suc, ◌^◌, ◌%◌, ◌<◌, ◌≤◌, ◌≡◌, refl, List, [], ◌∷◌, ◌++◌, length, take, drop, ok,
  err, put_uint32, get_uint32, arith, length-append, take-append-drop, IsBytes, get-put_uint32,
  put-get_uint32, length-take, ap, sym, ◌⊎◌, inl, inr,
}
use share_bridge.RelayFrame.{
  Frame, incomplete_header, incomplete_payload, cap_for_kind, write_frame, decode_one_frame,
  max_frame_payload,
}

take-length_append {ℓ} : {A : Type ℓ} (xs ys : List A) → take (length xs) (xs ++ ys) ≡ xs
take-length_append [] ys = refl
take-length_append (x ∷ xs) ys = ap (λ t. x ∷ t) (take-length_append xs ys)

drop-length_append {ℓ} : {A : Type ℓ} (xs ys : List A) → drop (length xs) (xs ++ ys) ≡ ys
drop-length_append [] ys = refl
drop-length_append (x ∷ xs) ys = drop-length_append xs ys

-- The cap of every kind fits four bytes.
cap-le : (kind cap : ℕ) → cap_for_kind kind ≡ ok cap → cap ≤ max_frame_payload
unfolding cap_for_kind
cap-le kind cap h = ground arith

mod_small : (n : ℕ) → n ≤ max_frame_payload → n % 2 ^ 32 ≡ n
mod_small n h = omega arith

-- What a successful write says of its input and its output.
write_inv :
    (kind : ℕ) (payload : List ℕ) {out : List ℕ}
    → write_frame kind payload ≡ ok out
    → (cap : ℕ) × (cap_for_kind kind ≡ ok cap)
      × (length payload ≤ cap)
      × (out ≡ kind ∷ put_uint32 (length payload) ++ payload)
unfolding write_frame
write_inv kind payload h = elim (Result-cases (cap_for_kind kind)) [
  | inl (e, c) ↦ absurd (ground arith)
  | inr (cap, c) ↦
      (cap, c, ground arith, ground (arith, mod_small (length payload), cap-le kind cap))
]

-- A frame that is written, with any bytes behind it, is decoded to its kind and payload, and the
-- bytes behind it are what remains.
pub decode-write :
    (kind : ℕ) (payload : List ℕ) (rest out : List ℕ)
    → write_frame kind payload ≡ ok out
    → decode_one_frame (out ++ rest) ≡ ok (record { kind = kind; payload = payload }, rest)
unfolding decode_one_frame
decode-write kind payload rest out h =
    let (cap, c, fits, e) = write_inv kind payload h in
    rw (e, c, get-put_uint32 (length payload))
      (ground (
        arith,
        length-append payload rest,
        take-length_append payload rest,
        drop-length_append payload rest,
      ))

-- What a successful decode says: the header's fields, and the payload taken from the body.
decode_inv :
    (kind a b c d : ℕ) (body : List ℕ) {f : Frame} {rest : List ℕ}
    → decode_one_frame (kind ∷ a ∷ b ∷ c ∷ d ∷ body) ≡ ok (f, rest)
    → (cap : ℕ) × (cap_for_kind kind ≡ ok cap)
      × (get_uint32 a b c d ≤ cap)
      × (get_uint32 a b c d ≤ length body)
      × (f ≡ record { kind = kind; payload = take (get_uint32 a b c d) body })
      × (rest ≡ drop (get_uint32 a b c d) body)
unfolding decode_one_frame
decode_inv kind a b c d body h = elim (Result-cases (cap_for_kind kind)) [
  | inl (e, k) ↦ absurd (ground arith)
  | inr (cap, k) ↦ (cap, k, ground arith, ground arith, ground arith, ground arith)
]

-- A payload within the cap of its kind is written.
pub write_lem :
    (kind : ℕ) (payload : List ℕ) (cap : ℕ)
    → cap_for_kind kind ≡ ok cap
    → length payload ≤ cap
    → write_frame kind payload ≡ ok (kind ∷ put_uint32 (length payload) ++ payload)
unfolding write_frame
write_lem kind payload cap k h = rw k (ground (arith, mod_small (length payload), cap-le kind cap))

-- Whatever byte string the decoder accepts are the encoding of the frame that it returns, followed by
-- the bytes that it leaves: `write_frame` gives that encoding back.
pub write-decode :
    (buf : List ℕ) (f : Frame) (rest : List ℕ)
    → IsBytes buf
    → decode_one_frame buf ≡ ok (f, rest)
    → (out : List ℕ) × (write_frame f.kind f.payload ≡ ok out) × (out ++ rest ≡ buf)
write-decode (kind ∷ a ∷ b ∷ c ∷ d ∷ body) f rest bytes h =
    let (cap, k, fits, whole, ef, er) = decode_inv kind a b c d body h in
    let size = get_uint32 a b c d in
    let n : length (take size body) ≡ size = omega (arith, length-take size body) in
    let (ha, hb, hc, hd) = put-get_uint32 a b c d (omega arith) (omega arith) (omega arith) in
    (
      kind ∷ a ∷ b ∷ c ∷ d ∷ take size body,
      ground (arith, write_lem kind (take size body) cap k),
      ground (arith, take-append-drop size body),
    )
write-decode _ f rest bytes h = absurd (unfold decode_one_frame in cc)

decode-take :
    (kind a b c d : ℕ) (payload : List ℕ) (cap n : ℕ)
    → cap_for_kind kind ≡ ok cap
    → get_uint32 a b c d ≤ cap
    → length payload ≡ get_uint32 a b c d
    → n < length (kind ∷ a ∷ b ∷ c ∷ d ∷ payload)
    → let cut = take n (kind ∷ a ∷ b ∷ c ∷ d ∷ payload) in
      (decode_one_frame cut ≡ err incomplete_header)
      ⊎ (decode_one_frame cut ≡ err incomplete_payload)
unfolding decode_one_frame
decode-take kind a b c d payload cap (suc (suc (suc (suc (suc n))))) k fits e lt =
    inr (ground (arith, length-take n payload))
decode-take kind a b c d payload cap _ k fits e lt = inl refl

-- Cut short anywhere, a written frame is not decoded to anything: the decoder asks for more bytes.
pub decode-take_write :
    (kind : ℕ) (payload out : List ℕ) (n : ℕ)
    → write_frame kind payload ≡ ok out
    → n < length out
    → (decode_one_frame (take n out) ≡ err incomplete_header)
      ⊎ (decode_one_frame (take n out) ≡ err incomplete_payload)
decode-take_write kind payload out n h lt =
    let (cap, k, fits, e) = write_inv kind payload h in
    let size = get-put_uint32 (length payload) in
    rw e (decode-take kind _ _ _ _ payload cap n k (omega (arith, size)) (sym size) (rw e at lt))
