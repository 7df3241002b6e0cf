-- ===== src/Transfer/Envelope.antt =====
-- Chunk envelopes and operations correspond to each other.
use share_bridge.Prelude.{
  ℕ, ◌/◌, ◌%◌, ◌*◌, ◌+◌, ◌≡◌, ◌↔◌, refl, sym, subst, List, [], ◌∷◌, ◌++◌, ok, err, arith, IsBytes,
  put_uint32, get_uint32, get_uint64, put_uint64, get-put_uint32, put-get_uint32, get_uint32_bound,
  halves_lem,
}
use share_bridge.Transfer.Frames.{
  binary_frame_file_chunk, chunk_envelope_version, encode_chunk_frame, decode_chunk_frame,
}

get-put_uint64 : (n : ℕ) → n / 4294967296 * 4294967296 + n % 4294967296 ≡ n
get-put_uint64 n = omega arith

pub decode-encode :
    (operation generation : ℕ) (payload : List ℕ)
    → decode_chunk_frame (encode_chunk_frame operation generation payload)
      ≡ ok (operation, generation, payload)
unfolding encode_chunk_frame decode_chunk_frame
decode-encode operation generation payload = rw (
  get-put_uint32 (operation / 4294967296),
  get-put_uint32 (operation % 4294967296),
  get-put_uint32 generation,
  get-put_uint64 operation,
)

put-get :
    (a b c d : ℕ)
    → IsBytes (a ∷ b ∷ c ∷ d ∷ [])
    → put_uint32 (get_uint32 a b c d) ≡ a ∷ b ∷ c ∷ d ∷ []
put-get a b c d y =
    let (e1, e2, e3, e4) = put-get_uint32 a b c d y.1.0 y.1.1.0 y.1.1.1.0 in rw (e1, e2, e3, e4)

put-get_uint64 :
    (a b c d e f g h : ℕ)
    → IsBytes (a ∷ b ∷ c ∷ d ∷ [])
    → IsBytes (e ∷ f ∷ g ∷ h ∷ [])
    → put_uint64 (get_uint64 a b c d e f g h) ≡ a ∷ b ∷ c ∷ d ∷ e ∷ f ∷ g ∷ h ∷ []
put-get_uint64 a b c d e f g h x y =
    let (high, low) =
      halves_lem (get_uint32 a b c d) (get_uint32 e f g h)
        (get_uint32_bound e f g h y.0 y.1.0 y.1.1.0 y.1.1.1.0) in
    let (a1, a2, a3, a4) = put-get_uint32 a b c d x.1.0 x.1.1.0 x.1.1.1.0 in
    let (b1, b2, b3, b4) = put-get_uint32 e f g h y.1.0 y.1.1.0 y.1.1.1.0 in
    rw (high, low, a1, a2, a3, a4, b1, b2, b3, b4)

refused : {E A : Type 0} {x : E} {y : A} {B : Type 0} → err x ≡ ok y → B
refused q = absurd (cc q)

-- A frame of at least fourteen bytes that decodes.
long_inv :
    (t v a b c d e f g h i j k l : ℕ) (xs : List ℕ) (m n : ℕ) (p : List ℕ)
    → decode_chunk_frame (t ∷ v ∷ a ∷ b ∷ c ∷ d ∷ e ∷ f ∷ g ∷ h ∷ i ∷ j ∷ k ∷ l ∷ xs) ≡ ok (m, n, p)
    → (t ≡ binary_frame_file_chunk)
      × (v ≡ chunk_envelope_version)
      × (m ≡ get_uint64 a b c d e f g h)
      × (n ≡ get_uint32 i j k l)
      × (p ≡ xs)
unfolding decode_chunk_frame
long_inv t v a b c d e f g h i j k l xs m n p q =
    (ground arith, ground arith, ground arith, ground arith, ground arith)

header_lem :
    (xs : List ℕ) {us vs cs ds : List ℕ}
    → us ≡ vs
    → cs ≡ ds
    → binary_frame_file_chunk ∷ chunk_envelope_version ∷ vs ++ ds ++ xs
      ≡ binary_frame_file_chunk ∷ chunk_envelope_version ∷ us ++ cs ++ xs
header_lem xs e1 e2 = rw (e1, e2) refl

encode-decode :
    (frame : List ℕ) (operation generation : ℕ) (payload : List ℕ)
    → IsBytes frame
    → decode_chunk_frame frame ≡ ok (operation, generation, payload)
    → frame ≡ encode_chunk_frame operation generation payload
unfolding decode_chunk_frame encode_chunk_frame
encode-decode [] m n p y q = refused q
encode-decode (t ∷ []) m n p y q = refused q
encode-decode (t ∷ v ∷ []) m n p y q = refused q
encode-decode (t ∷ v ∷ a ∷ []) m n p y q = refused q
encode-decode (t ∷ v ∷ a ∷ b ∷ []) m n p y q = refused q
encode-decode (t ∷ v ∷ a ∷ b ∷ c ∷ []) m n p y q = refused q
encode-decode (t ∷ v ∷ a ∷ b ∷ c ∷ d ∷ []) m n p y q = refused q
encode-decode (t ∷ v ∷ a ∷ b ∷ c ∷ d ∷ e ∷ []) m n p y q = refused q
encode-decode (t ∷ v ∷ a ∷ b ∷ c ∷ d ∷ e ∷ f ∷ []) m n p y q = refused q
encode-decode (t ∷ v ∷ a ∷ b ∷ c ∷ d ∷ e ∷ f ∷ g ∷ []) m n p y q = refused q
encode-decode (t ∷ v ∷ a ∷ b ∷ c ∷ d ∷ e ∷ f ∷ g ∷ h ∷ []) m n p y q = refused q
encode-decode (t ∷ v ∷ a ∷ b ∷ c ∷ d ∷ e ∷ f ∷ g ∷ h ∷ i ∷ []) m n p y q = refused q
encode-decode (t ∷ v ∷ a ∷ b ∷ c ∷ d ∷ e ∷ f ∷ g ∷ h ∷ i ∷ j ∷ []) m n p y q = refused q
encode-decode (t ∷ v ∷ a ∷ b ∷ c ∷ d ∷ e ∷ f ∷ g ∷ h ∷ i ∷ j ∷ k ∷ []) m n p y q = refused q
encode-decode (t ∷ v ∷ a ∷ b ∷ c ∷ d ∷ e ∷ f ∷ g ∷ h ∷ i ∷ j ∷ k ∷ l ∷ xs) m n p y q =
    let (et, ev, em, en, ep) = long_inv t v a b c d e f g h i j k l xs m n p q in
    let z = y.1.1 in
    let high : IsBytes (a ∷ b ∷ c ∷ d ∷ []) = (z.0, (z.1.0, (z.1.1.0, (z.1.1.1.0, tt)))) in
    let w = z.1.1.1.1 in
    let low : IsBytes (e ∷ f ∷ g ∷ h ∷ []) = (w.0, (w.1.0, (w.1.1.0, (w.1.1.1.0, tt)))) in
    let v = w.1.1.1.1 in
    let last : IsBytes (i ∷ j ∷ k ∷ l ∷ []) = (v.0, (v.1.0, (v.1.1.0, (v.1.1.1.0, tt)))) in
    rw (et, ev, em, en, ep)
      (header_lem xs (put-get_uint64 a b c d e f g h high low) (put-get i j k l last))

-- A byte string of a wire frame decodes to an operation, a generation and a payload exactly when it is
-- the frame that encodeChunkFrame makes of them.
pub encode-decode_chunk_frame :
    (frame : List ℕ) (operation generation : ℕ) (payload : List ℕ)
    → IsBytes frame
    → (decode_chunk_frame frame ≡ ok (operation, generation, payload))
      ↔ (frame ≡ encode_chunk_frame operation generation payload)
encode-decode_chunk_frame frame operation generation payload bytes = (
  encode-decode frame operation generation payload bytes,
  λ e.
      subst (λ x. decode_chunk_frame x ≡ ok (operation, generation, payload)) (sym e)
        (decode-encode operation generation payload),
)
