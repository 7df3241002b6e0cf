-- ===== src/Transfer/Frames.antt =====
-- The binary frames of manager.go: a thumbnail with its index, and a chunk with the operation and the
-- generation it belongs to.
use share_bridge.Prelude.{
  ℕ, ◌/◌, ◌%◌, List, ◌∷◌, ◌++◌, length, not, ◌==◌, if◌then◌else◌, Result, ok, err, put_uint32,
  put_uint64, get_uint32, get_uint64,
}

abbrev pub binary_frame_file_chunk : ℕ
binary_frame_file_chunk = 0x10

abbrev pub binary_frame_thumbnail : ℕ
binary_frame_thumbnail = 0x11

abbrev pub chunk_envelope_version : ℕ
chunk_envelope_version = 0x01

abbrev pub chunk_envelope_size : ℕ
chunk_envelope_size = 14

pub data ChunkError : Type 0 where
  too_short unexpected_type unsupported_version : ℕ → ChunkError

-- encodeThumbnailFrame; the index is a uint16.
unfoldable pub encode_thumbnail_frame : ℕ → List ℕ → List ℕ
encode_thumbnail_frame index jpg = binary_frame_thumbnail ∷ index / 256 % 256 ∷ index % 256 ∷ jpg

-- encodeChunkFrame; the operation is a uint64, the generation a uint32.
unfoldable pub encode_chunk_frame : ℕ → ℕ → List ℕ → List ℕ
encode_chunk_frame operation_id generation data_ =
    binary_frame_file_chunk ∷ chunk_envelope_version ∷ put_uint64 operation_id
    ++ put_uint32 generation
    ++ data_

-- decodeChunkFrame
unfoldable pub decode_chunk_frame : List ℕ → Result ChunkError (ℕ × ℕ × List ℕ)
decode_chunk_frame (t ∷ v ∷ a ∷ b ∷ c ∷ d ∷ e ∷ f ∷ g ∷ h ∷ i ∷ j ∷ k ∷ l ∷ payload) =
    if not (t == binary_frame_file_chunk)
    then err (unexpected_type t)
    else if not (v == chunk_envelope_version)
    then err (unsupported_version v)
    else ok (get_uint64 a b c d e f g h, get_uint32 i j k l, payload)
decode_chunk_frame frame = err (too_short (length frame))
