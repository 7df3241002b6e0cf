-- ===== src/Prelude/Bytes.antt =====
-- Byte strings, and encoding/binary's big-endian integers of four and eight bytes.
use Prim.Native.Nat.{ℕ, ◌+◌, ◌*◌, ◌/◌, ◌%◌, ◌<◌}
use mathlib.Core.Path.{◌≡◌}
use mathlib.Core.List.{List, [], ◌∷◌, ◌++◌}
use native.Mathlib.Omega.{arith}

-- Every element is a byte.
abbrev pub IsBytes : List ℕ → Type 0
IsBytes [] = Unit
IsBytes (b ∷ bs) = (b < 256) × IsBytes bs

-- binary.BigEndian.PutUint32(buf, n), for n of type uint32
abbrev pub put_uint32 : ℕ → List ℕ
put_uint32 n = n / 16777216 ∷ n / 65536 % 256 ∷ n / 256 % 256 ∷ n % 256 ∷ []

-- binary.BigEndian.Uint32
abbrev pub get_uint32 : ℕ → ℕ → ℕ → ℕ → ℕ
get_uint32 a b c d = a * 16777216 + b * 65536 + c * 256 + d

-- binary.BigEndian.PutUint64(buf, n), for n of type uint64
abbrev pub put_uint64 : ℕ → List ℕ
put_uint64 n = put_uint32 (n / 4294967296) ++ put_uint32 (n % 4294967296)

pub get-put_uint32 :
    (n : ℕ) → get_uint32 (n / 16777216) (n / 65536 % 256) (n / 256 % 256) (n % 256) ≡ n
get-put_uint32 n = omega arith

pub put-get_uint32 :
    (a b c d : ℕ)
    → b < 256
    → c < 256
    → d < 256
    → (get_uint32 a b c d / 16777216 ≡ a)
      × (get_uint32 a b c d / 65536 % 256 ≡ b)
      × (get_uint32 a b c d / 256 % 256 ≡ c)
      × (get_uint32 a b c d % 256 ≡ d)
put-get_uint32 a b c d hb hc hd = (omega arith, omega arith, omega arith, omega arith)

-- binary.BigEndian.Uint64
abbrev pub get_uint64 : ℕ → ℕ → ℕ → ℕ → ℕ → ℕ → ℕ → ℕ → ℕ
get_uint64 a b c d e f g h = get_uint32 a b c d * 4294967296 + get_uint32 e f g h

pub get_uint32_bound :
    (a b c d : ℕ) → a < 256 → b < 256 → c < 256 → d < 256 → get_uint32 a b c d < 4294967296
get_uint32_bound a b c d ha hb hc hd = omega arith

pub halves_lem :
    (x y : ℕ)
    → y < 4294967296
    → ((x * 4294967296 + y) / 4294967296 ≡ x) × ((x * 4294967296 + y) % 4294967296 ≡ y)
halves_lem x y h = (omega arith, omega arith)
