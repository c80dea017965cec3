-- ===== src/Base/Words.antt =====
-- Bytes, byte slices and the little-endian words of Go's encoding/binary.
use Prim.Native.Nat.{ℕ, ◌+◌, ◌*◌, ◌/◌, ◌%◌, ◌<◌}
use mathlib.Core.Path.{◌≡◌, refl}
use mathlib.Core.Bool.{Bool, true, false, ◌&&◌}
use mathlib.Core.List.{List, [], ◌∷◌}
use native.Mathlib.Omega.{arith}
use rongta_f11_open.Base.Tests.{◌==◌}
use rongta_f11_open.Base.Lists.{All, get_or}

abbrev pub Bytes : Type 0
Bytes = List ℕ

abbrev pub IsByte : ℕ → Type 0
IsByte b = b < 256

abbrev pub AllBytes : Bytes → Type 0
AllBytes = All IsByte

-- Go's conversions byte(v) and uint16(v).
abbrev pub byte : ℕ → ℕ
byte v = v % 256

abbrev pub uint16 : ℕ → ℕ
uint16 v = v % 65536

-- binary.LittleEndian.PutUint16 and PutUint32 into a fresh slice, for v in range of the word.
abbrev pub put_uint16 : ℕ → Bytes
put_uint16 v = byte v ∷ byte (v / 256) ∷ []

abbrev pub put_uint32 : ℕ → Bytes
put_uint32 v = byte v ∷ byte (v / 256) ∷ byte (v / 65536) ∷ byte (v / 16777216) ∷ []

-- binary.LittleEndian.Uint16 and Uint32 of the bytes of `s` from index `i` on.
abbrev pub get_uint16 : Bytes → ℕ → ℕ
get_uint16 s i = get_or s i 0 + 256 * get_or s (i + 1) 0

abbrev pub get_uint32 : Bytes → ℕ
get_uint32 s = get_or s 0 0 + 256 * get_or s 1 0 + 65536 * get_or s 2 0 + 16777216 * get_or s 3 0

-- bytes.Equal.
abbrev pub bytes_equal : Bytes → Bytes → Bool
bytes_equal [] [] = true
bytes_equal [] (y ∷ ys) = false
bytes_equal (x ∷ xs) [] = false
bytes_equal (x ∷ xs) (y ∷ ys) = x == y && bytes_equal xs ys

pub bytes_equal_refl : (xs : Bytes) → bytes_equal xs xs ≡ true
bytes_equal_refl [] = refl
bytes_equal_refl (x ∷ xs) = ground (arith, bytes_equal_refl xs)

pub bytes_equal→eq : (xs ys : Bytes) → bytes_equal xs ys ≡ true → xs ≡ ys
bytes_equal→eq [] [] h = refl
bytes_equal→eq [] (y ∷ ys) h = cc
bytes_equal→eq (x ∷ xs) [] h = cc
bytes_equal→eq (x ∷ xs) (y ∷ ys) h = ground (arith, bytes_equal→eq xs ys)
