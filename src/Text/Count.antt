-- ===== src/Text/Count.antt =====
-- How often a text stands in a list of texts.
use rongta_f11_open.Base.{
  ℕ, ◌+◌, ◌≡◌, refl, List, [], ◌∷◌, ◌++◌, if◌then◌else◌, Bytes, bytes_equal, bytes_equal_refl,
  arith,
}

abbrev pub same_id : Bytes → Bytes → ℕ
same_id x y = if bytes_equal x y then 1 else 0

abbrev pub times : Bytes → List Bytes → ℕ
times x [] = 0
times x (y ∷ ys) = same_id x y + times x ys

pub times-append : (x : Bytes) (xs ys : List Bytes) → times x (xs ++ ys) ≡ times x xs + times x ys
times-append x [] ys = omega arith
times-append x (y ∷ xs) ys = omega (arith, times-append x xs ys)

pub same_id_refl : (x : Bytes) → same_id x x ≡ 1
same_id_refl x = rw (bytes_equal_refl x) refl
