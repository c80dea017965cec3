-- ===== src/Protocol/Raster.antt =====
-- `Monochrome` and `NativeMonochrome` of Appliance/internal/protocol/protocol.go: ordered dithering to
-- rows of one bit for each dot.
pub mod Dither
pub mod Laws
use rongta_f11_open.Base.{
  ℕ, zero, suc, ◌+◌, ◌-◌, ◌*◌, ◌/◌, ◌%◌, ◌^◌, Bool, not, ◌||◌, List, [], ◌∷◌, ltb, leb, ◌==◌,
  if◌then◌else◌, length, get_or, set, replicate, Bytes, Result, ok, ◌>>=◌, ◌>>◌, fail_if,
}

-- The matrix of thresholds; `y&3` and `x&3` are the remainders by 4.
abbrev pub bayer_rows : List (List ℕ)
bayer_rows =
    (0 ∷ 8 ∷ 2 ∷ 10 ∷ [])
    ∷ (12 ∷ 4 ∷ 14 ∷ 6 ∷ [])
    ∷ (3 ∷ 11 ∷ 1 ∷ 9 ∷ [])
    ∷ (15 ∷ 7 ∷ 13 ∷ 5 ∷ [])
    ∷ []

unfoldable pub bayer : ℕ → ℕ → ℕ
bayer y x = get_or (get_or bayer_rows (y % 4) []) (x % 4) 0

-- `int(gray[y*width+sx]) < bayer[y&3][x&3]*16+8`
unfoldable pub is_dark : Bytes → ℕ → ℕ → ℕ → ℕ → Bool
is_dark gray width y x sx = ltb (get_or gray (y * width + sx) 0) (bayer y x * 16 + 8)

-- `row[x>>3] |= 0x80 >> (x&7)`: the loop sets each bit once, so `|` is `+`.
unfoldable pub set_dot : ℕ → Bytes → Bytes
set_dot x row = set row (x / 8) (get_or row (x / 8) 0 + 128 / 2 ^ (x % 8))

-- The inner loop with the rounds left; `dark x` is the test in its body.
unfoldable pub dither_loop : ℕ → ℕ → (ℕ → Bool) → Bytes → Bytes
unfolding set_dot
dither_loop zero x dark row = row
dither_loop (suc n) x dark row = dither_loop n (x + 1) dark (if dark x then set_dot x row else row)

-- The outer loop with the rounds left.
unfoldable pub rows_loop : ℕ → ℕ → (ℕ → Bytes) → List Bytes
rows_loop zero y row = []
rows_loop (suc n) y row = row y ∷ rows_loop n (y + 1) row

-- `sx := x + x0; if sx >= width { sx = width - 1 }`
unfoldable pub source_column : ℕ → ℕ → ℕ → ℕ
source_column width x0 x = if leb width (x + x0) then width - 1 else x + x0

unfoldable pub monochrome_row : Bytes → ℕ → ℕ → Bytes
unfolding dither_loop is_dark source_column
monochrome_row gray width y =
    let x0 = (width - 1592) / 2 in
    dither_loop 1592 0 (λ x. is_dark gray width y x (source_column width x0 x)) (replicate 199 0)

unfoldable pub monochrome : Bytes → ℕ → ℕ → Result (List Bytes)
unfolding rows_loop
monochrome gray width height = do
  fail_if
      (ltb width 1592
        || (leb height 0 || (ltb 65535 height || not (length gray == width * height))))
      "grayscale dimensions"
  ok (rows_loop height 0 (monochrome_row gray width))

unfoldable pub native_row : Bytes → ℕ → ℕ → Bytes
unfolding dither_loop is_dark
native_row gray width y = dither_loop 1664 0 (λ x. is_dark gray width y x x) (replicate 208 0)

unfoldable pub native_monochrome : Bytes → ℕ → ℕ → Result (List Bytes)
unfolding rows_loop
native_monochrome gray width height = do
  fail_if
      (not (width == 1664)
        || (leb height 0 || (ltb 65535 height || not (length gray == width * height))))
      "native grayscale dimensions"
  ok (rows_loop height 0 (native_row gray width))
