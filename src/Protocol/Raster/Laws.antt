-- ===== src/Protocol/Raster/Laws.antt =====
-- The pages that `Monochrome` and `NativeMonochrome` make.
use rongta_f11_open.Base.{
  ℕ, zero, suc, ◌+◌, ◌-◌, ◌*◌, ◌/◌, ◌≤◌, ◌<◌, ◌≡◌, refl, ap, ◌∙◌, Bool, List, [], ◌∷◌, arith,
  length, get_or, Bytes, ok,
}
use rongta_f11_open.Protocol.Raster.{
  is_dark, rows_loop, source_column, monochrome_row, monochrome, native_row, native_monochrome,
}
use rongta_f11_open.Protocol.Raster.Dither.{dot, dots, IsDithered, dither_loop-IsDithered}

native_row-IsDithered :
    (gray : Bytes) (width y : ℕ)
    → IsDithered 208 (λ x. is_dark gray width y x x) (native_row gray width y)
unfolding native_row
native_row-IsDithered gray width y = dither_loop-IsDithered 208 (λ x. is_dark gray width y x x)

-- The test that keeps `sx` inside the row never fires: the 1592 columns in the middle lie in the row.
pub source_column_lem :
    (width x : ℕ)
    → 1592 ≤ width
    → x < 1592
    → (source_column width ((width - 1592) / 2) x ≡ x + (width - 1592) / 2)
      × (x + (width - 1592) / 2 < width)
unfolding source_column
source_column_lem width x hw hx = ground arith

dots-ext : (n x : ℕ) (f g : ℕ → Bool) → ((i : ℕ) → i < x + n → f i ≡ g i) → dots n x f ≡ dots n x g
unfolding dots
dots-ext zero x f g h = refl
dots-ext (suc n) x f g h =
    rw (h x (omega arith))
      (ap (λ t. dot g x ∷ t) (dots-ext n (x + 1) f g (λ i k. h i (omega arith))))

monochrome_row-IsDithered :
    (gray : Bytes) (width y : ℕ)
    → 1592 ≤ width
    → IsDithered 199
        (λ x. is_dark gray width y x (x + (width - 1592) / 2))
        (monochrome_row gray width y)
unfolding monochrome_row
monochrome_row-IsDithered gray width y hw =
    let column : ℕ → ℕ = source_column width ((width - 1592) / 2) in
    let d = dither_loop-IsDithered 199 (λ x. is_dark gray width y x (column x)) in
    record {
      size = d.size;
      row_bytes = d.row_bytes;
      row_bits =
          d.row_bits
          ∙ dots-ext 1592 0 (λ x. is_dark gray width y x (column x))
              (λ x. is_dark gray width y x (x + (width - 1592) / 2))
              (λ x hx. ap (is_dark gray width y x) ((source_column_lem width x hw hx).0));
    }

rows_loop-row :
    (n y i : ℕ) (row : ℕ → Bytes) → i < n → get_or (rows_loop n y row) i [] ≡ row (y + i)
unfolding rows_loop
rows_loop-row zero y i row h = absurd (omega arith)
rows_loop-row (suc n) y zero row h = ap row (omega arith)
rows_loop-row (suc n) y (suc i) row h =
    rows_loop-row n (y + 1) i row (omega arith) ∙ ap row (omega arith)

length-rows_loop : (n y : ℕ) (row : ℕ → Bytes) → length (rows_loop n y row) ≡ n
unfolding rows_loop
length-rows_loop zero y row = refl
length-rows_loop (suc n) y row = ap suc (length-rows_loop n (y + 1) row)

-- A page of rows: `size` bytes each, whose bits, highest first, are the dots that `dark` tells.
pub record IsPage (rows : List Bytes) (height size : ℕ) (dark : ℕ → ℕ → Bool) : Type 0 where
  pub height_right : length rows ≡ height
  pub row_right : (y : ℕ) → y < height → IsDithered size (dark y) (get_or rows y [])

rows_loop-IsPage :
    (height size : ℕ) (row : ℕ → Bytes) (dark : ℕ → ℕ → Bool)
    → ((y : ℕ) → IsDithered size (dark y) (row y))
    → IsPage (rows_loop height 0 row) height size dark
rows_loop-IsPage height size row dark h = record {
  height_right = length-rows_loop height 0 row;
  row_right = λ y k. rw (at y k) (h y);
}
  where
    at : (y : ℕ) → y < height → get_or (rows_loop height 0 row) y [] ≡ row y
    at y k = rows_loop-row height 0 y row k ∙ ap row (omega arith)

-- On a page 1664 wide `NativeMonochrome` returns one row of 208 bytes for each line, and bit `x` of
-- row `y` is set if and only if the pixel there is darker than its threshold.
pub native_monochrome-IsPage :
    (gray : Bytes) (height : ℕ)
    → 0 < height
    → height ≤ 65535
    → length gray ≡ 1664 * height
    → (rows : List Bytes) × (native_monochrome gray 1664 height ≡ ok rows)
      × IsPage rows height 208 (λ y x. is_dark gray 1664 y x x)
unfolding native_monochrome
native_monochrome-IsPage gray height pos low size = (
  rows_loop height 0 (native_row gray 1664),
  ground arith,
  rows_loop-IsPage height 208 (native_row gray 1664) (λ y x. is_dark gray 1664 y x x)
      (native_row-IsDithered gray 1664),
)

-- On a page at least 1592 wide `Monochrome` returns one row of 199 bytes for each line: the 1592
-- columns in the middle of the page, each dot set if and only if its pixel is darker than its
-- threshold.
pub monochrome-IsPage :
    (gray : Bytes) (width height : ℕ)
    → 1592 ≤ width
    → 0 < height
    → height ≤ 65535
    → length gray ≡ width * height
    → (rows : List Bytes) × (monochrome gray width height ≡ ok rows)
      × IsPage rows height 199 (λ y x. is_dark gray width y x (x + (width - 1592) / 2))
unfolding monochrome
monochrome-IsPage gray width height wide pos low size = (
  rows_loop height 0 (monochrome_row gray width),
  ground arith,
  rows_loop-IsPage height 199 (monochrome_row gray width)
      (λ y x. is_dark gray width y x (x + (width - 1592) / 2))
      (λ y. monochrome_row-IsDithered gray width y wide),
)
