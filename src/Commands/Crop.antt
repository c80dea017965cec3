-- ===== src/Commands/Crop.antt =====
-- `cropToInk` of Appliance/cmd/bannerprint/main.go. The last line with ink, which is -1 before there is
-- one, is counted from 1 here.
pub mod Laws
use rongta_f11_open.Base.{
  ℕ, zero, suc, ◌+◌, ◌-◌, ◌*◌, ◌/◌, Bool, not, ◌||◌, ltb, leb, ◌==◌, if◌then◌else◌, length, get_or,
  take, drop, Bytes, Result, ok, ◌>>=◌, ◌>>◌, fail_if,
}

pub record Ink : Type 0 where
  pub first : ℕ
  pub past : ℕ

abbrev pub is_ink : Bytes → ℕ → ℕ → ℕ → Bool
is_ink gray width y x = ltb (get_or gray (y * width + x) 0) 250

abbrev pub widen : ℕ → Ink → Ink
widen y i = record {
  first = if ltb y i.first then y else i.first;
  past = if leb i.past y then suc y else i.past;
}

-- The inner loop with the rounds left; `dark x` is the test in its body.
unfoldable pub scan_line : ℕ → ℕ → (ℕ → Bool) → ℕ → Ink → Ink
scan_line zero x dark y i = i
scan_line (suc n) x dark y i = scan_line n (x + 1) dark y (if dark x then widen y i else i)

-- The outer loop with the rounds left.
unfoldable pub scan_page : ℕ → ℕ → Bytes → ℕ → Ink → Ink
unfolding scan_line
scan_page zero y gray width i = i
scan_page (suc n) y gray width i =
    scan_page n (y + 1) gray width (scan_line width 0 (is_ink gray width y) y i)

unfoldable pub find_ink : Bytes → ℕ → ℕ → Ink
unfolding scan_page
find_ink gray width height = scan_page height 0 gray width (record { first = height; past = 0 })

abbrev pub crop_start : Ink → ℕ
crop_start i = i.first - 90 / 2

abbrev pub crop_end : ℕ → Ink → ℕ
crop_end height i = let end = i.past + 90 - 90 / 2 in if ltb height end then height else end

unfoldable pub crop_to_ink : Bytes → ℕ → ℕ → Result (Bytes × ℕ)
unfolding find_ink
crop_to_ink gray width height = do
  fail_if (not (width == 1664) || (leb height 0 || not (length gray == width * height)))
      "invalid rendered raster"
  let i = find_ink gray width height
  fail_if (leb i.past i.first) "rendered banner has no ink"
  let start = crop_start i
  let end = crop_end height i
  fail_if (ltb 4060 (end - start)) "banner exceeds 20-inch maximum"
  ok (take (width * (end - start)) (drop (start * width) gray), end - start)
