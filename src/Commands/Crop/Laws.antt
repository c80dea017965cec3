-- ===== src/Commands/Crop/Laws.antt =====
-- No ink is cropped.
use rongta_f11_open.Base.{
  ℕ, zero, suc, ◌+◌, ◌-◌, ◌*◌, ◌≤◌, ◌<◌, ◌≡◌, ◌⊎◌, refl, ap, ◌∙◌, inl, inr, Bool, true, false, not,
  ◌||◌, ltb, leb, ◌==◌, length, take, drop, length-take, length-drop, Bytes, ok, err, new, arith,
  Bool-cases,
}
use rongta_f11_open.Commands.Crop.{
  Ink, is_ink, widen, scan_line, scan_page, find_ink, crop_start, crop_end, crop_to_ink,
}

-- The lines from the first with ink up to the last.
pub record Holds (i : Ink) (y : ℕ) : Type 0 where
  pub from : i.first ≤ y
  pub below : y < i.past

-- What a scan adds to the lines it began with.
pub record Grows (i j : Ink) : Type 0 where
  pub down : j.first ≤ i.first
  pub up : i.past ≤ j.past

scan_line-Grows : (n x : ℕ) (dark : ℕ → Bool) (y : ℕ) (i : Ink) → Grows i (scan_line n x dark y i)
unfolding scan_line
scan_line-Grows zero x dark y i = omega arith
scan_line-Grows (suc n) x dark y i = elim (Bool-cases (dark x)) [
  | inl ink ↦
      let g = scan_line-Grows n (x + 1) dark y (widen y i) in
      rw ink (record { down = ground (arith, g.down); up = ground (arith, g.up) })
  | inr blank ↦ rw blank (scan_line-Grows n (x + 1) dark y i)
]

scan_line-Holds :
    (n x : ℕ) (dark : ℕ → Bool) (y : ℕ) (i : Ink) (k : ℕ)
    → x ≤ k
    → k < x + n
    → dark k ≡ true
    → Holds (scan_line n x dark y i) y
unfolding scan_line
scan_line-Holds zero x dark y i k h l e = absurd (omega arith)
scan_line-Holds (suc n) x dark y i k h l e = elim (Bool-cases (x == k)) [
  | inl here ↦
      let same : x ≡ k = ground arith in
      let ink : dark x ≡ true = ap dark same ∙ e in
      let g = scan_line-Grows n (x + 1) dark y (widen y i) in
      rw ink (record { from = ground (arith, g.down); below = ground (arith, g.up) })
  | inr there ↦ scan_line-Holds n (x + 1) dark y _ k (ground arith) (omega arith) e
]

Grows-trans : {i j k : Ink} → Grows i j → Grows j k → Grows i k
Grows-trans g h = record { down = omega (arith, g.down, h.down); up = omega (arith, g.up, h.up) }

scan_page-Grows :
    (n y : ℕ) (gray : Bytes) (width : ℕ) (i : Ink) → Grows i (scan_page n y gray width i)
unfolding scan_page
scan_page-Grows zero y gray width i = omega arith
scan_page-Grows (suc n) y gray width i =
    Grows-trans (scan_line-Grows width 0 (is_ink gray width y) y i)
      (scan_page-Grows n (y + 1) gray width _)

-- A dark pixel's line is found.
scan_page-Holds :
    (n y : ℕ) (gray : Bytes) (width : ℕ) (i : Ink) (row x : ℕ)
    → y ≤ row
    → row < y + n
    → x < width
    → is_ink gray width row x ≡ true
    → Holds (scan_page n y gray width i) row
unfolding scan_page
scan_page-Holds zero y gray width i row x h l k e = absurd (omega arith)
scan_page-Holds (suc n) y gray width i row x h l k e = elim (Bool-cases (y == row)) [
  | inl here ↦
      let same : y ≡ row = ground arith in
      let ink : is_ink gray width y x ≡ true = ap (λ r. is_ink gray width r x) same ∙ e in
      let found =
        scan_line-Holds width 0 (is_ink gray width y) y i x (omega arith) (omega arith) ink in
      let g = scan_page-Grows n (y + 1) gray width (scan_line width 0 (is_ink gray width y) y i) in
      record {
        from = omega (arith, found.from, g.down, same);
        below = omega (arith, found.below, g.up, same);
      }
  | inr there ↦ scan_page-Holds n (y + 1) gray width _ row x (ground arith) (omega arith) k e
]

-- No line is found beyond those that are scanned.
scan_line-bounded :
    (n x : ℕ) (dark : ℕ → Bool) (y : ℕ) (i : Ink) (height : ℕ)
    → y < height
    → i.past ≤ height
    → (scan_line n x dark y i).past ≤ height
unfolding scan_line
scan_line-bounded zero x dark y i height h k = k
scan_line-bounded (suc n) x dark y i height h k =
    scan_line-bounded n (x + 1) dark y _ height h (ground arith)

scan_page-bounded :
    (n y : ℕ) (gray : Bytes) (width : ℕ) (i : Ink) (height : ℕ)
    → y + n ≤ height
    → i.past ≤ height
    → (scan_page n y gray width i).past ≤ height
unfolding scan_page
scan_page-bounded zero y gray width i height h k = k
scan_page-bounded (suc n) y gray width i height h k =
    scan_page-bounded n (y + 1) gray width _ height (omega arith)
      (scan_line-bounded width 0 _ y i height (omega arith) k)

-- A part of a page: `rows` lines from `start` on, with all its ink.
pub record IsCrop (gray : Bytes) (height start rows : ℕ) (out : Bytes) : Type 0 where
  pub some_rows : 0 < rows
  pub within : start + rows ≤ height
  pub few : rows ≤ 4060
  pub size : length out ≡ 1664 * rows
  pub part : out ≡ take (1664 * rows) (drop (start * 1664) gray)
  pub holds :
      (y x : ℕ)
      → y < height
      → x < 1664
      → is_ink gray 1664 y x ≡ true
      → (start ≤ y) × (y < start + rows)

-- For a page 1664 wide, of 1 to 4060 lines and as many pixels as these need, `cropToInk` returns a
-- part of at least one line of it, in which all its ink stands, and refuses a page only if it has no
-- ink.
pub crop_to_ink-IsCrop :
    (gray : Bytes) (height : ℕ)
    → 0 < height
    → height ≤ 4060
    → length gray ≡ 1664 * height
    → ((start rows : ℕ) × (out : Bytes) × (crop_to_ink gray 1664 height ≡ ok (out, rows))
        × IsCrop gray height start rows out)
      ⊎ ((crop_to_ink gray 1664 height ≡ err (new "rendered banner has no ink"))
          × ((y x : ℕ) → y < height → x < 1664 → is_ink gray 1664 y x ≡ false))
unfolding crop_to_ink find_ink
crop_to_ink-IsCrop gray height pos few size =
    let i = find_ink gray 1664 height in
    let bounded : i.past ≤ height =
      scan_page-bounded height 0 gray 1664 (record { first = height; past = 0 }) height
        (omega arith) (omega arith) in
    let valid : (leb height 0 || not (length gray == 1664 * height)) ≡ false = ground arith in
    let held : (y x : ℕ) → y < height → x < 1664 → is_ink gray 1664 y x ≡ true → Holds i y =
      λ y x hy hx e. scan_page-Holds height 0 gray 1664 _ y x (omega arith) (omega arith) hx e in
    elim (Bool-cases (leb i.past i.first)) [
      | inl none_found ↦ inr (
        rw (valid, none_found) refl,
        λ y x hy hx. elim (Bool-cases (is_ink gray 1664 y x)) [
          | inl ink ↦ let h = held y x hy hx ink in absurd (ground (arith, h.from, h.below))
          | inr blank ↦ blank
        ],
      )
      | inr found ↦
          let short : ltb 4060 (crop_end height i - crop_start i) ≡ false = ground arith in
          let within : crop_start i + (crop_end height i - crop_start i) ≤ height = ground arith in
          inl (
            crop_start i,
            crop_end height i - crop_start i,
            take (1664 * (crop_end height i - crop_start i)) (drop (crop_start i * 1664) gray),
            rw (valid, found, short) refl,
            record {
              some_rows = ground arith;
              within = within;
              few = ground arith;
              size = omega (
                arith,
                size,
                within,
                length-take (1664 * (crop_end height i - crop_start i))
                    (drop (crop_start i * 1664) gray),
                length-drop (crop_start i * 1664) gray,
              );
              part = refl;
              holds = λ y x hy hx e. (
                ground (arith, (held y x hy hx e).from),
                ground (arith, (held y x hy hx e).from, (held y x hy hx e).below),
              );
            },
          )
    ]
