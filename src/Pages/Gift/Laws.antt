-- ===== src/Pages/Gift/Laws.antt =====
-- The roster of a gift page: who is named, and that it fits.
use Prim.Native.Nat.{min}
use rongta_f11_open.Base.{
  ℕ, ◌+◌, ◌-◌, ◌*◌, ◌/◌, ◌≤◌, ◌<◌, ◌≡◌, ◌⊎◌, refl, inl, inr, List, [], ◌∷◌, ltb, length,
  length-take, take, All, arith, Bool-cases,
}
use rongta_f11_open.Text.{Text}
use rongta_f11_open.Pages.Gift.{
  GiftPage, Place, GiftPlan, footer_of, max_displayed, more_names, row_gap, place_names, plan_gift,
}

-- A place above a line.
abbrev pub Above : ℕ → Place → Type 0
Above y p = p.y ≤ y

place_names-Above :
    (i gap : ℕ) (names : List Text) (y : ℕ)
    → gap ≤ 76
    → ((k : ℕ) → k < i + length names → 1245 + k / 2 * gap ≤ y)
    → All (Above y) (place_names i gap names)
unfolding place_names
place_names-Above i gap [] y g h = tt
place_names-Above i gap (n ∷ names) y g h =
    (h i (omega arith), place_names-Above (i + 1) gap names y g (λ k l. h k (omega arith)))

length-place_names :
    (i gap : ℕ) (names : List Text) → length (place_names i gap names) ≡ length names
unfolding place_names
length-place_names i gap [] = refl
length-place_names i gap (n ∷ names) = omega (arith, length-place_names (i + 1) gap names)

-- A page whose roster is complete, and does not run into the footer, nor the footer out of the frame.
pub record IsPlan (c : GiftPage) (names : List Text) (p : GiftPlan) : Type 0 where
  pub counted : length p.places + p.more ≡ c.total
  pub few : length p.places ≤ 24
  pub above_more : All (Above (p.more_y - 20 - 54)) p.places
  pub above_footer : p.more_y + 36 ≤ p.footer_y - 35
  pub inside : p.footer_y + 30 ≤ 2233 - 94

row_gap-cases :
    (rows : ℕ)
    → (row_gap rows ≡ 54) ⊎ (row_gap rows ≡ 64) × (rows ≤ 10) ⊎ (row_gap rows ≡ 76) × (rows ≤ 8)
row_gap-cases rows = elim (Bool-cases (ltb 10 rows)) [
  | inl many ↦ inl (rw many refl)
  | inr few ↦ elim (Bool-cases (ltb 8 rows)) [
    | inl some_rows ↦ inr (inl (rw (few, some_rows) refl, ground arith))
    | inr fewer ↦ inr (inr (rw (few, fewer) refl, ground arith))
  ]
]

roster_height : (rows : ℕ) → rows ≤ 12 → rows * row_gap rows ≤ 648
roster_height rows h = elim (row_gap-cases rows) [
  | inl e ↦ rw e (omega arith)
  | inr (inl (e, k)) ↦ rw e (omega arith)
  | inr (inr (e, k)) ↦ rw e (omega arith)
]

row_gap-bounded :
    (rows displayed k : ℕ)
    → rows ≡ (displayed + 1) / 2
    → k < displayed
    → 1245 + k / 2 * row_gap rows ≤ 1245 + rows * row_gap rows + 20 - 20 - 54
row_gap-bounded rows displayed k e l = elim (row_gap-cases rows) [
  | inl g ↦ rw g (omega arith)
  | inr (inl (g, _)) ↦ rw g (omega arith)
  | inr (inr (g, _)) ↦ rw g (omega arith)
]

row_gap-small : (rows : ℕ) → row_gap rows ≤ 76
row_gap-small rows = ground arith

footer-bounds :
    (bottom more : ℕ)
    → bottom ≤ 1893
    → (bottom + 20 + 36 ≤ footer_of bottom more - 35) × (footer_of bottom more + 30 ≤ 2233 - 94)
footer-bounds bottom more h = (ground arith, ground arith)

-- If the names and those missing are no more than the total: at most 24 names are placed and the rest
-- are counted, so that both are the total; the rows end above the line for the rest, that line ends
-- above the footer, and the footer stays within the frame.
pub plan_gift-IsPlan :
    (c : GiftPage) (gifter : Text) (names : List Text)
    → length names + c.missing ≤ c.total
    → IsPlan c names (plan_gift c gifter names)
unfolding plan_gift more_names
plan_gift-IsPlan c gifter names h =
    let display : List Text = take max_displayed names in
    let shown : length display ≡ min 24 (length names) = length-take max_displayed names in
    let rows : ℕ = (length display + 1) / 2 in
    let placed : length (place_names 0 (row_gap rows) display) ≡ length display =
      length-place_names 0 (row_gap rows) display in
    let low : rows * row_gap rows ≤ 648 = roster_height rows (omega arith) in
    record {
      counted = omega (arith, placed, shown);
      few = omega (arith, placed, shown);
      above_more =
          place_names-Above 0 (row_gap rows) display _ (row_gap-small rows)
            (λ k l. row_gap-bounded rows (length display) k refl (omega arith));
      above_footer = (footer-bounds (1245 + rows * row_gap rows) _ (omega (arith, low))).0;
      inside = (footer-bounds (1245 + rows * row_gap rows) _ (omega (arith, low))).1;
    }
