-- ===== src/Pages/Gift.antt =====
-- `clean`, `cleanNames` and the plan that `Render` follows in Appliance/internal/giftpage/page.go.
pub mod Laws
use rongta_f11_open.Base.{
  ℕ, zero, suc, ◌+◌, ◌-◌, ◌*◌, ◌/◌, ◌%◌, Bool, ◌&&◌, ◌||◌, List, [], ◌∷◌, ◌++◌, ltb, leb, ◌==◌,
  if◌then◌else◌, length, take, Bytes, Result, ok, ◌>>=◌, ◌>>◌, fail_if,
}
use rongta_f11_open.Text.{Text, codes, is_empty, fields, join, trim_space, itoa}

-- The loop of `clean`; what it writes is of one byte a rune.
unfoldable pub clean_loop : Text → Text → Text
clean_loop out [] = out
clean_loop out (r ∷ rs) =
    let longer = out ++ ((if leb 32 r && leb r 126 then r else 32) ∷ []) in
    let more = clean_loop longer rs in if leb 25 (length longer) then longer else more

unfoldable pub clean : Text → Text
unfolding clean_loop
clean s = join (fields (clean_loop [] (trim_space s))) (32 ∷ [])

unfoldable pub clean_names : List Text → List Text
clean_names [] = []
clean_names (raw ∷ raws) =
    let name = clean raw in
    let rest = clean_names raws in if is_empty name then rest else name ∷ rest

pub record GiftPage : Type 0 where
  pub total : ℕ
  pub gifter : Text
  pub recipients : List Text
  pub missing : ℕ

pub record GiftReport : Type 0 where
  pub gifter : Text
  pub total : ℕ
  pub displayed : ℕ
  pub missing : ℕ
  pub more : ℕ

-- A name of the roster, with its number and where it stands.
pub record Place : Type 0 where
  pub number : ℕ
  pub name : Text
  pub x : ℕ
  pub y : ℕ

-- What `Render` paints, from the number at the top down to the footer.
pub record GiftPlan : Type 0 where
  pub total : ℕ
  pub gifter : Text
  pub font_size : ℕ
  pub places : List Place
  pub more : ℕ
  pub more_y : ℕ
  pub footer_y : ℕ

abbrev pub max_displayed : ℕ
max_displayed = 24

-- `c.Missing + max(0, len(names)-len(display)) + max(0, c.Total-len(names)-c.Missing)`
unfoldable pub more_names : GiftPage → List Text → List Text → ℕ
more_names c names display =
    c.missing + (length names - length display) + (c.total - length names - c.missing)

abbrev pub roster_font : ℕ → ℕ
roster_font displayed = if ltb 20 displayed then 30 else if ltb 16 displayed then 34 else 40

abbrev pub row_gap : ℕ → ℕ
row_gap rows = if ltb 10 rows then 54 else if ltb 8 rows then 64 else 76

-- The loop over the names that are displayed; `i` counts them from 0.
unfoldable pub place_names : ℕ → ℕ → List Text → List Place
place_names i gap [] = []
place_names i gap (name ∷ names) =
    record {
      number = i + 1;
      name = name;
      x = if i % 2 == 0 then 210 else 865;
      y = 1245 + i / 2 * gap;
    }
    ∷ place_names (i + 1) gap names

-- Where the footer stands below a roster that ends at `bottom`.
abbrev pub footer_of : ℕ → ℕ → ℕ
footer_of bottom more =
    let below = if ltb 0 more then bottom + 70 else bottom in
    if ltb 2020 (below + 70) then below + 70 else 2020

unfoldable pub plan_gift : GiftPage → Text → List Text → GiftPlan
unfolding place_names more_names
plan_gift c gifter names =
    let display = take max_displayed names in
    let more = more_names c names display in
    let rows = (length display + 1) / 2 in
    let bottom = 1245 + rows * row_gap rows in
    record {
      total = c.total;
      gifter = gifter;
      font_size = roster_font (length display);
      places = place_names 0 (row_gap rows) display;
      more = more;
      more_y = bottom + 20;
      footer_y = footer_of bottom more;
    }

unfoldable pub is_bad : GiftPage → Bool
is_bad c =
    ltb c.total 10
    || (ltb 1000 c.total || (is_empty (clean c.gifter) || length (clean_names c.recipients) == 0))

-- `Render`: a total below 10 or above 1000 is refused, and a missing below 0 is not represented.
unfoldable pub render_gift : (GiftPlan → Result Bytes) → GiftPage → Result (Bytes × GiftReport)
unfolding plan_gift is_bad
render_gift paint c = do
  let gifter = clean c.gifter
  let names = clean_names c.recipients
  fail_if (is_bad c) "invalid gift celebration"
  gray ← paint (plan_gift c gifter names)
  let display = take max_displayed names
  ok (
    gray,
    record {
      gifter = gifter;
      total = c.total;
      displayed = length display;
      missing = c.missing;
      more = more_names c names display;
    },
  )
