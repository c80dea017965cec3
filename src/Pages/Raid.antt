-- ===== src/Pages/Raid.antt =====
-- `clean`, `formatViewers` and the texts that `Render` centers in Appliance/internal/raidpage/page.go.
-- Size and place of a text go to `paint` unchanged; a number of viewers below 0 is not represented.
use rongta_f11_open.Base.{
  ℕ, zero, suc, ◌-◌, Bool, ◌||◌, List, [], ◌∷◌, ◌++◌, ltb, leb, if◌then◌else◌, length, take, drop,
  Bytes, Result, ok, ◌>>=◌, ◌>>◌, fail_if,
}
use rongta_f11_open.Text.{Text, codes, is_empty, fields, join, trim_space, itoa}

-- The loop of `clean`: any other rune clears the name, unless 25 are written before it.
unfoldable pub clean_loop : Text → Text → Text
clean_loop b [] = b
clean_loop b (r ∷ rs) =
    let longer = b ++ (r ∷ []) in
    let more = clean_loop longer rs in
    if ltb r 32 || ltb 126 r then [] else if leb 25 (length longer) then longer else more

unfoldable pub clean : Text → Text
unfolding clean_loop
clean s = join (fields (clean_loop [] (trim_space s))) (32 ∷ [])

-- `for i := len(s) - 3; i > 0; i -= 3`; a round takes 3 off, so the length is enough fuel. An index
-- below 0 ends the loop as 0 does.
unfoldable pub insert_commas : ℕ → ℕ → Text → Text
insert_commas zero i s = s
insert_commas (suc fuel) i s =
    let rest = insert_commas fuel (i - 3) (take i s ++ (44 ∷ drop i s)) in
    if ltb 0 i then rest else s

unfoldable pub format_viewers : ℕ → Text
unfolding insert_commas
format_viewers n = let s = itoa n in insert_commas (length s) (length s - 3) s

-- A text that is centered, with its size and where its top is.
pub record Centered : Type 0 where
  pub text : Text
  pub size : ℕ
  pub y : ℕ

pub record RaidReport : Type 0 where
  pub channel : Text
  pub viewers : ℕ
  pub width_dots : ℕ
  pub rows : ℕ

unfoldable pub is_bad : Text → ℕ → Bool
is_bad name viewers = is_empty (clean name) || (leb viewers 0 || ltb 1000000 viewers)

module _ (to_upper : Text → Text) where
  unfoldable pub plan_raid : Text → ℕ → List Centered
  unfolding format_viewers
  plan_raid channel viewers =
      record { text = codes "RAID INCOMING"; size = 105; y = 270 }
      ∷ record { text = to_upper channel; size = 92; y = 700 }
      ∷ record { text = codes "IS RAIDING"; size = 46; y = 850 }
      ∷ record { text = format_viewers viewers; size = 210; y = 1080 }
      ∷ record { text = codes "VIEWERS"; size = 48; y = 1370 }
      ∷ record { text = codes "WELCOME TO UWOGOOB"; size = 62; y = 1780 }
      ∷ record { text = codes "THANK YOU FOR THE RAID"; size = 38; y = 1900 }
      ∷ []

  unfoldable pub render_raid :
      (List Centered → Result Bytes) → Text → ℕ → Result (Bytes × RaidReport)
  unfolding plan_raid is_bad
  render_raid paint name viewers = do
    let channel = clean name
    fail_if (is_bad name viewers) "invalid raid receipt"
    out ← paint (plan_raid channel viewers)
    ok (
      out,
      record { channel = to_upper channel; viewers = viewers; width_dots = 1664; rows = 2233 },
    )
