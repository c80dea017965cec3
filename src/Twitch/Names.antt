-- ===== src/Twitch/Names.antt =====
-- `cleanName` of Appliance/internal/twitchgift/gift.go, which twitchraid/raid.go has too.
pub mod Laws
use rongta_f11_open.Base.{
  ℕ, Bool, false, ◌&&◌, ◌||◌, [], ◌∷◌, ◌++◌, ltb, leb, ◌==◌, if◌then◌else◌, length, Option, none,
  some,
}
use rongta_f11_open.Text.{Text, codes, fields, join, trim_space}

unfoldable pub contains_rune : Text → ℕ → Bool
contains_rune [] r = false
contains_rune (x ∷ xs) r = x == r || contains_rune xs r

unfoldable pub is_name_rune : ℕ → Bool
unfolding contains_rune
is_name_rune r =
    (leb 65 r && leb r 90)
    || ((leb 97 r && leb r 122) || ((leb 48 r && leb r 57) || contains_rune (codes " _.-'") r))

-- The loop over the runes; `b` holds what is written, all of it of one byte a rune.
unfoldable pub name_loop : Text → Text → Option Text
unfolding is_name_rune
name_loop [] b = some b
name_loop (r ∷ rs) b =
    let kept = name_loop rs (b ++ (r ∷ [])) in
    let full = name_loop rs b in
    if is_name_rune r then if ltb (length b) 25 then kept else full else none

unfoldable pub clean_name : Text → Text
unfolding name_loop
clean_name raw = elim (name_loop (trim_space raw) []) [
  | none ↦ []
  | some b ↦ join (fields b) (32 ∷ [])
]
