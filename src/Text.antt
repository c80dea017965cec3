-- ===== src/Text.antt =====
-- Go strings and what the program calls of the packages strings and unicode/utf8. A text is the list
-- of the runes that a loop over the string yields; an identifier is a text too.
pub mod Fields
pub mod Count
pub mod Trim
use Prim.Native.Char.{code}
use rongta_f11_open.Base.{
  ℕ, zero, suc, ◌+◌, ◌-◌, ◌/◌, ◌%◌, Bool, true, false, not, ◌&&◌, ◌||◌, List, [], ◌∷◌, ◌++◌, String,
  leb, ltb, ◌==◌, if◌then◌else◌, length, drop, bytes_equal,
}

abbrev pub Text : Type 0
Text = List ℕ

-- The runes of a literal.
abbrev pub codes : String → Text
codes String.[] = []
codes (String.◌∷◌ c s) = code c ∷ codes s

abbrev pub text_equal : Text → Text → Bool
text_equal = bytes_equal

abbrev pub is_empty : Text → Bool
is_empty [] = true
is_empty (r ∷ rs) = false

-- utf8.RuneLen, and the length of a text in bytes.
abbrev pub rune_length : ℕ → ℕ
rune_length r = if ltb r 128 then 1 else if ltb r 2048 then 2 else if ltb r 65536 then 3 else 4

abbrev pub byte_length : Text → ℕ
byte_length [] = 0
byte_length (r ∷ rs) = rune_length r + byte_length rs

-- unicode.IsSpace.
unfoldable pub is_space : ℕ → Bool
is_space r =
    (leb 9 r && leb r 13)
    || (r == 32
        || (r == 0x85
            || (r == 0xa0
                || (r == 0x1680
                    || ((leb 0x2000 r && leb r 0x200a)
                        || (r == 0x2028
                            || (r == 0x2029 || (r == 0x202f || (r == 0x205f || r == 0x3000)))))))))

-- strings.Fields: the words between the spaces.
unfoldable pub flush_word : Text → List Text → List Text
flush_word [] words = words
flush_word (r ∷ rs) words = (r ∷ rs) ∷ words

unfoldable pub fields_loop : Text → Text → List Text
unfolding flush_word
fields_loop word [] = flush_word word []
fields_loop word (r ∷ rs) =
    let next = flush_word word (fields_loop [] rs) in
    let more = fields_loop (word ++ (r ∷ [])) rs in if is_space r then next else more

unfoldable pub fields : Text → List Text
unfolding fields_loop
fields text = fields_loop [] text

-- strings.Join.
unfoldable pub join : List Text → Text → Text
join [] sep = []
join (w ∷ []) sep = w
join (w ∷ v ∷ words) sep = w ++ (sep ++ join (v ∷ words) sep)

-- strings.TrimSpace.
unfoldable pub trim_left : Text → Text
trim_left [] = []
trim_left (r ∷ rs) = let later = trim_left rs in if is_space r then later else r ∷ rs

unfoldable pub trim_right : Text → Text
trim_right [] = []
trim_right (r ∷ rs) =
    let later = trim_right rs in if is_empty later && is_space r then [] else r ∷ later

unfoldable pub trim_space : Text → Text
unfolding trim_left trim_right
trim_space text = trim_right (trim_left text)

-- strings.HasPrefix and strings.TrimPrefix.
unfoldable pub has_prefix : Text → Text → Bool
has_prefix text [] = true
has_prefix [] (p ∷ ps) = false
has_prefix (r ∷ rs) (p ∷ ps) = r == p && has_prefix rs ps

unfoldable pub trim_prefix : Text → Text → Text
unfolding has_prefix
trim_prefix text prefix = if has_prefix text prefix then drop (length prefix) text else text

-- strconv.Itoa: a digit a round, so the number itself is enough fuel.
unfoldable pub itoa_loop : ℕ → ℕ → Text
itoa_loop zero n = (48 + n) ∷ []
itoa_loop (suc fuel) n =
    let more = itoa_loop fuel (n / 10) ++ ((48 + n % 10) ∷ []) in
    if ltb n 10 then (48 + n) ∷ [] else more

unfoldable pub itoa : ℕ → Text
unfolding itoa_loop
itoa n = itoa_loop n n

-- strings.Split by one rune.
unfoldable pub split_loop : ℕ → Text → Text → List Text
split_loop sep part [] = part ∷ []
split_loop sep part (r ∷ rs) =
    let next = part ∷ split_loop sep [] rs in
    let more = split_loop sep (part ++ (r ∷ [])) rs in if r == sep then next else more

unfoldable pub split : Text → ℕ → List Text
unfolding split_loop
split text sep = split_loop sep [] text

-- `words[0]`, where there is one.
abbrev pub first_word : List Text → Text
first_word [] = []
first_word (w ∷ words) = w
