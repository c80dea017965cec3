-- ===== src/Twitch/Cheer.antt =====
-- `Cheer`, `cleanWord`, `boundedText`, `PrepareCheer` and `RuneSafePrefix` of
-- Appliance/internal/twitchbanner/twitchbanner.go. The tables of the package unicode, the conversion
-- to upper case and utf8.ValidString are arguments.
pub mod Laws
pub mod Prefix
pub mod Notice
pub mod Chat
use rongta_f11_open.Base.{
  ℕ, zero, suc, ◌+◌, ◌-◌, Bool, true, false, not, ◌&&◌, ◌||◌, List, [], ◌∷◌, ◌++◌, ltb, leb, ◌==◌,
  if◌then◌else◌, length, take, Bytes, Result, ok, panic, stuck, ◌>>=◌,
}
use rongta_f11_open.Text.{Text, codes, is_empty, byte_length, fields, join, trim_space}

pub record Unicode : Type 0 where
  pub is_print : ℕ → Bool
  pub is_mark : ℕ → Bool
  pub is_letter : ℕ → Bool
  pub is_digit : ℕ → Bool
  pub to_upper : Text → Text

pub record Cheer : Type 0 where
  pub bits : ℕ
  pub user_name : Text
  pub message : Text
  pub anonymous : Bool

pub record Envelope : Type 0 where
  pub message_id : Text
  pub cheer : Cheer

pub record Decision : Type 0 where
  pub qualifies : Bool
  pub text : Text

abbrev pub max_text_bytes : ℕ
max_text_bytes = 256

abbrev pub max_words : ℕ
max_words = 16

module _ (u : Unicode) where
  open u use {is_print, is_mark, is_letter, is_digit, to_upper}

  -- What one round of the loop of `cleanWord` writes.
  unfoldable pub clean_rune : ℕ → Text
  clean_rune r =
      let kept =
        if (leb 32 r && leb r 126) || (is_letter r || is_digit r) then r ∷ [] else 32 ∷ [] in
      if is_print r && (not (is_mark r) && (not (r == 0x200b) && not (r == 0x200d)))
      then kept
      else []

  unfoldable pub clean_runes : Text → Text
  unfolding clean_rune
  clean_runes [] = []
  clean_runes (r ∷ rs) = clean_rune r ++ clean_runes rs

  unfoldable pub clean_word : Text → Text
  unfolding clean_runes
  clean_word word = join (fields (clean_runes word)) []

  -- The loop of `boundedText`: what is left of the words, `out` and `bytes`.
  unfoldable pub bounded_loop : List Text → List Text → ℕ → List Text
  bounded_loop [] out bytes = out
  bounded_loop (w ∷ ws) out bytes =
      let word = clean_word w in
      let need = if ltb 0 (length out) then byte_length word + 1 else byte_length word in
      let skipped = bounded_loop ws out bytes in
      let added = bounded_loop ws (out ++ (word ∷ [])) (bytes + need) in
      if is_empty word
      then skipped
      else if length out == max_words || ltb max_text_bytes (bytes + need)
      then out
      else added

  unfoldable pub bounded_text : Text → Text
  unfolding bounded_loop
  bounded_text raw = join (bounded_loop (fields raw) [] 0) (32 ∷ [])

  -- The name that thanks are given to.
  unfoldable pub thanked_name : Cheer → Text
  unfolding bounded_text
  thanked_name c =
      let name =
        if c.anonymous || is_empty (trim_space c.user_name)
        then codes "ANONYMOUS"
        else c.user_name in
      let upper = to_upper (bounded_text name) in
      if is_empty upper then codes "ANONYMOUS" else upper

  unfoldable pub prepare_cheer : Cheer → Decision
  unfolding bounded_text thanked_name
  prepare_cheer c =
      let text = bounded_text c.message in
      let chosen = if is_empty text then codes "THANK YOU " ++ thanked_name c else text in
      if ltb c.bits 1000
      then record { qualifies = false; text = [] }
      else record { qualifies = true; text = chosen }

-- The two loops of `RuneSafePrefix` on the bytes of a string; each round takes one byte off, so the
-- length is enough fuel. A slice `s[:len(s)-1]` of the empty string panics.
unfoldable pub drop_last : Bytes → Result Bytes
drop_last [] = panic
drop_last (b ∷ bs) = ok (take (length bs) (b ∷ bs))

module _ (valid_utf8 : Bytes → Bool) where
  unfoldable pub drop_invalid : ℕ → Bytes → Result Bytes
  unfolding drop_last
  drop_invalid zero s = if valid_utf8 s then ok s else stuck
  drop_invalid (suc fuel) s =
      let shorter = drop_last s >>= drop_invalid fuel in if valid_utf8 s then ok s else shorter

  unfoldable pub prefix_loop : ℕ → Bytes → ℕ → Result Bytes
  unfolding drop_invalid
  prefix_loop zero s n = if ltb n (length s) then stuck else ok s
  prefix_loop (suc fuel) s n =
      let shorter = do t ← drop_last s; v ← drop_invalid (length t) t; prefix_loop fuel v n
      in if ltb n (length s) then shorter else ok s

  unfoldable pub rune_safe_prefix : Bytes → ℕ → Result Bytes
  unfolding prefix_loop
  rune_safe_prefix s n = prefix_loop (length s) s n
