-- ===== src/Text/Trim.antt =====
-- The words of a text behind strings.TrimSpace and strings.TrimPrefix.
use rongta_f11_open.Base.{
  ℕ, ◌≡◌, refl, sym, ap, ◌∙◌, inl, inr, true, false, ◌&&◌, List, [], ◌∷◌, ◌++◌, length,
  drop-append_eq, append_assoc, arith, Bool-cases,
}
use rongta_f11_open.Text.{
  Text, is_empty, is_space, flush_word, fields_loop, fields, trim_left, trim_right, trim_space,
  has_prefix, trim_prefix,
}

flush_word_empty : (words : List Text) → flush_word [] words ≡ words
unfolding flush_word
flush_word_empty words = refl

fields_loop-space :
    (r : ℕ) (rs : Text) → is_space r ≡ true → fields_loop [] (r ∷ rs) ≡ fields_loop [] rs
unfolding fields_loop flush_word
fields_loop-space r rs e = rw e refl

fields-trim_left : (text : Text) → fields_loop [] (trim_left text) ≡ fields_loop [] text
unfolding trim_left
fields-trim_left [] = refl
fields-trim_left (r ∷ rs) = elim (Bool-cases (is_space r)) [
  | inl e ↦ rw e (fields-trim_left rs ∙ sym (fields_loop-space r rs e))
  | inr e ↦ rw e refl
]

fields-trim_right : (word text : Text) → fields_loop word (trim_right text) ≡ fields_loop word text
unfolding trim_right fields_loop
fields-trim_right word [] = refl
fields-trim_right word (r ∷ rs) = elim (Bool-cases (is_empty (trim_right rs) && is_space r)) [
  | inl gone ↦
      let blank : is_space r ≡ true = ground arith in
      let nothing : trim_right rs ≡ [] = ground arith in
      rw (gone, blank)
        (ap (flush_word word) (sym (sym (fields-trim_right [] rs) ∙ ap (fields_loop []) nothing)))
  | inr kept ↦ rw kept (elim (Bool-cases (is_space r)) [
    | inl e ↦ rw e (ap (flush_word word) (fields-trim_right [] rs))
    | inr e ↦ rw e (fields-trim_right (word ++ (r ∷ [])) rs)
  ])
]

pub fields-trim_space : (text : Text) → fields (trim_space text) ≡ fields text
unfolding fields trim_space
fields-trim_space text = fields-trim_right [] (trim_left text) ∙ fields-trim_left text

-- A word that is being read, and the words behind it.
fields_loop-first :
    (a : ℕ) (word text : Text) (w : Text) (ws : List Text)
    → fields_loop (a ∷ word) text ≡ w ∷ ws
    → (rest : Text) × (a ∷ (word ++ text) ≡ w ++ rest) × (fields_loop [] rest ≡ ws)
unfolding fields_loop flush_word
fields_loop-first a word [] w ws e =
    let same : a ∷ word ≡ w = ground arith in
    let none_left : [] ≡ ws = ground arith in ([], ap (λ t. t ++ []) same, none_left)
fields_loop-first a word (r ∷ rs) w ws e = elim (Bool-cases (is_space r)) [
  | inl space ↦
      let ended : (a ∷ word) ∷ fields_loop [] rs ≡ w ∷ ws = rw space at e in
      let same : a ∷ word ≡ w = ground arith in
      let later : fields_loop [] rs ≡ ws = ground arith in
      (r ∷ rs, ap (λ t. t ++ (r ∷ rs)) same, rw space later)
  | inr rune ↦
      let (rest, split, later) = fields_loop-first a (word ++ (r ∷ [])) rs w ws (rw rune at e) in
      (rest, ap (λ t. a ∷ t) (sym (append_assoc word (r ∷ []) rs)) ∙ split, later)
]

has_prefix-append : (w rest : Text) → has_prefix (w ++ rest) w ≡ true
unfolding has_prefix
has_prefix-append [] rest = refl
has_prefix-append (r ∷ w) rest = ground (arith, has_prefix-append w rest)

trim_prefix-append : (w rest : Text) → trim_prefix (w ++ rest) w ≡ rest
unfolding trim_prefix
trim_prefix-append w rest = rw (has_prefix-append w rest) (drop-append_eq w rest (length w) refl)

fields_loop-rune :
    (r : ℕ) (rs : Text) → is_space r ≡ false → fields_loop [] (r ∷ rs) ≡ fields_loop (r ∷ []) rs
unfolding fields_loop
fields_loop-rune r rs e = rw e refl

trim_left-space : (r : ℕ) (rs : Text) → is_space r ≡ true → trim_left (r ∷ rs) ≡ trim_left rs
unfolding trim_left
trim_left-space r rs e = rw e refl

trim-rune :
    (r : ℕ) (rs : Text) → is_space r ≡ false → trim_right (trim_left (r ∷ rs)) ≡ r ∷ trim_right rs
unfolding trim_left trim_right
trim-rune r rs e = ground arith

-- A text without spaces at its start is cut behind its first word.
trimmed-first :
    (text : Text) (w : Text) (ws : List Text)
    → fields (trim_right (trim_left text)) ≡ w ∷ ws
    → (rest : Text) × (trim_right (trim_left text) ≡ w ++ rest) × (fields rest ≡ ws)
unfolding fields
trimmed-first [] w ws e =
    absurd (unfold trim_left trim_right fields_loop flush_word in ground arith)
trimmed-first (r ∷ rs) w ws e = elim (Bool-cases (is_space r)) [
  | inl space ↦
      let same : trim_right (trim_left (r ∷ rs)) ≡ trim_right (trim_left rs) =
        ap trim_right (trim_left-space r rs space) in
      let (rest, split, later) = trimmed-first rs w ws (rw same at e) in (rest, same ∙ split, later)
  | inr rune ↦
      let same = trim-rune r rs rune in
      let (rest, split, later) =
        fields_loop-first r [] (trim_right rs) w ws
          (sym (fields_loop-rune r (trim_right rs) rune) ∙ sym (ap (fields_loop []) same) ∙ e) in
      (rest, same ∙ split, later)
]

-- Behind its first word a text holds the other words.
pub fields-trim_prefix :
    (text : Text) (w : Text) (ws : List Text)
    → fields text ≡ w ∷ ws
    → fields (trim_space (trim_prefix (trim_space text) w)) ≡ ws
unfolding trim_space
fields-trim_prefix text w ws e =
    let (rest, split, later) = trimmed-first text w ws (fields-trim_space text ∙ e) in
    fields-trim_space (trim_prefix (trim_space text) w)
    ∙ ap fields (ap (λ t. trim_prefix t w) split ∙ trim_prefix-append w rest)
    ∙ later
