-- ===== src/Text/Fields.antt =====
-- The words that strings.Fields finds.
use rongta_f11_open.Base.{
  ℕ, ◌+◌, ◌≡◌, refl, sym, ap, ◌∙◌, inl, inr, true, false, List, [], ◌∷◌, ◌++◌, All, append_assoc,
  append-nil, arith, Bool-cases,
}
use rongta_f11_open.Text.{
  Text, is_empty, is_space, byte_length, flush_word, fields_loop, fields, join,
}

abbrev pub NoSpace : Text → Type 0
NoSpace = All (λ r. is_space r ≡ false)

-- A word as strings.Fields returns it.
pub record IsWord (word : Text) : Type 0 where
  pub some_rune : is_empty word ≡ false
  pub no_space : NoSpace word

pub byte_length-append : (xs ys : Text) → byte_length (xs ++ ys) ≡ byte_length xs + byte_length ys
byte_length-append [] ys = omega arith
byte_length-append (x ∷ xs) ys = omega (arith, byte_length-append xs ys)

NoSpace-snoc :
    (word : Text) (r : ℕ) → NoSpace word → is_space r ≡ false → NoSpace (word ++ (r ∷ []))
NoSpace-snoc [] r h e = (e, tt)
NoSpace-snoc (x ∷ xs) r (hx, h) e = (hx, NoSpace-snoc xs r h e)

flush_word-AllWords :
    (word : Text) (words : List Text)
    → NoSpace word
    → All IsWord words
    → All IsWord (flush_word word words)
unfolding flush_word
flush_word-AllWords [] words h k = k
flush_word-AllWords (r ∷ rs) words h k = (record { some_rune = refl; no_space = h }, k)

fields_loop-AllWords : (word text : Text) → NoSpace word → All IsWord (fields_loop word text)
unfolding fields_loop
fields_loop-AllWords word [] h = flush_word-AllWords word [] h tt
fields_loop-AllWords word (r ∷ rs) h = elim (Bool-cases (is_space r)) [
  | inl space ↦ rw space (flush_word-AllWords word _ h (fields_loop-AllWords [] rs tt))
  | inr rune ↦ rw rune (fields_loop-AllWords (word ++ (r ∷ [])) rs (NoSpace-snoc word r h rune))
]

-- Words are not empty and hold no space.
pub fields-AllWords : (text : Text) → All IsWord (fields text)
unfolding fields
fields-AllWords text = fields_loop-AllWords [] text tt

fields_loop-word :
    (word more rest : Text)
    → NoSpace more
    → fields_loop word (more ++ rest) ≡ fields_loop (word ++ more) rest
unfolding fields_loop
fields_loop-word word [] rest h = rw (append-nil word)
fields_loop-word word (r ∷ rs) rest (hr, h) = rw hr (
    fields_loop-word (word ++ (r ∷ [])) rs rest h
    ∙ ap (λ w. fields_loop w rest) (append_assoc word (r ∷ []) rs))

flush_word-IsWord :
    (word : Text) (words : List Text) → IsWord word → flush_word word words ≡ word ∷ words
unfolding flush_word
flush_word-IsWord [] words k = cc (k.some_rune)
flush_word-IsWord (r ∷ rs) words k = refl

space : is_space 32 ≡ true
unfolding is_space
space = refl

-- Words joined by one space are found again.
pub fields-join : (words : List Text) → All IsWord words → fields (join words (32 ∷ [])) ≡ words
unfolding fields join
fields-join [] h = unfold fields_loop flush_word in refl
fields-join (w ∷ []) (hw, h) =
    ap (fields_loop []) (sym (append-nil w))
    ∙ fields_loop-word [] w [] hw.no_space
    ∙ flush_word-IsWord w [] hw
fields-join (w ∷ v ∷ words) (hw, h) =
    fields_loop-word [] w (32 ∷ join (v ∷ words) (32 ∷ [])) hw.no_space
    ∙ rw space (flush_word-IsWord w _ hw ∙ ap (λ ws. w ∷ ws) (fields-join (v ∷ words) h))
