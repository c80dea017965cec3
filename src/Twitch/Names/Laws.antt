-- ===== src/Twitch/Names/Laws.antt =====
-- What a cleaned name is.
use rongta_f11_open.Base.{
  ℕ, ◌+◌, ◌≤◌, ◌≡◌, refl, sym, ap, ◌∙◌, inl, inr, true, false, List, [], ◌∷◌, ◌++◌, ltb, length,
  length-append, All, All-append, append_assoc, append-nil, arith, Bool-cases, some, Option-cases,
}
use rongta_f11_open.Text.{
  Text, is_empty, is_space, flush_word, fields_loop, fields, join, trim_left, trim_right,
  trim_space,
}
use rongta_f11_open.Text.Fields.{NoSpace, IsWord, fields-AllWords, fields-join}
use rongta_f11_open.Twitch.Names.{contains_rune, is_name_rune, name_loop, clean_name}

-- At most 25 runes, all of them letters, digits and _ . - ' or one space between words.
pub record IsName (name : Text) : Type 0 where
  pub short : length name ≤ 25
  pub runes : All (λ r. is_name_rune r ≡ true) name
  pub words : List Text
  pub joined : name ≡ join words (32 ∷ [])
  pub each : All IsWord words

abbrev NameRunes : Text → Type 0
NameRunes = All (λ r. is_name_rune r ≡ true)

name_loop-IsShort :
    (text b : Text) {s : Text}
    → NameRunes b
    → length b ≤ 25
    → name_loop text b ≡ some s
    → NameRunes s × (length s ≤ 25)
unfolding name_loop
name_loop-IsShort [] b {s} h k e = let same : b ≡ s = ground arith in rw (← same) (h, k)
name_loop-IsShort (r ∷ rs) b {s} h k e = elim (Bool-cases (is_name_rune r)) [
  | inl good ↦ elim (Bool-cases (ltb (length b) 25)) [
    | inl room ↦
        name_loop-IsShort rs (b ++ (r ∷ [])) (All-append _ b (r ∷ []) h (good, tt))
          (ground (arith, length-append b (r ∷ []))) (rw (good, room) at e)
    | inr full ↦ name_loop-IsShort rs b h k (rw (good, full) at e)
  ]
  | inr bad ↦ absurd (let e' = rw bad at e in ground arith)
]

name_loop-keeps :
    (text b : Text)
    → NameRunes text
    → length b + length text ≤ 25
    → name_loop text b ≡ some (b ++ text)
unfolding name_loop
name_loop-keeps [] b h k = ap some (sym (append-nil b))
name_loop-keeps (r ∷ rs) b (hr, h) k =
    let room : ltb (length b) 25 ≡ true = ground arith in
    rw (hr, room)
      (name_loop-keeps rs (b ++ (r ∷ [])) h (omega (arith, length-append b (r ∷ [])))
        ∙ ap some (append_assoc b (r ∷ []) rs))

-- Splitting into words and joining them makes a text no longer.
join-length :
    (w : Text) (ws : List Text)
    → length (join (w ∷ ws) (32 ∷ [])) ≤ length w + 1 + length (join ws (32 ∷ []))
unfolding join
join-length w [] = omega arith
join-length w (v ∷ ws) = omega (arith, length-append w (32 ∷ join (v ∷ ws) (32 ∷ [])))

flush_word-length :
    (word : Text) (ws : List Text)
    → length (join (flush_word word ws) (32 ∷ [])) ≤ length word + 1 + length (join ws (32 ∷ []))
unfolding flush_word
flush_word-length [] ws = omega arith
flush_word-length (r ∷ rs) ws = join-length (r ∷ rs) ws

fields_loop-length :
    (word text : Text) → length (join (fields_loop word text) (32 ∷ [])) ≤ length word + length text
unfolding fields_loop
fields_loop-length [] [] = unfold flush_word join in omega arith
fields_loop-length (a ∷ word) [] = unfold flush_word join in omega arith
fields_loop-length word (r ∷ rs) = elim (Bool-cases (is_space r)) [
  | inl space ↦
      rw space (omega (arith, flush_word-length word (fields_loop [] rs), fields_loop-length [] rs))
  | inr rune ↦
      rw rune (omega (arith, fields_loop-length (word ++ (r ∷ [])) rs, length-append word (r ∷ [])))
]

module _ (P : ℕ → Type 0) where
  flush_word-runes :
      (word : Text) (ws : List Text)
      → All P word
      → All (All P) ws
      → All (All P) (flush_word word ws)
  unfolding flush_word
  flush_word-runes [] ws h k = k
  flush_word-runes (r ∷ rs) ws h k = (h, k)

  fields_loop-runes :
      (word text : Text) → All P word → All P text → All (All P) (fields_loop word text)
  unfolding fields_loop
  fields_loop-runes word [] h k = flush_word-runes word [] h tt
  fields_loop-runes word (r ∷ rs) h (kr, k) = elim (Bool-cases (is_space r)) [
    | inl space ↦ rw space (flush_word-runes word _ h (fields_loop-runes [] rs tt k))
    | inr rune ↦
        rw rune (fields_loop-runes (word ++ (r ∷ [])) rs (All-append P word (r ∷ []) h (kr, tt)) k)
  ]

  join-runes : (ws : List Text) → P 32 → All (All P) ws → All P (join ws (32 ∷ []))
  unfolding join
  join-runes [] p h = tt
  join-runes (w ∷ []) p (hw, h) = hw
  join-runes (w ∷ v ∷ ws) p (hw, h) = All-append P w _ hw (p, join-runes (v ∷ ws) p h)

-- A name that is cleaned is a name, or empty.
pub clean_name-IsName : (raw : Text) → IsName (clean_name raw)
unfolding clean_name
clean_name-IsName raw = elim (Option-cases (name_loop (trim_space raw) [])) [
  | inl none_left ↦
      rw (clean_name, none_left)
        (record {
          short = omega arith;
          runes = tt;
          words = [];
          joined = unfold join in refl;
          each = tt;
        })
  | inr (b, kept) ↦
      let (runes, short) = name_loop-IsShort (trim_space raw) [] tt (omega arith) kept in
      rw (clean_name, kept)
        (record {
          short = unfold fields in omega (arith, fields_loop-length [] b);
          runes =
              join-runes _ (fields b) (unfold is_name_rune contains_rune in refl)
                (unfold fields in fields_loop-runes _ [] b tt runes);
          words = fields b;
          joined = refl;
          each = fields-AllWords b;
        })
]

pub trim_right-NoSpace : (w : Text) → NoSpace w → trim_right w ≡ w
unfolding trim_right
trim_right-NoSpace [] h = refl
trim_right-NoSpace (r ∷ rs) (hr, h) = ground (arith, trim_right-NoSpace rs h)

is_empty-append : (xs ys : Text) → is_empty ys ≡ false → is_empty (xs ++ ys) ≡ false
is_empty-append [] ys h = h
is_empty-append (x ∷ xs) ys h = refl

trim_right-append :
    (xs ys : Text) → is_empty ys ≡ false → trim_right ys ≡ ys → trim_right (xs ++ ys) ≡ xs ++ ys
unfolding trim_right
trim_right-append [] ys h e = e
trim_right-append (x ∷ xs) ys h e = rw (trim_right-append xs ys h e, is_empty-append xs ys h) refl

join-is_empty : (w : Text) (ws : List Text) → IsWord w → is_empty (join (w ∷ ws) (32 ∷ [])) ≡ false
unfolding join
join-is_empty w [] k = k.some_rune
join-is_empty [] (v ∷ ws) k = cc
join-is_empty (r ∷ w) (v ∷ ws) k = refl

trim_right-join :
    (ws : List Text) → All IsWord ws → trim_right (join ws (32 ∷ [])) ≡ join ws (32 ∷ [])
unfolding join
trim_right-join [] h = unfold trim_right in refl
trim_right-join (w ∷ []) (hw, h) = trim_right-NoSpace w hw.no_space
trim_right-join (w ∷ v ∷ ws) (hw, (hv, h)) =
    let rest = join (v ∷ ws) (32 ∷ []) in
    trim_right-append w (32 ∷ rest) refl
      (trim_right-append (32 ∷ []) rest (join-is_empty v ws hv) (trim_right-join (v ∷ ws) (hv, h)))

trim_left-join :
    (ws : List Text) → All IsWord ws → trim_left (join ws (32 ∷ [])) ≡ join ws (32 ∷ [])
unfolding join trim_left
trim_left-join [] h = refl
trim_left-join ([] ∷ ws) (hw, h) = cc (hw.some_rune)
trim_left-join ((r ∷ w) ∷ []) (hw, h) = rw (hw.no_space.0) refl
trim_left-join ((r ∷ w) ∷ v ∷ ws) (hw, h) = rw (hw.no_space.0) refl

trim_space-join :
    (ws : List Text) → All IsWord ws → trim_space (join ws (32 ∷ [])) ≡ join ws (32 ∷ [])
unfolding trim_space
trim_space-join ws h = ap trim_right (trim_left-join ws h) ∙ trim_right-join ws h

clean_name-kept :
    (raw : Text) {b : Text}
    → name_loop (trim_space raw) [] ≡ some b
    → clean_name raw ≡ join (fields b) (32 ∷ [])
unfolding clean_name
clean_name-kept raw e = rw (clean_name, e) refl

-- Cleaning a name again changes nothing.
pub clean_name-clean_name : (raw : Text) → clean_name (clean_name raw) ≡ clean_name raw
clean_name-clean_name raw =
    let k = clean_name-IsName raw in
    let trimmed : trim_space (clean_name raw) ≡ clean_name raw =
      ap trim_space k.joined ∙ trim_space-join k.words k.each ∙ sym k.joined in
    let kept : name_loop (trim_space (clean_name raw)) [] ≡ some (clean_name raw) =
      ap (λ t. name_loop t []) trimmed
      ∙ name_loop-keeps (clean_name raw) [] k.runes (omega (arith, k.short)) in
    clean_name-kept (clean_name raw) kept
    ∙ ap (λ t. join t (32 ∷ [])) (ap fields k.joined ∙ fields-join k.words k.each)
    ∙ sym k.joined
