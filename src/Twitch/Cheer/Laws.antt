-- ===== src/Twitch/Cheer/Laws.antt =====
-- Bounds on the texts that are printed for a cheer.
use rongta_f11_open.Base.{
  ℕ, ◌+◌, ◌≤◌, ◌≡◌, refl, sym, ap, ◌∙◌, inl, inr, false, not, ◌||◌, List, [], ◌∷◌, ◌++◌, ltb, ◌==◌,
  if◌then◌else◌, length, length-append, All, All-append, arith, Bool-cases,
}
use rongta_f11_open.Text.{Text, codes, is_empty, byte_length, fields, join}
use rongta_f11_open.Text.Fields.{NoSpace, IsWord, byte_length-append, fields-AllWords, fields-join}
use rongta_f11_open.Twitch.Cheer.{
  Unicode, Cheer, clean_runes, clean_word, bounded_loop, bounded_text, max_words, max_text_bytes,
  thanked_name, prepare_cheer,
}

NoSpace-append : (xs ys : Text) → NoSpace xs → NoSpace ys → NoSpace (xs ++ ys)
NoSpace-append [] ys h k = k
NoSpace-append (x ∷ xs) ys (hx, h) k = (hx, NoSpace-append xs ys h k)

join-NoSpace : (words : List Text) → All IsWord words → NoSpace (join words [])
unfolding join
join-NoSpace [] h = tt
join-NoSpace (w ∷ []) (hw, h) = hw.no_space
join-NoSpace (w ∷ v ∷ words) (hw, h) =
    NoSpace-append w (join (v ∷ words) []) hw.no_space (join-NoSpace (v ∷ words) h)

-- Joining one word more adds its bytes and those of the separator, if it is not the first.
join-snoc :
    (words : List Text) (w : Text)
    → byte_length (join (words ++ (w ∷ [])) (32 ∷ []))
      ≡ byte_length (join words (32 ∷ []))
        + (if ltb 0 (length words) then byte_length w + 1 else byte_length w)
unfolding join
join-snoc [] w = omega arith
join-snoc (v ∷ []) w = ground (arith, byte_length-append v (32 ∷ w))
join-snoc (v ∷ x ∷ words) w = ground (
  arith,
  byte_length-append v (32 ∷ join (x ∷ words) (32 ∷ [])),
  byte_length-append v (32 ∷ join (x ∷ (words ++ (w ∷ []))) (32 ∷ [])),
  join-snoc (x ∷ words) w,
)

-- The words of a text that fits a banner: none empty, none with a space.
pub record IsBanner (words : List Text) : Type 0 where
  pub word_count : length words ≤ 16
  pub byte_count : byte_length (join words (32 ∷ [])) ≤ 256
  pub each : All IsWord words

module _ (u : Unicode) where
  clean_word-NoSpace : (w : Text) → NoSpace (clean_word u w)
  unfolding clean_word
  clean_word-NoSpace w = join-NoSpace (fields (clean_runes u w)) (fields-AllWords (clean_runes u w))

  bounded_loop-IsBanner :
      (ws out : List Text) (bytes : ℕ)
      → IsBanner out
      → bytes ≡ byte_length (join out (32 ∷ []))
      → IsBanner (bounded_loop u ws out bytes)
  unfolding bounded_loop
  bounded_loop-IsBanner [] out bytes k e = k
  bounded_loop-IsBanner (w ∷ ws) out bytes k e =
      let word : Text = clean_word u w in
      let need : ℕ = if ltb 0 (length out) then byte_length word + 1 else byte_length word in
      elim (Bool-cases (is_empty word)) [
        | inl none_left ↦ rw none_left (bounded_loop-IsBanner ws out bytes k e)
        | inr some_left ↦
            elim (Bool-cases (length out == max_words || ltb max_text_bytes (bytes + need))) [
              | inl full ↦ rw (some_left, full) k
              | inr room ↦
                  let longer : byte_length (join (out ++ (word ∷ [])) (32 ∷ [])) ≡ bytes + need =
                    join-snoc out word ∙ ap (λ n. n + need) (sym e) in
                  let next : IsBanner (out ++ (word ∷ [])) = record {
                    word_count = ground (arith, length-append out (word ∷ []), k.word_count);
                    byte_count = ground (arith, longer);
                    each =
                        All-append IsWord out (word ∷ []) k.each
                          (record { some_rune = some_left; no_space = clean_word-NoSpace w }, tt);
                  } in
                  rw (some_left, room)
                    (bounded_loop-IsBanner ws (out ++ (word ∷ [])) (bytes + need) next (sym longer))
            ]
      ]

  -- Whatever the text, `boundedText` returns at most 16 words of at most 256 bytes in all with the
  -- spaces between them; strings.Fields finds the same words in it, each without a space.
  pub bounded_text-IsBanner :
      (raw : Text)
      → (words : List Text) × (bounded_text u raw ≡ join words (32 ∷ []))
        × IsBanner words
        × (fields (bounded_text u raw) ≡ words)
  unfolding bounded_text
  bounded_text-IsBanner raw =
      let words : List Text = bounded_loop u (fields raw) [] 0 in
      let k =
        bounded_loop-IsBanner (fields raw) [] 0
          (record { word_count = omega arith; byte_count = unfold join in omega arith; each = tt })
          (unfold join in refl) in
      (words, refl, k, fields-join words k.each)

  thanks-some : (name : Text) → is_empty (codes "THANK YOU " ++ name) ≡ false
  thanks-some name = refl

  -- `PrepareCheer` accepts a cheer if and only if it has at least 1000 bits, and its text is empty if
  -- and only if it does not.
  pub prepare_cheer_lem :
      (c : Cheer)
      → ((prepare_cheer u c).qualifies ≡ not (ltb c.bits 1000))
        × (is_empty (prepare_cheer u c).text ≡ not (prepare_cheer u c).qualifies)
  unfolding prepare_cheer
  prepare_cheer_lem c = elim (Bool-cases (ltb c.bits 1000)) [
    | inl few ↦ rw few (refl, refl)
    | inr enough ↦ elim (Bool-cases (is_empty (bounded_text u c.message))) [
      | inl none_left ↦ rw (enough, none_left) (refl, thanks-some (thanked_name u c))
      | inr some_left ↦ rw (enough, some_left) (refl, some_left)
    ]
  ]
