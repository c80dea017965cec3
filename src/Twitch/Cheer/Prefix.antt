-- ===== src/Twitch/Cheer/Prefix.antt =====
-- The loops of `RuneSafePrefix` end.
use rongta_f11_open.Base.{
  ℕ, zero, suc, ◌≤◌, ◌≡◌, refl, sym, ap, ◌∙◌, inl, inr, Bool, true, false, [], ◌∷◌, ltb, length,
  take, Bytes, ok, arith, Bool-cases,
}
use rongta_f11_open.Twitch.Cheer.{drop_invalid, prefix_loop, rune_safe_prefix}

take-take : (m n : ℕ) (s : Bytes) → m ≤ n → take m (take n s) ≡ take m s
take-take zero n s h = refl
take-take (suc m) zero s h = absurd (omega arith)
take-take (suc m) (suc n) [] h = refl
take-take (suc m) (suc n) (b ∷ s) h = ap (λ t. b ∷ t) (take-take m n s (omega arith))

take_whole : (s : Bytes) → take (length s) s ≡ s
take_whole [] = refl
take_whole (b ∷ s) = ap (λ t. b ∷ t) (take_whole s)

-- What a loop returns: a part of `s` from its start on, that is valid and not longer than `n`.
pub record IsPrefix (valid_utf8 : Bytes → Bool) (s : Bytes) (n : ℕ) (t : Bytes) : Type 0 where
  pub is_part : t ≡ take (length t) s
  pub part_length : length t ≤ length s
  pub not_longer : length t ≤ n
  pub is_valid : valid_utf8 t ≡ true

length-take_le : (m : ℕ) (s : Bytes) → m ≤ length s → length (take m s) ≡ m
length-take_le zero s h = refl
length-take_le (suc m) [] h = absurd (omega arith)
length-take_le (suc m) (b ∷ s) h = ap suc (length-take_le m s (omega arith))

part-part :
    (t s v : Bytes) (n : ℕ)
    → s ≡ take n v
    → t ≡ take (length t) s
    → length t ≤ n
    → t ≡ take (length t) v
part-part t s v n es et h = et ∙ ap (take (length t)) es ∙ take-take (length t) n v h

module _ (valid_utf8 : Bytes → Bool) (empty_valid : valid_utf8 [] ≡ true) where
  drop_invalid-IsPrefix :
      (fuel : ℕ) (s : Bytes)
      → length s ≤ fuel
      → (t : Bytes) × (drop_invalid valid_utf8 fuel s ≡ ok t) × IsPrefix valid_utf8 s (length s) t
  unfolding drop_invalid
  drop_invalid-IsPrefix zero [] h = rw empty_valid (
    [],
    refl,
    record {
      is_part = refl;
      part_length = omega arith;
      not_longer = omega arith;
      is_valid = empty_valid;
    },
  )
  drop_invalid-IsPrefix zero (b ∷ s) h = absurd (omega arith)
  drop_invalid-IsPrefix (suc fuel) [] h = rw empty_valid (
    [],
    refl,
    record {
      is_part = refl;
      part_length = omega arith;
      not_longer = omega arith;
      is_valid = empty_valid;
    },
  )
  drop_invalid-IsPrefix (suc fuel) (b ∷ s) h = elim (Bool-cases (valid_utf8 (b ∷ s))) [
    | inl good ↦ rw good (
      b ∷ s,
      refl,
      record {
        is_part = sym (take_whole (b ∷ s));
        part_length = omega arith;
        not_longer = omega arith;
        is_valid = good;
      },
    )
    | inr bad ↦
        let v : Bytes = take (length s) (b ∷ s) in
        let len : length v ≡ length s = length-take_le (length s) (b ∷ s) (omega arith) in
        let (t, made, k) = drop_invalid-IsPrefix fuel v (omega arith) in
        rw (bad, made)
          (
            t,
            refl,
            record {
              is_part =
                  part-part t v (b ∷ s) (length s) refl k.is_part (omega (arith, k.not_longer));
              part_length = omega (arith, k.part_length);
              not_longer = omega (arith, k.not_longer);
              is_valid = k.is_valid;
            },
          )
  ]

  prefix_loop-IsPrefix :
      (fuel : ℕ) (s : Bytes) (n : ℕ)
      → length s ≤ fuel
      → valid_utf8 s ≡ true
      → (t : Bytes) × (prefix_loop valid_utf8 fuel s n ≡ ok t) × IsPrefix valid_utf8 s n t
  unfolding prefix_loop
  prefix_loop-IsPrefix zero [] n h good =
      let short : ltb n 0 ≡ false = ground arith in
      rw short (
        [],
        refl,
        record {
          is_part = refl;
          part_length = omega arith;
          not_longer = omega arith;
          is_valid = good;
        },
      )
  prefix_loop-IsPrefix zero (b ∷ s) n h good = absurd (omega arith)
  prefix_loop-IsPrefix (suc fuel) [] n h good =
      let short : ltb n 0 ≡ false = ground arith in
      rw short (
        [],
        refl,
        record {
          is_part = refl;
          part_length = omega arith;
          not_longer = omega arith;
          is_valid = good;
        },
      )
  prefix_loop-IsPrefix (suc fuel) (b ∷ s) n h good = elim (Bool-cases (ltb n (suc (length s)))) [
    | inr short ↦ rw short (
      b ∷ s,
      refl,
      record {
        is_part = sym (take_whole (b ∷ s));
        part_length = omega arith;
        not_longer = ground arith;
        is_valid = good;
      },
    )
    | inl long ↦
        let v : Bytes = take (length s) (b ∷ s) in
        let len : length v ≡ length s = length-take_le (length s) (b ∷ s) (omega arith) in
        let (x, made, k) = drop_invalid-IsPrefix (length v) v (omega arith) in
        let (t, made', k') =
          prefix_loop-IsPrefix fuel x n (omega (arith, k.not_longer)) k.is_valid in
        let part : x ≡ take (length x) (b ∷ s) =
          part-part x v (b ∷ s) (length s) refl k.is_part (omega (arith, k.not_longer)) in
        rw (long, made, made')
          (
            t,
            refl,
            record {
              is_part = part-part t x (b ∷ s) (length x) part k'.is_part k'.part_length;
              part_length = omega (arith, k'.part_length, k.not_longer);
              not_longer = k'.not_longer;
              is_valid = k'.is_valid;
            },
          )
  ]

-- On a valid string `RuneSafePrefix` returns, without a panic, a part of the string from its start on
-- that is valid and at most `n` bytes long, if the empty string is valid.
pub rune_safe_prefix-IsPrefix :
    (valid_utf8 : Bytes → Bool) (s : Bytes) (n : ℕ)
    → valid_utf8 [] ≡ true
    → valid_utf8 s ≡ true
    → (t : Bytes) × (rune_safe_prefix valid_utf8 s n ≡ ok t) × IsPrefix valid_utf8 s n t
unfolding rune_safe_prefix
rune_safe_prefix-IsPrefix valid_utf8 s n h good =
    prefix_loop-IsPrefix valid_utf8 h (length s) s n (omega arith) good
