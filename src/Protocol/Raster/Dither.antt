-- ===== src/Protocol/Raster/Dither.antt =====
-- The loop that packs the dots of a row into bytes.
use rongta_f11_open.Base.{
  ℕ, zero, suc, ◌+◌, ◌*◌, ◌/◌, ◌%◌, ◌^◌, ◌<◌, ◌≡◌, refl, sym, ap, ◌∙◌, inl, inr, Bool, List, [],
  ◌∷◌, ◌++◌, append_assoc, append-nil, arith, if◌then◌else◌, length, length-append, get_or-append,
  set-append, replicate, Bytes, IsByte, AllBytes, All-append, Bool-cases,
}
use rongta_f11_open.Protocol.Raster.{dither_loop}
use rongta_f11_open.Protocol.Huffman.{Bits}
use rongta_f11_open.Protocol.Huffman.Pack.{bits_of, byte_bits, byte_bits_eight, bits_of-append}

-- The dot at column `x`, and the dots of `n` columns from `x` on.
abbrev pub dot : (ℕ → Bool) → ℕ → ℕ
dot dark x = if dark x then 1 else 0

unfoldable pub dots : ℕ → ℕ → (ℕ → Bool) → List ℕ
dots zero x dark = []
dots (suc n) x dark = dot dark x ∷ dots n (x + 1) dark

bits_of_one : (b : ℕ) → bits_of (b ∷ []) ≡ byte_bits 8 b
unfolding bits_of
bits_of_one b = append-nil (byte_bits 8 b)

nil_front : (bits : Bits) → bits_of [] ++ bits ≡ bits
unfolding bits_of
nil_front bits = refl

module _ (dark : ℕ → Bool) where
  -- One round of the loop, in the byte at hand, where the column's dot weighs `w`.
  dot_step :
      (n x w v : ℕ) (front back : Bytes)
      → x / 8 ≡ length front
      → 128 / 2 ^ (x % 8) ≡ w
      → dither_loop (suc n) x dark (front ++ (v ∷ back))
        ≡ dither_loop n (x + 1) dark (front ++ ((v + w * dot dark x) ∷ back))
  unfolding dither_loop
  dot_step n x w v front back at weight = elim (Bool-cases (dark x)) [
    | inl black ↦
        let one : v + w ≡ v + w * 1 = omega arith in
        rw (
          black,
          get_or-append front back v 0 (x / 8) at,
          set-append front back v (v + 128 / 2 ^ (x % 8)) (x / 8) at,
          weight,
          one,
        )
    | inr white ↦ let none : v + w * 0 ≡ v = omega arith in rw (white, none)
  ]

  byte_at : ℕ → ℕ
  byte_at x =
      0
      + 128 * dot dark x
      + 64 * dot dark (x + 1)
      + 32 * dot dark (x + 1 + 1)
      + 16 * dot dark (x + 1 + 1 + 1)
      + 8 * dot dark (x + 1 + 1 + 1 + 1)
      + 4 * dot dark (x + 1 + 1 + 1 + 1 + 1)
      + 2 * dot dark (x + 1 + 1 + 1 + 1 + 1 + 1)
      + 1 * dot dark (x + 1 + 1 + 1 + 1 + 1 + 1 + 1)

  weight_at : (x k j : ℕ) → x ≡ 8 * k + j → j < 8 → (x / 8 ≡ k) × (x % 8 ≡ j)
  weight_at x k j e h = (omega arith, omega arith)

  dot_step_at :
      (n x j v : ℕ) (front back : Bytes)
      → x ≡ 8 * length front + j
      → j < 8
      → dither_loop (suc n) x dark (front ++ (v ∷ back))
        ≡ dither_loop n (x + 1) dark (front ++ ((v + 128 / 2 ^ j * dot dark x) ∷ back))
  dot_step_at n x j v front back e h =
      let (at, low) = weight_at x (length front) j e h in
      dot_step n x (128 / 2 ^ j) v front back at (ap (λ m. 128 / 2 ^ m) low)

  -- Eight rounds finish one byte.
  dot_byte :
      (n x : ℕ) (front back : Bytes)
      → x ≡ 8 * length front
      → dither_loop (suc (suc (suc (suc (suc (suc (suc (suc n)))))))) x dark (front ++ (0 ∷ back))
        ≡ dither_loop n (x + 8) dark (front ++ (byte_at x ∷ back))
  unfolding byte_at
  dot_byte n x front back e =
      let x8 : x + 1 + 1 + 1 + 1 + 1 + 1 + 1 + 1 ≡ x + 8 = omega arith in
      dot_step_at (suc (suc (suc (suc (suc (suc (suc n))))))) x 0 0 front back (omega arith)
        (omega arith)
      ∙ dot_step_at (suc (suc (suc (suc (suc (suc n)))))) (x + 1) 1 _ front back (omega arith)
          (omega arith)
      ∙ dot_step_at (suc (suc (suc (suc (suc n))))) (x + 1 + 1) 2 _ front back (omega arith)
          (omega arith)
      ∙ dot_step_at (suc (suc (suc (suc n)))) (x + 1 + 1 + 1) 3 _ front back (omega arith)
          (omega arith)
      ∙ dot_step_at (suc (suc (suc n))) (x + 1 + 1 + 1 + 1) 4 _ front back (omega arith)
          (omega arith)
      ∙ dot_step_at (suc (suc n)) (x + 1 + 1 + 1 + 1 + 1) 5 _ front back (omega arith) (omega arith)
      ∙ dot_step_at (suc n) (x + 1 + 1 + 1 + 1 + 1 + 1) 6 _ front back (omega arith) (omega arith)
      ∙ dot_step_at n (x + 1 + 1 + 1 + 1 + 1 + 1 + 1) 7 _ front back (omega arith) (omega arith)
      ∙ ap (λ m. dither_loop n m dark (front ++ (byte_at x ∷ back))) x8

  dot-bit : (x : ℕ) → dot dark x < 2
  dot-bit x = ground arith

  dots_eight :
      (n x : ℕ)
      → dots (suc (suc (suc (suc (suc (suc (suc (suc n)))))))) x dark
        ≡ byte_bits 8 (byte_at x) ++ dots n (x + 8) dark
  unfolding dots byte_at
  dots_eight n x =
      let x8 : x + 1 + 1 + 1 + 1 + 1 + 1 + 1 + 1 ≡ x + 8 = omega arith in
      let d : ℕ → ℕ = dot dark in
      let bits =
        byte_bits_eight (d x) (d (x + 1)) (d (x + 1 + 1)) (d (x + 1 + 1 + 1))
          (d (x + 1 + 1 + 1 + 1)) (d (x + 1 + 1 + 1 + 1 + 1)) (d (x + 1 + 1 + 1 + 1 + 1 + 1))
          (d (x + 1 + 1 + 1 + 1 + 1 + 1 + 1))
          (
            dot-bit x,
            (
              dot-bit (x + 1),
              (
                dot-bit (x + 1 + 1),
                (
                  dot-bit (x + 1 + 1 + 1),
                  (
                    dot-bit (x + 1 + 1 + 1 + 1),
                    (
                      dot-bit (x + 1 + 1 + 1 + 1 + 1),
                      (
                        dot-bit (x + 1 + 1 + 1 + 1 + 1 + 1),
                        (dot-bit (x + 1 + 1 + 1 + 1 + 1 + 1 + 1), tt),
                      ),
                    ),
                  ),
                ),
              ),
            ),
          ) in
      rw x8 (sym (ap (λ t. t ++ dots n (x + 8) dark) (ap (byte_bits 8) (omega arith) ∙ bits)))

  byte_at-IsByte : (x : ℕ) → IsByte (byte_at x)
  unfolding byte_at
  byte_at-IsByte x = omega (
    arith,
    dot-bit x,
    dot-bit (x + 1),
    dot-bit (x + 1 + 1),
    dot-bit (x + 1 + 1 + 1),
    dot-bit (x + 1 + 1 + 1 + 1),
    dot-bit (x + 1 + 1 + 1 + 1 + 1),
    dot-bit (x + 1 + 1 + 1 + 1 + 1 + 1),
    dot-bit (x + 1 + 1 + 1 + 1 + 1 + 1 + 1),
  )

  dither_loop-AllBytes :
      (n x : ℕ) (front : Bytes)
      → x ≡ 8 * length front
      → AllBytes front
      → AllBytes (dither_loop (8 * n) x dark (front ++ replicate n 0))
  dither_loop-AllBytes zero x front e h = unfold dither_loop in (rw (append-nil front) h)
  dither_loop-AllBytes (suc n) x front e h =
      let eight : 8 * suc n ≡ suc (suc (suc (suc (suc (suc (suc (suc (8 * n)))))))) = omega arith in
      let last : Bytes = byte_at x ∷ [] in
      rw
        (
          eight,
          dot_byte (8 * n) x front (replicate n 0) e,
          sym (append_assoc front last (replicate n 0)),
        )
        (dither_loop-AllBytes n (x + 8) (front ++ last) (omega (arith, length-append front last))
          (All-append IsByte front last h (byte_at-IsByte x, tt)))

  dither_loop-dots :
      (n x : ℕ) (front : Bytes)
      → x ≡ 8 * length front
      → (bits_of (dither_loop (8 * n) x dark (front ++ replicate n 0))
          ≡ bits_of front ++ dots (8 * n) x dark)
        × (length (dither_loop (8 * n) x dark (front ++ replicate n 0)) ≡ length front + n)
  dither_loop-dots zero x front e =
      let flat : front ++ [] ≡ front = append-nil front in
      unfold dither_loop dots in (rw flat (sym (append-nil (bits_of front)), omega arith))
  dither_loop-dots (suc n) x front e =
      let eight : 8 * suc n ≡ suc (suc (suc (suc (suc (suc (suc (suc (8 * n)))))))) = omega arith in
      let last : Bytes = byte_at x ∷ [] in
      let len : length (front ++ last) ≡ length front + 1 =
        omega (arith, length-append front last) in
      let (ih, ih_len) = dither_loop-dots n (x + 8) (front ++ last) (omega arith) in
      rw (eight, dot_byte (8 * n) x front (replicate n 0) e)
        (
          ap (λ t. bits_of (dither_loop (8 * n) (x + 8) dark t))
                (sym (append_assoc front last (replicate n 0)))
              ∙ ih
              ∙ rw
                  (
                    bits_of-append front last,
                    append_assoc (bits_of front) (bits_of last) (dots (8 * n) (x + 8) dark),
                    bits_of_one (byte_at x),
                  )
                  (ap (λ t. bits_of front ++ t) (sym (dots_eight (8 * n) x))),
          ap (λ t. length (dither_loop (8 * n) (x + 8) dark t))
                (sym (append_assoc front last (replicate n 0)))
              ∙ ih_len
              ∙ omega arith,
        )

-- A row as the loop makes it: bytes, whose bits are the dots.
pub record IsDithered (n : ℕ) (dark : ℕ → Bool) (row : Bytes) : Type 0 where
  pub size : length row ≡ n
  pub row_bytes : AllBytes row
  pub row_bits : bits_of row ≡ dots (8 * n) 0 dark

pub dither_loop-IsDithered :
    (n : ℕ) (dark : ℕ → Bool) → IsDithered n dark (dither_loop (8 * n) 0 dark (replicate n 0))
dither_loop-IsDithered n dark =
    let (bits, len) = dither_loop-dots dark n 0 [] (omega arith) in
    record {
      size = len ∙ omega arith;
      row_bytes = dither_loop-AllBytes dark n 0 [] (omega arith) tt;
      row_bits = bits ∙ nil_front (dots (8 * n) 0 dark);
    }
