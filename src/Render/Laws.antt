-- ===== src/Render/Laws.antt =====
-- What a page that is read is.
use Prim.Native.String.{String}
use native.Mathlib.Nat.{mul-le-mul_left, mul-le-mul_right}
use rongta_f11_open.Base.{
  ℕ, ◌*◌, ◌^◌, ◌≤◌, ◌<◌, ◌≡◌, refl, sym, ap, subst, ◌∙◌, inl, inr, Bool, true, false, not, [], ◌∷◌,
  ◌++◌, ltb, leb, ◌==◌, length, take, drop, Bytes, bytes_equal, Result, ok, err, panic, stuck,
  masked, >>=-eq-ok, fail_if, arith, Bool-cases, append_assoc, append-nil, take-append-drop,
  length-take,
}
use rongta_f11_open.Text.{codes, is_empty}
use rongta_f11_open.Render.{
  Image, is_blank, word_loop, token_loop, token, Limits, out_of_limits, pixel_count, read_pixels,
  parse_pgm_range,
}

-- Bytes that end with others.
abbrev EndsWith : Bytes → Bytes → Type 0
EndsWith raw rest = (head : Bytes) × (raw ≡ head ++ rest)

EndsWith-∷ : (b : ℕ) (raw rest : Bytes) → EndsWith raw rest → EndsWith (b ∷ raw) rest
EndsWith-∷ b raw rest (head, e) = (b ∷ head, ap (λ x. b ∷ x) e)

EndsWith-trans : (x y z : Bytes) → EndsWith x y → EndsWith y z → EndsWith x z
EndsWith-trans x y z (h, e) (k, f) = (h ++ k, e ∙ ap (λ r. h ++ r) f ∙ sym (append_assoc h k z))

is_empty-eq-true : (x : Bytes) → is_empty x ≡ true → x ≡ []
is_empty-eq-true [] e = refl
is_empty-eq-true (b ∷ x) e = cc

word_loop-EndsWith : (x raw w rest : Bytes) → word_loop x raw ≡ ok (w, rest) → EndsWith raw rest
unfolding word_loop
word_loop-EndsWith x [] w rest e = ([], cc)
word_loop-EndsWith x (b ∷ bs) w rest e = elim (Bool-cases (is_blank b)) [
  | inl blank ↦
      let same : bs ≡ rest = (let e' = rw blank at e in cc) in (b ∷ [], ap (λ r. b ∷ r) same)
  | inr more ↦ elim (Bool-cases (ltb 32 (length (x ++ (b ∷ []))))) [
    | inl long ↦ absurd (let e' = rw (more, long) at e in ground arith)
    | inr short ↦
        EndsWith-∷ b bs rest (word_loop-EndsWith (x ++ (b ∷ [])) bs w rest (rw (more, short) at e))
  ]
]

token_loop-EndsWith :
    (comment : Bool) (raw w rest : Bytes)
    → token_loop comment raw ≡ ok (w, rest)
    → EndsWith raw rest
unfolding token_loop
token_loop-EndsWith comment [] w rest e = absurd (cc)
token_loop-EndsWith true (b ∷ bs) w rest e = elim (Bool-cases (b == 10)) [
  | inl ended ↦ EndsWith-∷ b bs rest (token_loop-EndsWith false bs w rest (rw ended at e))
  | inr going ↦ EndsWith-∷ b bs rest (token_loop-EndsWith true bs w rest (rw going at e))
]
token_loop-EndsWith false (b ∷ bs) w rest e = elim (Bool-cases (b == 35)) [
  | inl hash ↦ EndsWith-∷ b bs rest (token_loop-EndsWith true bs w rest (rw hash at e))
  | inr other ↦ elim (Bool-cases (is_blank b)) [
    | inl blank ↦
        EndsWith-∷ b bs rest (token_loop-EndsWith false bs w rest (rw (other, blank) at e))
    | inr solid ↦
        EndsWith-∷ b bs rest (word_loop-EndsWith (b ∷ []) bs w rest (rw (other, solid) at e))
  ]
]

token-EndsWith : (raw w rest : Bytes) → token raw ≡ ok (w, rest) → EndsWith raw rest
unfolding token
token-EndsWith raw w rest e = token_loop-EndsWith false raw w rest e

masked-eq-ok :
    (message : String) (r : Result (Bytes × Bytes)) {v : Bytes × Bytes}
    → masked message r ≡ ok v
    → r ≡ ok v
masked-eq-ok message (ok x) e = e
masked-eq-ok message (err why) e = absurd (cc)
masked-eq-ok message panic e = absurd (cc)
masked-eq-ok message stuck e = absurd (cc)

-- An image within the limits, whose pixels are the last bytes.
pub record IsImage (raw : Bytes) (l : Limits) (i : Image) : Type 0 where
  pub wide : (0 < i.width) × (l.min_width ≤ i.width) × (i.width ≤ l.max_width)
  pub high : (0 < i.height) × (l.min_height ≤ i.height) × (i.height ≤ l.max_height)
  pub size : length i.gray ≡ i.width * i.height
  pub header : Bytes
  pub whole : raw ≡ header ++ i.gray

pixel_count-eq : (w h : ℕ) → w * h < 2 ^ 63 → pixel_count w h ≡ w * h
unfolding pixel_count
pixel_count-eq w h small = omega (arith, small)

read_pixels-eq-ok :
    (w h : ℕ) (raw : Bytes) (i : Image)
    → w * h < 2 ^ 63
    → read_pixels w h raw ≡ ok i
    → (i.width ≡ w) × (i.height ≡ h) × (i.gray ≡ raw) × (length raw ≡ w * h)
unfolding read_pixels
read_pixels-eq-ok w h raw i small e =
    let positive : leb (2 ^ 63) (w * h) ≡ false = ground (arith, small) in
    let e0 = rw (pixel_count-eq w h small, positive) at e in
    let (_, enough, e1) = >>=-eq-ok (fail_if (ltb (length raw) (w * h)) "PGM raster size") _ e0 in
    let (_, ended, e2) =
      >>=-eq-ok (fail_if (not (is_empty (drop (w * h) raw))) "trailing PGM data") _ e1 in
    let made : record { width = w; height = h; gray = take (w * h) raw } ≡ i = cc in
    let nothing : drop (w * h) raw ≡ [] = is_empty-eq-true (drop (w * h) raw) (ground arith) in
    let all : take (w * h) raw ≡ raw =
      sym (append-nil _)
      ∙ ap (λ r. take (w * h) raw ++ r) (sym nothing)
      ∙ take-append-drop (w * h) raw in
    let fits : w * h ≤ length raw = ground arith in
    let size : length raw ≡ w * h =
      ap length (sym all) ∙ length-take (w * h) raw ∙ omega (arith, fits) in
    (
      ap (λ x. x.width) (sym made),
      ap (λ x. x.height) (sym made),
      ap (λ x. x.gray) (sym made) ∙ all,
      size,
    )

out_of_limits-eq-false :
    (l : Limits) (w h : ℕ)
    → out_of_limits l w h ≡ false
    → ((0 < w) × (l.min_width ≤ w) × (w ≤ l.max_width))
      × (0 < h)
      × (l.min_height ≤ h)
      × (h ≤ l.max_height)
unfolding out_of_limits
out_of_limits-eq-false l w h e =
    let a : l.min_width ≤ w = ground arith in
    let b : w ≤ l.max_width = ground arith in
    let c : l.min_height ≤ h = ground arith in
    let d : h ≤ l.max_height = ground arith in
    let p : 0 < l.min_width = ground arith in
    let q : 0 < l.min_height = ground arith in
    ((omega (arith, p, a), a, b), omega (arith, q, c), c, d)

fail_if-eq-ok : (b : Bool) (message : String) {u : Unit {0}} → fail_if b message ≡ ok u → b ≡ false
fail_if-eq-ok true message e = absurd (cc)
fail_if-eq-ok false message e = refl

pixels-IsImage :
    (raw rest : Bytes) (l : Limits) (w h : ℕ) (i : Image)
    → EndsWith raw rest
    → l.max_width * l.max_height < 2 ^ 63
    → out_of_limits l w h ≡ false
    → read_pixels w h rest ≡ ok i
    → IsImage raw l i
pixels-IsImage raw rest l w h i (header, whole) few within e =
    let (wide, tall, above, below) = out_of_limits-eq-false l w h within in
    let small : w * h < 2 ^ 63 =
      omega (arith, few, mul-le-mul_right h wide.2, mul-le-mul_left l.max_width below) in
    let (same_w, same_h, same_gray, size) = read_pixels-eq-ok w h rest i small e in
    record {
      wide = subst (λ n. (0 < n) × (l.min_width ≤ n) × (n ≤ l.max_width)) (sym same_w) wide;
      high =
          subst (λ n. (0 < n) × (l.min_height ≤ n) × (n ≤ l.max_height)) (sym same_h)
            (tall, above, below);
      size = ap length same_gray ∙ size ∙ sym (rw (same_w, same_h) refl);
      header = header;
      whole = whole ∙ ap (λ r. header ++ r) (sym same_gray);
    }

-- Whatever the bytes, and for limits whose largest page has less than 2 ^ 63 pixels: an image that
-- `ParsePGMRange` returns is of at least one pixel and within the limits, and it has as many pixels as these sizes need, which are the last of the bytes.
pub parse_pgm_range-IsImage :
    (atoi : Bytes → Result ℕ) (raw : Bytes) (l : Limits) (i : Image)
    → l.max_width * l.max_height < 2 ^ 63
    → parse_pgm_range atoi raw l ≡ ok i
    → IsImage raw l i
unfolding parse_pgm_range
parse_pgm_range-IsImage atoi raw l i few e =
    let ((magic, raw1), read1, e1) = >>=-eq-ok (masked "binary PGM required" (token raw)) _ e in
    let (_, _, e2) =
      >>=-eq-ok (fail_if (not (bytes_equal magic (codes "P5"))) "binary PGM required") _ e1 in
    let ((ws, raw2), read2, e3) = >>=-eq-ok (token raw1) _ e2 in
    let ((hs, raw3), read3, e4) = >>=-eq-ok (token raw2) _ e3 in
    let ((ms, raw4), read4, e5) = >>=-eq-ok (token raw3) _ e4 in
    let (w, _, e6) = >>=-eq-ok (atoi ws) _ e5 in
    let (h, _, e7) = >>=-eq-ok (atoi hs) _ e6 in
    let (max, _, e8) = >>=-eq-ok (masked "8-bit PGM required" (atoi ms)) _ e7 in
    let (_, _, e9) = >>=-eq-ok (fail_if (not (max == 255)) "8-bit PGM required") _ e8 in
    let (_, within, e10) = >>=-eq-ok (fail_if (out_of_limits l w h) "unexpected geometry") _ e9 in
    let behind1 = token-EndsWith raw magic raw1 (masked-eq-ok _ _ read1) in
    let behind2 = EndsWith-trans raw raw1 raw2 behind1 (token-EndsWith raw1 ws raw2 read2) in
    let behind3 = EndsWith-trans raw raw2 raw3 behind2 (token-EndsWith raw2 hs raw3 read3) in
    let behind4 = EndsWith-trans raw raw3 raw4 behind3 (token-EndsWith raw3 ms raw4 read4) in
    pixels-IsImage raw raw4 l w h i behind4 few (fail_if-eq-ok _ _ within) e10
