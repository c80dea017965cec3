-- ===== src/Protocol/Rebuild/Words.antt =====
-- The words that `SerializedTraversals` writes, as `treeFrom` reads and compares them.
use rongta_f11_open.Base.{
  ℕ, ◌+◌, ◌*◌, ◌/◌, ◌≤◌, ◌<◌, ◌≡◌, refl, sym, ap, true, false, List, [], ◌∷◌, ◌++◌, length,
  length-append, get_or, get_or-append, append_assoc, Bytes, byte, put_uint16, ok, arith, ==_refl,
}
use rongta_f11_open.Base.Reads.{reads-eq}
use rongta_f11_open.Protocol.Huffman.{put_words}
use rongta_f11_open.Protocol.Rebuild.{words_from, contains, has_repeats, all_in}
use rongta_f11_open.Protocol.Rebuild.Symbols.{once, times}

pub length-put_words : (xs : List ℕ) → length (put_words xs) ≡ 2 * length xs
unfolding put_words
length-put_words [] = refl
length-put_words (x ∷ xs) = omega (arith, length-put_words xs)

pub put_words-append : (xs ys : List ℕ) → put_words (xs ++ ys) ≡ put_words xs ++ put_words ys
unfolding put_words
put_words-append [] ys = refl
put_words-append (x ∷ xs) ys = ap (λ u. put_uint16 x ++ u) (put_words-append xs ys)

once_same : (x : ℕ) → once x x ≡ 1
once_same x = rw (==_refl x) refl

-- Words of 16 bits are read as they were written.
pub words_from-put_words :
    (front : Bytes) (xs : List ℕ) (back : Bytes) (i : ℕ)
    → i ≡ length front
    → ((x : ℕ) → 65536 ≤ x → times x xs ≡ 0)
    → words_from (length xs) i (front ++ (put_words xs ++ back)) ≡ ok xs
unfolding words_from put_words
words_from-put_words front [] back i e h = refl
words_from-put_words front (x ∷ xs) back i e h =
    let small : x < 65536 = ground (arith, h x, once_same x) in
    let rest : Bytes = put_words xs ++ back in
    let low : get_or (front ++ (byte x ∷ byte (x / 256) ∷ rest)) i 0 ≡ byte x =
      get_or-append front (byte (x / 256) ∷ rest) (byte x) 0 i e in
    let split : front ++ (byte x ∷ byte (x / 256) ∷ rest)
        ≡ (front ++ (byte x ∷ [])) ++ (byte (x / 256) ∷ rest) =
      sym (append_assoc front (byte x ∷ []) (byte (x / 256) ∷ rest)) in
    let high : get_or (front ++ (byte x ∷ byte (x / 256) ∷ rest)) (i + 1) 0 ≡ byte (x / 256) =
      rw split (
        get_or-append (front ++ (byte x ∷ [])) rest (byte (x / 256)) 0 (i + 1)
          (omega (arith, length-append front (byte x ∷ [])))) in
    let value : byte x + 256 * byte (x / 256) ≡ x = omega arith in
    let later : words_from (length xs) (i + 2) (front ++ (byte x ∷ byte (x / 256) ∷ rest)) ≡ ok xs =
      rw (sym (append_assoc front (put_uint16 x) rest)) (
        words_from-put_words (front ++ put_uint16 x) xs back (i + 2)
          (omega (arith, length-append front (put_uint16 x))) (λ y big. omega (arith, h y big))) in
    let there : i + 2 ≤ length (front ++ (byte x ∷ byte (x / 256) ∷ rest)) =
      omega (arith, length-append front (byte x ∷ byte (x / 256) ∷ rest)) in
    rw (reads-eq (i + 2) _ there, low, high, later) (ap (λ v. ok (v ∷ xs)) value)

contains_absent : (x : ℕ) (xs : List ℕ) → times x xs ≡ 0 → contains x xs ≡ false
unfolding contains
contains_absent x [] h = refl
contains_absent x (y ∷ xs) h = ground (arith, contains_absent x xs)

contains_present : (x : ℕ) (xs : List ℕ) → 0 < times x xs → contains x xs ≡ true
unfolding contains
contains_present x [] h = absurd (omega arith)
contains_present x (y ∷ xs) h = ground (arith, contains_present x xs)

pub has_repeats_once :
    (seen xs : List ℕ) → ((x : ℕ) → times x seen + times x xs ≤ 1) → has_repeats seen xs ≡ false
unfolding has_repeats
has_repeats_once seen [] h = refl
has_repeats_once seen (x ∷ xs) h =
    rw (contains_absent x seen (omega (arith, h x, once_same x)))
      (has_repeats_once (x ∷ seen) xs (λ y. omega (arith, h y)))

pub all_in-times : (xs ys : List ℕ) → ((x : ℕ) → times x xs ≤ times x ys) → all_in xs ys ≡ true
unfolding all_in
all_in-times [] ys h = refl
all_in-times (x ∷ xs) ys h =
    rw (contains_present x ys (omega (arith, h x, once_same x)))
      (all_in-times xs ys (λ y. omega (arith, h y)))
