-- ===== src/Protocol/Huffman/Pack.antt =====
-- Bits packed into bytes by the loop of `Encode`, and read off them in the order of `Decode`.
use rongta_f11_open.Base.{
  ℕ, zero, suc, ◌+◌, ◌*◌, ◌/◌, ◌%◌, ◌^◌, ◌≤◌, ◌<◌, ◌≡◌, refl, sym, ap, ◌∙◌, [], ◌∷◌, ◌++◌,
  append_assoc, append-nil, arith, length, length-append, take, drop, length-take, length-drop,
  take-append-drop, All-take, All-drop, get_or-append, set-append, replicate, All, Bytes, byte,
}
use rongta_f11_open.Protocol.Huffman.{Bits, pack_loop}

abbrev pub IsBit : ℕ → Type 0
IsBit b = b < 2

abbrev pub AllBits : Bits → Type 0
AllBits = All IsBit

-- The `k` lowest bits of a byte, highest first; the bits of bytes.
unfoldable pub byte_bits : ℕ → ℕ → Bits
byte_bits zero b = []
byte_bits (suc k) b = b / 2 ^ k % 2 ∷ byte_bits k b

unfoldable pub bits_of : Bytes → Bits
bits_of [] = []
bits_of (b ∷ bs) = byte_bits 8 b ++ bits_of bs

pub bits_of-append : (xs ys : Bytes) → bits_of (xs ++ ys) ≡ bits_of xs ++ bits_of ys
unfolding bits_of
bits_of-append [] ys = refl
bits_of-append (x ∷ xs) ys =
    rw (bits_of-append xs ys, append_assoc (byte_bits 8 x) (bits_of xs) (bits_of ys))

-- What one round, and the rounds for some bits, make of a byte.
next : ℕ → ℕ → ℕ
next x b = byte (x * 2) + b

byte_of : Bits → ℕ → ℕ
byte_of [] x = x
byte_of (b ∷ bs) x = byte_of bs (next x b)

byte_of-cons : (b : ℕ) (bs : Bits) (x : ℕ) → byte_of (b ∷ bs) x ≡ byte_of bs (next x b)
unfolding byte_of
byte_of-cons b bs x = refl

-- One round of the loop changes the byte at hand alone.
pack_step :
    (b : ℕ) (bs : Bits) (i x : ℕ) (front back : Bytes)
    → i / 8 ≡ length front
    → pack_loop (b ∷ bs) i (front ++ (x ∷ back)) ≡ pack_loop bs (i + 1) (front ++ (next x b ∷ back))
unfolding pack_loop next
pack_step b bs i x front back h =
    rw
      (get_or-append front back x 0 (i / 8) h, set-append front back x (byte (x * 2) + b) (i / 8) h)

-- The rounds for the rest of a byte.
pack_chunk :
    (chunk rest : Bits) (i x : ℕ) (front back : Bytes)
    → 8 * length front ≤ i
    → i + length chunk ≤ 8 * length front + 8
    → pack_loop (chunk ++ rest) i (front ++ (x ∷ back))
      ≡ pack_loop rest (i + length chunk) (front ++ (byte_of chunk x ∷ back))
pack_chunk [] rest i x front back lo hi =
    let same : i + 0 ≡ i = omega arith in rw same (unfold byte_of in refl)
pack_chunk (b ∷ bs) rest i x front back lo hi =
    let len : i + 1 + length bs ≡ i + suc (length bs) = omega arith in
    pack_step b (bs ++ rest) i x front back (omega arith)
    ∙ pack_chunk bs rest (i + 1) (next x b) front back (omega arith) (omega arith)
    ∙ rw (len, byte_of-cons b bs x)

byte_of_eight :
    (a b c d e f g h : ℕ)
    → AllBits (a ∷ b ∷ c ∷ d ∷ e ∷ f ∷ g ∷ h ∷ [])
    → byte_of (a ∷ b ∷ c ∷ d ∷ e ∷ f ∷ g ∷ h ∷ []) 0
      ≡ 128 * a + 64 * b + 32 * c + 16 * d + 8 * e + 4 * f + 2 * g + h
unfolding byte_of next
byte_of_eight a b c d e f g h hs = omega arith

pub byte_bits_eight :
    (a b c d e f g h : ℕ)
    → AllBits (a ∷ b ∷ c ∷ d ∷ e ∷ f ∷ g ∷ h ∷ [])
    → byte_bits 8 (128 * a + 64 * b + 32 * c + 16 * d + 8 * e + 4 * f + 2 * g + h)
      ≡ a ∷ b ∷ c ∷ d ∷ e ∷ f ∷ g ∷ h ∷ []
unfolding byte_bits
byte_bits_eight a b c d e f g h hs = ground arith

bits_of-chunk :
    (chunk : Bits) → AllBits chunk → length chunk ≡ 8 → bits_of (byte_of chunk 0 ∷ []) ≡ chunk
unfolding bits_of
bits_of-chunk (a ∷ b ∷ c ∷ d ∷ e ∷ f ∷ g ∷ h ∷ []) hs len =
    append-nil _
    ∙ ap (byte_bits 8) (byte_of_eight a b c d e f g h hs)
    ∙ byte_bits_eight a b c d e f g h hs
bits_of-chunk (a ∷ b ∷ c ∷ d ∷ e ∷ f ∷ g ∷ h ∷ i ∷ bs) hs len = absurd (omega arith)
bits_of-chunk (a ∷ b ∷ c ∷ d ∷ e ∷ f ∷ g ∷ []) hs len = absurd (omega arith)
bits_of-chunk (a ∷ b ∷ c ∷ d ∷ e ∷ f ∷ []) hs len = absurd (omega arith)
bits_of-chunk (a ∷ b ∷ c ∷ d ∷ e ∷ []) hs len = absurd (omega arith)
bits_of-chunk (a ∷ b ∷ c ∷ d ∷ []) hs len = absurd (omega arith)
bits_of-chunk (a ∷ b ∷ c ∷ []) hs len = absurd (omega arith)
bits_of-chunk (a ∷ b ∷ []) hs len = absurd (omega arith)
bits_of-chunk (a ∷ []) hs len = absurd (omega arith)
bits_of-chunk [] hs len = absurd (omega arith)

-- The rounds for eight bits finish one byte.
pack_loop-eight :
    (n : ℕ) (bits : Bits) (i : ℕ) (front : Bytes)
    → 8 ≤ length bits
    → i ≡ 8 * length front
    → pack_loop bits i (front ++ replicate (suc n) 0)
      ≡ pack_loop (drop 8 bits) (i + 8) ((front ++ (byte_of (take 8 bits) 0 ∷ [])) ++ replicate n 0)
pack_loop-eight n bits i front len hi =
    let chunk : Bits = take 8 bits in
    let chunk_len : length chunk ≡ 8 = omega (arith, length-take 8 bits) in
    ap (λ t. pack_loop t i (front ++ replicate (suc n) 0)) (sym (take-append-drop 8 bits))
    ∙ pack_chunk chunk (drop 8 bits) i 0 front (replicate n 0) (omega arith) (omega arith)
    ∙ rw (chunk_len, append_assoc front (byte_of chunk 0 ∷ []) (replicate n 0))

-- Packing whole bytes keeps every bit.
pub bits_of-pack_loop :
    (n : ℕ) (bits : Bits) (i : ℕ) (front : Bytes)
    → AllBits bits
    → length bits ≡ 8 * n
    → i ≡ 8 * length front
    → (length (pack_loop bits i (front ++ replicate n 0)) ≡ length front + n)
      × (bits_of (pack_loop bits i (front ++ replicate n 0)) ≡ bits_of front ++ bits)
bits_of-pack_loop zero [] i front hs len hi =
    unfold pack_loop in
    (omega (arith, length-append front []), rw (append-nil front) (sym (append-nil _)))
bits_of-pack_loop zero (b ∷ bits) i front hs len hi = absurd (omega arith)
bits_of-pack_loop (suc n) bits i front hs len hi =
    let chunk : Bits = take 8 bits in
    let last : Bytes = byte_of chunk 0 ∷ [] in
    let chunk_len : length chunk ≡ 8 = omega (arith, length-take 8 bits) in
    let front_len : length (front ++ last) ≡ length front + 1 =
      omega (arith, length-append front last) in
    let (ih_len, ih) =
      bits_of-pack_loop n (drop 8 bits) (i + 8) (front ++ last) (All-drop IsBit 8 bits hs)
        (omega (arith, length-drop 8 bits)) (omega arith) in
    rw (pack_loop-eight n bits i front (omega arith) hi) (
      omega arith,
      ih
          ∙ rw (
            bits_of-append front last,
            bits_of-chunk chunk (All-take IsBit 8 bits hs) chunk_len,
            append_assoc (bits_of front) chunk (drop 8 bits),
            take-append-drop 8 bits,
          ),
    )
