-- ===== src/Protocol/Checksum/Laws.antt =====
-- The checksum is a 32-bit word, and a step of it can be undone: so it tells apart any two messages
-- that differ in one byte.
use Prim.Native.Nat.{bit_xor}
use rongta_f11_open.Base.{
  ℕ, zero, suc, ◌/◌, ◌^◌, ◌≤◌, ◌<◌, ◌≡◌, ◌≢◌, refl, ap, sym, ◌∙◌, [], ◌∷◌, ◌++◌, arith, All-append,
  Bytes, IsByte, AllBytes,
}
use rongta_f11_open.Base.Xor.{bit_xor-lt, bit_xor-ge, bit_xor_cancel, bit_xor_comm}
use rongta_f11_open.Protocol.Checksum.{
  crc_shift, crc_rounds, crc_byte, crc_bytes, checksum, crc_seed, ones32,
}

abbrev IsWord : ℕ → Type 0
IsWord w = w < 2 ^ 32

xor-IsWord : (a b : ℕ) → IsWord a → IsWord b → IsWord (bit_xor a b)
xor-IsWord a b p q = bit_xor-lt 32 a b p q

crc_shift-IsWord : (c : ℕ) → IsWord c → IsWord (crc_shift c)
unfolding crc_shift
crc_shift-IsWord c h = ground (arith, xor-IsWord (c / 2) 0xedb88320)

crc_rounds-IsWord : (n c : ℕ) → IsWord c → IsWord (crc_rounds n c)
unfolding crc_rounds
crc_rounds-IsWord zero c h = h
crc_rounds-IsWord (suc n) c h = crc_rounds-IsWord n (crc_shift c) (crc_shift-IsWord c h)

crc_byte-IsWord : (c b : ℕ) → IsWord c → IsByte b → IsWord (crc_byte c b)
unfolding crc_byte
crc_byte-IsWord c b h k = crc_rounds-IsWord 8 (bit_xor c b) (xor-IsWord c b h (omega arith))

crc_bytes-IsWord : (c : ℕ) (bs : Bytes) → IsWord c → AllBytes bs → IsWord (crc_bytes c bs)
unfolding crc_bytes
crc_bytes-IsWord c [] h k = h
crc_bytes-IsWord c (b ∷ bs) h (kb, ks) =
    crc_bytes-IsWord (crc_byte c b) bs (crc_byte-IsWord c b h kb) ks

-- The checksum of bytes fits 32 bits.
pub checksum-lt : (bs : Bytes) → AllBytes bs → checksum bs < 2 ^ 32
unfolding checksum
checksum-lt bs h =
    xor-IsWord (crc_bytes _ bs) ones32 (crc_bytes-IsWord _ bs (omega arith) h) (omega arith)

-- The polynomial has the top bit, so the result shows which branch was taken.
crc_shift_odd-ge : (c : ℕ) → IsWord c → 2 ^ 31 ≤ bit_xor (c / 2) 0xedb88320
crc_shift_odd-ge c h = bit_xor-ge 31 (c / 2) 0xedb88320 (omega arith) (omega arith)

polynomial_cancel : (c : ℕ) → IsWord c → bit_xor (bit_xor (c / 2) 0xedb88320) 0xedb88320 ≡ c / 2
polynomial_cancel c h = bit_xor_cancel 32 (c / 2) 0xedb88320 (omega arith) (omega arith)

xor_injective : (a b m : ℕ) → IsWord a → IsWord b → IsWord m → bit_xor a m ≡ bit_xor b m → a ≡ b
xor_injective a b m ha hb hm e =
    sym (bit_xor_cancel 32 a m ha hm) ∙ ap (λ x. bit_xor x m) e ∙ bit_xor_cancel 32 b m hb hm

crc_shift-injective : (c d : ℕ) → IsWord c → IsWord d → crc_shift c ≡ crc_shift d → c ≡ d
unfolding crc_shift
crc_shift-injective c d hc hd e = ground (
  arith,
  crc_shift_odd-ge c hc,
  crc_shift_odd-ge d hd,
  xor_injective (c / 2) (d / 2) 0xedb88320 (omega arith) (omega arith) (omega arith),
)

crc_rounds-injective : (n c d : ℕ) → IsWord c → IsWord d → crc_rounds n c ≡ crc_rounds n d → c ≡ d
unfolding crc_rounds
crc_rounds-injective zero c d hc hd e = e
crc_rounds-injective (suc n) c d hc hd e = crc_shift-injective c d hc hd (
    crc_rounds-injective n (crc_shift c) (crc_shift d) (crc_shift-IsWord c hc)
      (crc_shift-IsWord d hd) e)

-- One more byte keeps two states apart.
crc_byte-injective_state :
    (c d b : ℕ) → IsWord c → IsWord d → IsByte b → crc_byte c b ≡ crc_byte d b → c ≡ d
unfolding crc_byte
crc_byte-injective_state c d b hc hd hb e = xor_injective c d b hc hd (omega arith) (
    crc_rounds-injective 8 (bit_xor c b) (bit_xor d b) (xor-IsWord c b hc (omega arith))
      (xor-IsWord d b hd (omega arith)) e)

-- From one state, different bytes lead to different states.
crc_byte-injective_byte :
    (c a b : ℕ) → IsWord c → IsByte a → IsByte b → crc_byte c a ≡ crc_byte c b → a ≡ b
unfolding crc_byte
crc_byte-injective_byte c a b hc ha hb e = xor_injective a b c (omega arith) (omega arith) hc (
    bit_xor_comm 32 a c (omega arith) hc
    ∙ crc_rounds-injective 8 (bit_xor c a) (bit_xor c b) (xor-IsWord c a hc (omega arith))
        (xor-IsWord c b hc (omega arith)) e
    ∙ bit_xor_comm 32 c b hc (omega arith))

crc_bytes-injective_state :
    (c d : ℕ) (bs : Bytes)
    → IsWord c
    → IsWord d
    → AllBytes bs
    → crc_bytes c bs ≡ crc_bytes d bs
    → c ≡ d
unfolding crc_bytes
crc_bytes-injective_state c d [] hc hd h e = e
crc_bytes-injective_state c d (b ∷ bs) hc hd (hb, h) e = crc_byte-injective_state c d b hc hd hb (
    crc_bytes-injective_state (crc_byte c b) (crc_byte d b) bs (crc_byte-IsWord c b hc hb)
      (crc_byte-IsWord d b hd hb) h e)

crc_bytes-append : (c : ℕ) (xs ys : Bytes) → crc_bytes c (xs ++ ys) ≡ crc_bytes (crc_bytes c xs) ys
unfolding crc_bytes
crc_bytes-append c [] ys = refl
crc_bytes-append c (x ∷ xs) ys = crc_bytes-append (crc_byte c x) xs ys

crc_bytes_one_byte :
    (c a b : ℕ) (ys : Bytes)
    → IsWord c
    → IsByte a
    → IsByte b
    → AllBytes ys
    → crc_bytes c (a ∷ ys) ≡ crc_bytes c (b ∷ ys)
    → a ≡ b
unfolding crc_bytes
crc_bytes_one_byte c a b ys hc ha hb hy e = crc_byte-injective_byte c a b hc ha hb (
    crc_bytes-injective_state (crc_byte c a) (crc_byte c b) ys (crc_byte-IsWord c a hc ha)
      (crc_byte-IsWord c b hc hb) hy e)

crc_one_byte :
    (c : ℕ) (xs ys : Bytes) (a b : ℕ)
    → IsWord c
    → AllBytes xs
    → AllBytes ys
    → IsByte a
    → IsByte b
    → crc_bytes c (xs ++ (a ∷ ys)) ≡ crc_bytes c (xs ++ (b ∷ ys))
    → a ≡ b
crc_one_byte c xs ys a b hc hx hy ha hb e =
    crc_bytes_one_byte (crc_bytes c xs) a b ys (crc_bytes-IsWord c xs hc hx) ha hb hy
      (sym (crc_bytes-append c xs (a ∷ ys)) ∙ e ∙ crc_bytes-append c xs (b ∷ ys))

checksum_same_byte :
    (xs ys : Bytes) (a b : ℕ)
    → AllBytes xs
    → AllBytes ys
    → IsByte a
    → IsByte b
    → checksum (xs ++ (a ∷ ys)) ≡ checksum (xs ++ (b ∷ ys))
    → a ≡ b
unfolding checksum
checksum_same_byte xs ys a b hx hy ha hb e =
    crc_one_byte start xs ys a b (omega arith) hx hy ha hb
      (xor_injective (state a) (state b) ones32 (word a ha) (word b hb) (omega arith) e)
  where
    start : ℕ
    start = bit_xor crc_seed ones32

    state : ℕ → ℕ
    state v = crc_bytes start (xs ++ (v ∷ ys))

    word : (v : ℕ) → IsByte v → IsWord (state v)
    word v hv =
        crc_bytes-IsWord start (xs ++ (v ∷ ys)) (omega arith)
          (All-append IsByte xs (v ∷ ys) hx (hv, hy))

-- A change of one byte, anywhere in a message of bytes, changes the checksum.
pub checksum_one_byte :
    (xs ys : Bytes) (a b : ℕ)
    → AllBytes xs
    → AllBytes ys
    → IsByte a
    → IsByte b
    → a ≢ b
    → checksum (xs ++ (a ∷ ys)) ≢ checksum (xs ++ (b ∷ ys))
checksum_one_byte xs ys a b hx hy ha hb ne e = ne (checksum_same_byte xs ys a b hx hy ha hb e)
