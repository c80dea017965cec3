-- ===== src/Protocol/Huffman/RoundTrip.antt =====
-- `Decode` behind `Encode`.
use rongta_f11_open.Base.{
  ℕ, zero, suc, ◌+◌, ◌-◌, ◌*◌, ◌/◌, ◌%◌, ◌^◌, ◌<◌, ◌≡◌, refl, sym, ap, ◌∙◌, inl, inr, true, false,
  leb, [], ◌∷◌, ◌++◌, append_assoc, append-nil, arith, length, length-append, length-replicate,
  replicate, take, take-append, take_all, take-append_eq, length-take, All, All-append, Bytes, byte,
  some, ok, ◌>>=◌, Bool-cases, >>=-ext, >>=_assoc, >>=-eq-ok,
}
use rongta_f11_open.Protocol.Huffman.{Tree, leaf, Bits, Huffman, code_bits, encode, pack_loop}
use rongta_f11_open.Protocol.Huffman.Codes.{
  IsFull, full_leaf, full_node, find_code, find_code-node, place,
}
use rongta_f11_open.Protocol.Huffman.Decode.{Cursor, decode_bit, decode_byte, decode_bytes, decode}
use rongta_f11_open.Protocol.Huffman.Pack.{byte_bits, bits_of, bits_of-pack_loop, IsBit, AllBits}
use rongta_f11_open.Protocol.Huffman.Follow.{run, follows, extend-cases, leaf_found}

decode_bit-seen :
    (root : Tree) (bit : ℕ) (c : Cursor) {c' : Cursor}
    → decode_bit root bit c ≡ ok c'
    → c'.seen ≡ c.seen
unfolding decode_bit
decode_bit-seen root bit c e = ground arith

run-seen :
    (root : Tree) (bits : Bits) (c : Cursor) {c' : Cursor}
    → run root bits c ≡ ok c'
    → c'.seen ≡ c.seen + length bits
unfolding run
run-seen root [] c e = ground arith
run-seen root (b ∷ bits) c e =
    let start : Cursor = record c { seen = c.seen + 1 } in
    let (c1, p, q) = >>=-eq-ok (decode_bit root b start) (run root bits) e in
    omega (arith, decode_bit-seen root b start p, run-seen root bits c1 q)

run-append :
    (root : Tree) (xs ys : Bits) (c : Cursor)
    → run root (xs ++ ys) c ≡ (run root xs c >>= run root ys)
unfolding run
run-append root [] ys c = refl
run-append root (x ∷ xs) ys c =
    let start : Cursor = record c { seen = c.seen + 1 } in
    >>=-ext (decode_bit root x start) (run root (xs ++ ys)) (λ c1. run root xs c1 >>= run root ys)
      (λ c1 _. run-append root xs ys c1)
    ∙ sym (>>=_assoc (decode_bit root x start) (run root xs) (run root ys))

-- The loop over one byte reads its bits as far as they are valid.
decode_byte-run :
    (root : Tree) (valid k b : ℕ) (c : Cursor)
    → decode_byte root valid k b c ≡ run root (take (valid - c.seen) (byte_bits k b)) c
unfolding decode_byte byte_bits run
decode_byte-run root valid zero b c = rw (take_all {A = ℕ} (valid - c.seen) [] (omega arith))
decode_byte-run root valid (suc k) b c = elim (Bool-cases (leb valid c.seen)) [
  | inl done ↦ let none_left : valid - c.seen ≡ 0 = ground arith in rw (done, none_left)
  | inr more ↦
      let left_over : valid - c.seen ≡ suc (valid - (c.seen + 1)) = ground arith in
      let start : Cursor = record c { seen = c.seen + 1 } in
      rw (more, left_over)
        (>>=-ext (decode_bit root (b / 2 ^ k % 2) start) (decode_byte root valid k b)
          (run root (take (valid - (c.seen + 1)) (byte_bits k b)))
          (λ c1 e.
            decode_byte-run root valid k b c1
            ∙ ap (λ n. run root (take (valid - n) (byte_bits k b)) c1)
                (decode_bit-seen root (b / 2 ^ k % 2) start e)))
]

length-byte_bits : (k b : ℕ) → length (byte_bits k b) ≡ k
unfolding byte_bits
length-byte_bits zero b = refl
length-byte_bits (suc k) b = ap suc (length-byte_bits k b)

decode_bytes-run :
    (root : Tree) (valid : ℕ) (bs : Bytes) (c : Cursor)
    → decode_bytes root valid bs c ≡ run root (take (valid - c.seen) (bits_of bs)) c
unfolding decode_bytes bits_of
decode_bytes-run root valid [] c =
    rw (take_all {A = ℕ} (valid - c.seen) [] (omega arith)) (unfold run in refl)
decode_bytes-run root valid (b ∷ bs) c =
    let m : ℕ = valid - c.seen in
    let front : Bits = take m (byte_bits 8 b) in
    rw (decode_byte-run root valid 8 b c) (
      >>=-ext (run root front c) (decode_bytes root valid bs) (run root (take (m - 8) (bits_of bs)))
        (λ c1 e.
          let used : valid - c1.seen ≡ m - 8 =
            omega (
              arith,
              run-seen root front c e,
              length-take m (byte_bits 8 b),
              length-byte_bits 8 b,
            ) in
          decode_bytes-run root valid bs c1 ∙ ap (λ n. run root (take n (bits_of bs)) c1) used)
      ∙ sym (run-append root front (take (m - 8) (bits_of bs)) c)
      ∙ ap (λ t. run root t c)
          (sym (
            take-append m (byte_bits 8 b) (bits_of bs)
            ∙ ap (λ n. front ++ take (m - n) (bits_of bs)) (length-byte_bits 8 b))))

-- What `newHuffman` makes of a full tree with two subtrees.
pub record IsCoder (h : Huffman) : Type 0 where
  pub full : IsFull h.root
  pub inner : leaf h.root ≡ false
  pub table : (b : ℕ) → h.codes b ≡ place (find_code h.root b) [] []

abbrev pub HasCode : Huffman → ℕ → Type 0
HasCode h b = (p : Bits) × (find_code h.root b ≡ some p)

abbrev home : Huffman → Bytes → ℕ → Cursor
home h bs n = record { cur = h.root; at_root = true; out = bs; seen = n }

run-code_bits :
    {h : Huffman}
    → IsCoder h
    → (bs : Bytes) (rest : Bits) (done : Bytes) (n : ℕ) → All (HasCode h) bs
    → run h.root (code_bits h bs ++ rest) (home h done n)
      ≡ run h.root rest (home h (done ++ bs) (n + length (code_bits h bs)))
unfolding code_bits
run-code_bits {h} k [] rest done n has =
    let same : n + 0 ≡ n = omega arith in rw (same, append-nil done)
run-code_bits {h} k (b ∷ bs) rest done n ((p, found), has) =
    let code : h.codes b ≡ p = k.table b ∙ ap (λ o. place o [] []) found in
    let count : n + length p + length (code_bits h bs) ≡ n + length (p ++ code_bits h bs) =
      omega (arith, length-append p (code_bits h bs)) in
    rw (code, append_assoc p (code_bits h bs) rest)
      (follows h.root k.full b p (code_bits h bs ++ rest) (home h done n) refl found k.inner
        ∙ run-code_bits k bs rest (done ++ (b ∷ [])) (n + length p) has
        ∙ rw (append_assoc done (b ∷ []) bs, count))

find_code-bits : {t : Tree} (b : ℕ) (p : Bits) → IsFull t → find_code t b ≡ some p → AllBits p
find_code-bits b p (full_leaf s w o h) e = rw ((leaf_found s w o b p e).1) tt
find_code-bits b p (full_node s w o {l} {r} hl hr) e =
    elim (extend-cases (find_code r b) (find_code l b) (sym (find_code-node s w o r b hl) ∙ e)) [
      | inl (q, eq, found) ↦ rw found (omega arith, find_code-bits b q hr eq)
      | inr (q, eq, found) ↦ rw found (omega arith, find_code-bits b q hl eq)
    ]

pub code_bits-bits :
    {h : Huffman} → IsCoder h → (bs : Bytes) → All (HasCode h) bs → AllBits (code_bits h bs)
unfolding code_bits
code_bits-bits k [] has = tt
code_bits-bits {h} k (b ∷ bs) ((p, found), has) =
    let code : h.codes b ≡ p = k.table b ∙ ap (λ o. place o [] []) found in
    All-append IsBit (h.codes b) (code_bits h bs) (rw code (find_code-bits b p k.full found))
      (code_bits-bits k bs has)

pub ones-bits : (n : ℕ) → AllBits (replicate n 1)
ones-bits zero = tt
ones-bits (suc n) = (omega arith, ones-bits n)

nil_front : (bits : Bits) → bits_of [] ++ bits ≡ bits
unfolding bits_of
nil_front bits = refl

-- Decoding any bytes that hold the code bits and the padding.
decode-packed :
    (h : Huffman) (bs out : Bytes) (pad : ℕ)
    → IsCoder h
    → All (HasCode h) bs
    → pad < 8
    → length out * 8 ≡ length (code_bits h bs) + pad
    → bits_of out ≡ code_bits h bs ++ replicate pad 1
    → decode h out pad (length bs) ≡ ok bs
unfolding decode run
decode-packed h bs out pad k has small size same =
    let bits : Bits = code_bits h bs in
    let valid : ℕ = length out * 8 - pad in
    let bits_valid : take (valid - 0) (bits_of out) ≡ bits =
      rw same (take-append_eq bits (replicate pad 1) (valid - 0) (omega arith)) in
    let ran : decode_bytes h.root valid out (home h [] 0) ≡ ok (home h bs (0 + length bits)) =
      decode_bytes-run h.root valid out (home h [] 0)
      ∙ ap (λ t. run h.root t (home h [] 0)) (bits_valid ∙ sym (append-nil bits))
      ∙ run-code_bits k bs [] [] 0 has in
    rw ran (ground arith)

-- Decoding what was encoded, with the padding that `Encode` reports and the row's length, gives the row.
pub decode-encode :
    (h : Huffman) (bs : Bytes)
    → IsCoder h
    → All (HasCode h) bs
    → decode h (encode h bs).0 (encode h bs).1 (length bs) ≡ ok bs
unfolding encode
decode-encode h bs k has =
    let bits : Bits = code_bits h bs in
    let pad : ℕ = (8 - length bits % 8) % 8 in
    let padded : Bits = bits ++ replicate pad 1 in
    let len : length padded ≡ length bits + pad =
      length-append bits (replicate pad 1) ∙ ap (λ n. length bits + n) (length-replicate pad 1) in
    let (out_len, out_bits) =
      bits_of-pack_loop (length padded / 8) padded 0 []
        (All-append IsBit bits (replicate pad 1) (code_bits-bits k bs has) (ones-bits pad))
        (omega arith) (omega arith) in
    let same : byte pad ≡ pad = omega arith in
    rw same (
      decode-packed h bs (pack_loop padded 0 (replicate (length padded / 8) 0)) pad k has
        (omega arith) (omega arith) (out_bits ∙ nil_front padded))
