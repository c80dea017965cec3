-- ===== src/Protocol/Huffman/Packed.antt =====
-- The size of what `Encode` returns, and that it is made of bytes.
use rongta_f11_open.Base.{
  ℕ, zero, suc, ◌+◌, ◌-◌, ◌*◌, ◌/◌, ◌%◌, ◌≤◌, ◌<◌, ◌≡◌, refl, sym, ap, ◌∙◌, inl, inr, [], ◌∷◌, ◌++◌,
  some, arith, length, length-append, length-replicate, length-set, set, get_or, replicate, All,
  All-append, Bytes, AllBytes, byte,
}
use rongta_f11_open.Protocol.Huffman.{Tree, Huffman, Bits, pack_loop, code_bits, encode}
use rongta_f11_open.Protocol.Huffman.Codes.{
  IsFull, full_leaf, full_node, tree_size, find_code, find_code-node, place,
}
use rongta_f11_open.Protocol.Huffman.Follow.{leaf_found, extend-cases}
use rongta_f11_open.Protocol.Huffman.Pack.{IsBit, AllBits}
use rongta_f11_open.Protocol.Huffman.RoundTrip.{IsCoder, HasCode, code_bits-bits, ones-bits}

-- A code is shorter than the tree has nodes.
find_code-lt :
    {t : Tree} (b : ℕ) (p : Bits) → IsFull t → find_code t b ≡ some p → length p < tree_size t
unfolding tree_size
find_code-lt b p (full_leaf s w o h) e = rw ((leaf_found s w o b p e).1) (omega arith)
find_code-lt b p (full_node s w o {l} {r} hl hr) e =
    elim (extend-cases (find_code r b) (find_code l b) (sym (find_code-node s w o r b hl) ∙ e)) [
      | inl (q, eq, found) ↦ rw found (omega (arith, find_code-lt b q hr eq))
      | inr (q, eq, found) ↦ rw found (omega (arith, find_code-lt b q hl eq))
    ]

length-code_bits :
    {h : Huffman}
    → IsCoder h
    → tree_size h.root ≤ 511
    → (row : Bytes) → All (HasCode h) row
    → length (code_bits h row) ≤ 510 * length row
unfolding code_bits
length-code_bits k small [] has = omega arith
length-code_bits {h} k small (b ∷ row) ((p, found), has) =
    let code : h.codes b ≡ p = k.table b ∙ ap (λ o. place o [] []) found in
    rw code (
      omega (
        arith,
        length-append p (code_bits h row),
        find_code-lt b p k.full found,
        length-code_bits k small row has,
      ))

length-pack_loop : (bits : Bits) (i : ℕ) (out : Bytes) → length (pack_loop bits i out) ≡ length out
unfolding pack_loop
length-pack_loop [] i out = refl
length-pack_loop (b ∷ bits) i out =
    let v : ℕ = byte (get_or out (i / 8) 0 * 2) + b in
    length-pack_loop bits (i + 1) (set out (i / 8) v) ∙ length-set out (i / 8) v

set-AllBytes : (out : Bytes) (i v : ℕ) → v < 256 → AllBytes out → AllBytes (set out i v)
set-AllBytes [] i v h hs = tt
set-AllBytes (x ∷ out) zero v h (hx, hs) = (h, hs)
set-AllBytes (x ∷ out) (suc i) v h (hx, hs) = (hx, set-AllBytes out i v h hs)

-- The byte at hand, doubled and cut, is even, so a bit more still fits.
pack_loop-AllBytes :
    (bits : Bits) (i : ℕ) (out : Bytes)
    → AllBits bits
    → AllBytes out
    → AllBytes (pack_loop bits i out)
unfolding pack_loop
pack_loop-AllBytes [] i out hs k = k
pack_loop-AllBytes (b ∷ bits) i out (hb, hs) k =
    let v : ℕ = byte (get_or out (i / 8) 0 * 2) + b in
    pack_loop-AllBytes bits (i + 1) (set out (i / 8) v) hs
      (set-AllBytes out (i / 8) v (omega arith) k)

zeros-AllBytes : (n : ℕ) → AllBytes (replicate n 0)
zeros-AllBytes zero = tt
zeros-AllBytes (suc n) = (omega arith, zeros-AllBytes n)

-- What `Encode` returns for a row: bytes, not many of them, and less than a byte of padding.
pub record IsPacked (row : Bytes) (out : Bytes × ℕ) : Type 0 where
  pub bytes : AllBytes out.0
  pub size : length out.0 ≤ 64 * length row + 1
  pub pad_small : out.1 < 8

pub encode-IsPacked :
    {h : Huffman}
    → IsCoder h
    → tree_size h.root ≤ 511
    → (row : Bytes) → All (HasCode h) row
    → IsPacked row (encode h row)
unfolding encode
encode-IsPacked {h} k small row has =
    let bits : Bits = code_bits h row in
    let pad : ℕ = (8 - length bits % 8) % 8 in
    let padded : Bits = bits ++ replicate pad 1 in
    let n : ℕ = length padded / 8 in
    let len : length padded ≡ length bits + pad =
      length-append bits (replicate pad 1) ∙ ap (λ m. length bits + m) (length-replicate pad 1) in
    record {
      bytes =
          pack_loop-AllBytes padded 0 (replicate n 0)
            (All-append IsBit bits (replicate pad 1) (code_bits-bits k row has) (ones-bits pad))
            (zeros-AllBytes n);
      size = omega (
        arith,
        length-pack_loop padded 0 (replicate n 0),
        length-replicate {A = ℕ} n 0,
        length-code_bits k small row has,
      );
      pad_small = omega arith;
    }
