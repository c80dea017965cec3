-- ===== src/Protocol/Huffman/Follow.antt =====
-- The loops of `Decode` as one loop over bits, and what it makes of a code.
use rongta_f11_open.Base.{
  ℕ, suc, ◌+◌, ◌<◌, ◌≡◌, refl, sym, ap, ◌∙◌, ◌⊎◌, inl, inr, true, false, ◌==◌, if◌then◌else◌, [],
  ◌∷◌, ◌++◌, arith, length, byte, Option, none, some, Result, ok, ◌>>=◌,
}
use rongta_f11_open.Protocol.Huffman.{Tree, nil, node, left, right, leaf, Bits}
use rongta_f11_open.Protocol.Huffman.Codes.{
  IsFull, full_leaf, full_node, full-is_nil, find_code, find_code-node, extend,
}
use rongta_f11_open.Protocol.Huffman.Decode.{Cursor, decode_bit}

-- `decode_bit` for each of some bits.
unfoldable pub run : Tree → Bits → Cursor → Result Cursor
run root [] c = ok c
run root (b ∷ bs) c = do c' ← decode_bit root b (record c { seen = c.seen + 1 }); run root bs c'

-- The cursor behind a leaf with symbol `b`, after `n` more bits.
abbrev pub emit : Tree → ℕ → ℕ → Cursor → Cursor
emit root b n c = record { cur = root; at_root = true; out = c.out ++ (b ∷ []); seen = c.seen + n }

abbrev next_node : ℕ → Cursor → Tree
next_node bit c = if bit == 0 then left c.cur else right c.cur

decode_bit-leaf :
    (root : Tree) (bit s w o : ℕ) (c : Cursor)
    → next_node bit c ≡ node s w o nil nil
    → s < 256
    → decode_bit root bit c ≡ ok (record c { cur = root; at_root = true; out = c.out ++ (s ∷ []) })
unfolding decode_bit
decode_bit-leaf root bit s w o c e h = let same : byte s ≡ s = omega arith in rw e (ground arith)

decode_bit-inner :
    (root : Tree) (bit s w o : ℕ) {l : Tree} (r : Tree) (c : Cursor)
    → next_node bit c ≡ node s w o l r
    → IsFull l
    → decode_bit root bit c ≡ ok (record c { cur = node s w o l r; at_root = false })
unfolding decode_bit
decode_bit-inner root bit s w o r c e hl = rw (e, full-is_nil hl)

pub leaf_found :
    (s w o b : ℕ) (p : Bits) → find_code (node s w o nil nil) b ≡ some p → (b ≡ s) × (p ≡ [])
unfolding find_code
leaf_found s w o b p e = ground arith

-- Following the code of `b` below a node emits `b`, and stands at the root again.
abbrev pub Follows : Tree → Tree → Type 0
Follows root t =
    (b : ℕ) (p rest : Bits) (c : Cursor)
    → c.cur ≡ t
    → find_code t b ≡ some p
    → leaf t ≡ false
    → run root (p ++ rest) c ≡ run root rest (emit root b (length p) c)

run-cons :
    (root : Tree) (bit : ℕ) (bits : Bits) (c : Cursor) {c' : Cursor}
    → decode_bit root bit (record c { seen = c.seen + 1 }) ≡ ok c'
    → run root (bit ∷ bits) c ≡ run root bits c'
unfolding run
run-cons root bit bits c e = rw e

descend :
    (root : Tree) (bit b : ℕ) {t : Tree} (p rest : Bits) (c : Cursor)
    → IsFull t
    → next_node bit c ≡ t
    → find_code t b ≡ some p
    → Follows root t
    → run root ((bit ∷ p) ++ rest) c ≡ run root rest (emit root b (suc (length p)) c)
descend root bit b p rest c (full_leaf s w o h) e f ih =
    let (same, none_left) = leaf_found s w o b p f in
    rw (none_left, same)
      (run-cons root bit rest c
        (decode_bit-leaf root bit s w o (record c { seen = c.seen + 1 }) e h))
descend root bit b p rest c (full_node s w o {l} {r} hl hr) e f ih =
    let below : Cursor = record c { cur = node s w o l r; at_root = false; seen = c.seen + 1 } in
    let count : c.seen + 1 + length p ≡ c.seen + suc (length p) = omega arith in
    run-cons root bit (p ++ rest) c
      (decode_bit-inner root bit s w o r (record c { seen = c.seen + 1 }) e hl)
    ∙ ih b p rest below refl f (rw (full-is_nil hl))
    ∙ rw count

pub extend-cases :
    (p q : Option Bits) {found : Bits}
    → extend p q ≡ some found
    → ((p' : Bits) × (p ≡ some p') × (found ≡ 1 ∷ p'))
      ⊎ ((q' : Bits) × (q ≡ some q') × (found ≡ 0 ∷ q'))
extend-cases (some p) q e = inl (p, refl, ground arith)
extend-cases none (some q) e = inr (q, refl, ground arith)
extend-cases none none e = cc

pub follows : (root : Tree) {t : Tree} → IsFull t → Follows root t
follows root (full_leaf s w o h) b p rest c at e inner = cc
follows root (full_node s w o {l} {r} hl hr) b p rest c at e inner =
    elim (extend-cases (find_code r b) (find_code l b) (sym (find_code-node s w o r b hl) ∙ e)) [
      | inl (q, eq, found) ↦
          rw found (descend root 1 b q rest c hr (ap right at) eq (follows root hr))
      | inr (q, eq, found) ↦
          rw found (descend root 0 b q rest c hl (ap left at) eq (follows root hl))
    ]
