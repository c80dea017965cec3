-- ===== src/Protocol/Huffman/Codes.antt =====
-- The code table that `newHuffman` fills by its walk.
use rongta_f11_open.Base.{
  ℕ, ◌+◌, ◌<◌, ◌≡◌, refl, sym, ap, ◌∙◌, false, ◌&&◌, ◌==◌, if◌then◌else◌, [], ◌∷◌, ◌++◌,
  append_assoc, append-nil, arith, length, length-append, Option, none, some, Result, ok,
}
use rongta_f11_open.Protocol.Huffman.{
  Tree, nil, node, is_nil, Bits, Huffman, put_code, visit_leaf, walk, new_huffman,
}

-- Every node is a leaf with a byte for its symbol, or has two children.
pub data IsFull : Tree → Type 0 where
  full_leaf : (s w o : ℕ) → s < 256 → IsFull (node s w o nil nil)
  full_node : (s w o : ℕ) {l r : Tree} → IsFull l → IsFull r → IsFull (node s w o l r)

pub full-is_nil : {t : Tree} → IsFull t → is_nil t ≡ false
full-is_nil (full_leaf s w o h) = refl
full-is_nil (full_node s w o hl hr) = refl

unfoldable pub tree_size : Tree → ℕ
tree_size nil = 0
tree_size (node s w o l r) = 1 + tree_size l + tree_size r

-- The path to the last leaf with symbol `b`: 0 is left and 1 is right.
abbrev pub extend : Option Bits → Option Bits → Option Bits
extend (some p) q = some (1 ∷ p)
extend none (some p) = some (0 ∷ p)
extend none none = none

unfoldable pub find_code : Tree → ℕ → Option Bits
find_code nil b = none
find_code (node s w o l r) b =
    let below = extend (find_code r b) (find_code l b) in
    if is_nil l && is_nil r then (if b == s then some [] else none) else below

-- A code found below a node that is reached by `bits`, or else the one that stood before.
abbrev pub place : Option Bits → Bits → Bits → Bits
place (some p) bits old = bits ++ p
place none bits old = old

abbrev walked : Tree → Bits → Huffman → Huffman
walked t bits h = record h {
  codes = λ b. place (find_code t b) bits (h.codes b);
  node_count = h.node_count + tree_size t;
}

place-extend :
    (p q : Option Bits) (bits old : Bits)
    → place p (bits ++ (1 ∷ [])) (place q (bits ++ (0 ∷ [])) old) ≡ place (extend p q) bits old
place-extend (some p) q bits old = append_assoc bits (1 ∷ []) p
place-extend none (some q) bits old = append_assoc bits (0 ∷ []) q
place-extend none none bits old = refl

leaf_code :
    (codes : ℕ → Bits) (s w o : ℕ) (bits : Bits) (b : ℕ)
    → put_code codes s bits b ≡ place (find_code (node s w o nil nil) b) bits (codes b)
unfolding find_code
leaf_code codes s w o bits b = ground (arith, append-nil bits)

pub find_code-node :
    (s w o : ℕ) {l : Tree} (r : Tree) (b : ℕ)
    → IsFull l
    → find_code (node s w o l r) b ≡ extend (find_code r b) (find_code l b)
unfolding find_code
find_code-node s w o r b hl = rw (full-is_nil hl)

record_path :
    (root : Tree) {cs ds : ℕ → Bits} {m n : ℕ}
    → ((b : ℕ) → cs b ≡ ds b)
    → m ≡ n
    → ◌≡◌ {A = Result Huffman}
        (ok (record { root = root; codes = cs; node_count = m }))
        (ok (record { root = root; codes = ds; node_count = n }))
record_path root p q = λ i. ok (record { root = root; codes = λ b. p b i; node_count = q i })

visit_leaf-byte :
    (s : ℕ) (bits : Bits) (h : Huffman)
    → s < 256
    → 0 < length bits
    → visit_leaf s bits h ≡ record h { codes = put_code h.codes s bits }
unfolding visit_leaf
visit_leaf-byte s bits h hs pos = ground arith

-- The walk at a node with two subtrees, from the walks below it.
walk-node :
    (s w o : ℕ) {l : Tree} (r : Tree) (bits : Bits) (h : Huffman)
    → IsFull l
    → ((h' : Huffman) → walk l (bits ++ (0 ∷ [])) h' ≡ ok (walked l (bits ++ (0 ∷ [])) h'))
    → ((h' : Huffman) → walk r (bits ++ (1 ∷ [])) h' ≡ ok (walked r (bits ++ (1 ∷ [])) h'))
    → walk (node s w o l r) bits h ≡ ok (walked (node s w o l r) bits h)
unfolding walk tree_size
walk-node s w o {l} r bits h hl el er =
    let counted : Huffman = record h { node_count = h.node_count + 1 } in
    rw (full-is_nil hl, el counted, er (walked l (bits ++ (0 ∷ [])) counted))
      (record_path h.root
        (λ b.
          place-extend (find_code r b) (find_code l b) bits (h.codes b)
          ∙ ap (λ p. place p bits (h.codes b)) (sym (find_code-node s w o r b hl)))
        (omega arith))

walk-full :
    {t : Tree}
    → IsFull t
    → (bits : Bits) (h : Huffman) → 0 < length bits
    → walk t bits h ≡ ok (walked t bits h)
walk-full (full_leaf s w o hs) bits h pos =
    unfold walk tree_size in
    (rw (visit_leaf-byte s bits (record h { node_count = h.node_count + 1 }) hs pos)
      (record_path h.root (leaf_code h.codes s w o bits) refl))
walk-full (full_node s w o hl hr) bits h pos =
    walk-node s w o _ bits h hl
      (λ h'. walk-full hl (bits ++ (0 ∷ [])) h' (omega (arith, length-append bits (0 ∷ []))))
      (λ h'. walk-full hr (bits ++ (1 ∷ [])) h' (omega (arith, length-append bits (1 ∷ []))))

-- The table that `newHuffman` makes of a full tree with two subtrees: each byte has the path to its
-- leaf, or no bits.
pub new_huffman-full :
    (s w o : ℕ) {l r : Tree}
    → IsFull l
    → IsFull r
    → new_huffman (node s w o l r)
      ≡ ok (record {
        root = node s w o l r;
        codes = λ b. place (find_code (node s w o l r) b) [] [];
        node_count = tree_size (node s w o l r);
      })
unfolding new_huffman
new_huffman-full s w o {l} {r} hl hr =
    walk-node s w o r [] (record { root = node s w o l r; codes = λ b. []; node_count = 0 }) hl
      (λ h'. walk-full hl (0 ∷ []) h' (omega arith)) (λ h'. walk-full hr (1 ∷ []) h' (omega arith))
    ∙ record_path (node s w o l r) (λ b. refl) (omega arith)
