-- ===== src/Protocol/Rebuild/Returns.antt =====
-- `treeFrom` on any input.
use rongta_f11_open.Base.{
  ℕ, zero, suc, ◌+◌, ◌-◌, ◌*◌, ◌/◌, ◌%◌, ◌≤◌, ◌<◌, ◌≡◌, refl, ap, Bool, true, false, not, ◌||◌,
  List, [], Option, none, some, ltb, leb, ◌==◌, length, get_or, Bytes, Result, ok, fail_if, arith,
}
use rongta_f11_open.Base.Ends.{
  Ends, value, error, Ends-bind, Ends-if, Ends-guard, Ends-weaken, Ends-fail_if,
}
use rongta_f11_open.Base.Reads.{reads-Returns}
use rongta_f11_open.Protocol.Huffman.{
  Tree, nil, node, is_nil, Huffman, Bits, new_huffman, walk, visit_leaf,
}
use rongta_f11_open.Protocol.Huffman.Codes.{IsFull, full_leaf, full_node}
use rongta_f11_open.Protocol.Huffman.Codes.{new_huffman-full}
use rongta_f11_open.Protocol.Rebuild.{
  words_from, has_repeats, all_in, find_split, found_split, Reader, build, built_or_traversal,
  validate, tree_from,
}

-- A call of `build` takes one word at least, and stays inside the traversal.
abbrev Reads : List ℕ → Reader → Tree × Reader → Type 0
Reads pre r (t, r') = (is_nil t ≡ false) × (r.pi < r'.pi) × (r'.pi ≤ length pre)

-- What the words left over to the subtrees keep.
abbrev Follows : List ℕ → Reader → Tree × Reader → Type 0
Follows pre r (t, r') = (r.pi ≤ r'.pi) × (r'.pi ≤ length pre)

-- A place that is found is below `hi`.
abbrev FoundBelow : ℕ → Option ℕ → Type 0
FoundBelow hi none = Unit {0}
FoundBelow hi (some i) = i < hi

find_split-Ends :
    (n i : ℕ) (mid : List ℕ) (s hi : ℕ)
    → i + n ≤ hi
    → hi ≤ length mid
    → Ends (FoundBelow hi) (find_split n i mid s)
unfolding find_split
find_split-Ends zero i mid s hi h k = value tt
find_split-Ends (suc n) i mid s hi h k = Ends-bind (reads-Returns (i + 1) mid (omega arith)) λ _ _.
    Ends-if (get_or mid i 0 == s) (λ _. value (omega arith))
      (λ _. find_split-Ends n (i + 1) mid s hi (omega arith) k)

found_split-Ends : (hi : ℕ) (o : Option ℕ) → FoundBelow hi o → Ends (λ i. i < hi) (found_split o)
unfolding found_split
found_split-Ends hi none h = error
found_split-Ends hi (some i) h = value h

-- A subtree that is read, or left out.
subtree-Follows :
    (pre : List ℕ) (b : Bool) (r : Reader) {m : Result (Tree × Reader)}
    → r.pi ≤ length pre
    → Ends (Reads pre r) m
    → Ends (Follows pre r) (elim b [ true ↦ m | false ↦ ok (nil, r) ])
subtree-Follows pre false r h k = value (omega arith, h)
subtree-Follows pre true r h k = Ends-weaken k (λ a p. (omega arith, p.2))

build-Reads :
    (fuel : ℕ) (pre mid : List ℕ) (lo hi : ℕ) (r : Reader)
    → length pre < fuel + r.pi
    → r.pi ≤ length pre
    → hi ≤ length mid
    → Ends (Reads pre r) (build fuel pre mid lo hi r)
unfolding build
build-Reads zero pre mid lo hi r h k w = absurd (omega arith)
build-Reads (suc fuel) pre mid lo hi r h k w =
    Ends-guard (leb hi lo || leb (length pre) r.pi) "tree traversal" λ passed.
      let here : r.pi < length pre = ground arith in
      let ordered : lo < hi = ground arith in
      let r1 : Reader = record { pi = r.pi + 1; order = r.order + 1 } in
      Ends-bind (reads-Returns (r.pi + 1) pre (omega arith)) λ _ _.
        Ends-bind (find_split-Ends (hi - lo) lo mid (get_or pre r.pi 0) hi (omega arith) w)
          λ found inside. Ends-bind (found_split-Ends hi found inside) λ split below.
            Ends-bind
              (subtree-Follows pre (ltb lo split) r1 (omega arith)
                (build-Reads fuel pre mid lo split r1 (omega arith) (omega arith) (omega arith)))
              λ (l, r2) p2.
                Ends-bind
                  (subtree-Follows pre (ltb (split + 1) hi) r2 p2.1
                    (build-Reads fuel pre mid (split + 1) hi r2 (omega arith) p2.1 w))
                  λ (x, r3) p3. value (refl, omega arith, p3.1)

words_from-Ends :
    (n i : ℕ) (bs : Bytes) → i + 2 * n ≤ length bs → Ends (λ ws. length ws ≡ n) (words_from n i bs)
unfolding words_from
words_from-Ends zero i bs h = value refl
words_from-Ends (suc n) i bs h =
    Ends-bind (reads-Returns (i + 2) bs (omega arith))
      λ _ _. Ends-bind (words_from-Ends n (i + 2) bs (omega arith)) λ ws len. value (ap suc len)

validate_leaf-IsFull :
    (s w o : ℕ) → Ends (λ _. IsFull (node s w o nil nil)) (fail_if (leb 256 s) "invalid leaf")
validate_leaf-IsFull s w o =
    Ends-weaken (Ends-fail_if (leb 256 s) "invalid leaf") (λ _ e. full_leaf s w o (ground arith))

-- A tree that passes has two subtrees or none at each node, and bytes at its leaves.
validate-IsFull : (t : Tree) → is_nil t ≡ false → Ends (λ _. IsFull t) (validate t)
unfolding validate
validate-IsFull nil h = cc
validate-IsFull (node s w o nil nil) h = validate_leaf-IsFull s w o
validate-IsFull (node s w o nil (node s' w' o' l' r')) h = error
validate-IsFull (node s w o (node s' w' o' l' r') nil) h = error
validate-IsFull (node s w o (node s1 w1 o1 l1 r1) (node s2 w2 o2 l2 r2)) h =
    Ends-bind (validate-IsFull (node s1 w1 o1 l1 r1) refl) λ _ hl.
      Ends-weaken (validate-IsFull (node s2 w2 o2 l2 r2) refl) (λ _ hr. full_node s w o hl hr)

visit_leaf-root : (s : ℕ) (bits : Bits) (h : Huffman) → (visit_leaf s bits h).root ≡ h.root
unfolding visit_leaf
visit_leaf-root s bits h = ground arith

new_huffman-Ends : {t : Tree} → IsFull t → Ends (λ h. h.root ≡ t) (new_huffman t)
new_huffman-Ends (full_leaf s w o h) = unfold new_huffman walk in value (visit_leaf-root s [] _)
new_huffman-Ends (full_node s w o hl hr) = rw (new_huffman-full s w o hl hr) (value refl)

built_or_traversal-Ends :
    (pre : List ℕ) (r : Reader) (n : ℕ) {m : Result (Tree × Reader)}
    → Ends (Reads pre r) m
    → Ends (λ t. is_nil t ≡ false) (built_or_traversal m n)
unfolding built_or_traversal
built_or_traversal-Ends pre r n (value {a} h) = Ends-if (a.1.pi == n) (λ _. value h.0) (λ _. error)
built_or_traversal-Ends pre r n error = error

-- On any bytes `treeFrom` returns an error, or a coder whose tree is full: each node has two subtrees
-- or none, and each leaf a byte. It neither panics nor loops on.
pub tree_from-Ends : (bs : Bytes) → Ends (λ h. IsFull h.root) (tree_from bs)
unfolding tree_from
tree_from-Ends bs =
    let n : ℕ = length bs / 4 in
    let start : Reader = record { pi = 0; order = 0 } in
    Ends-guard (length bs == 0 || not (length bs % 4 == 0)) "tree size" λ _.
      Ends-guard (ltb 511 n) "tree too large" λ _.
        Ends-bind (words_from-Ends n 0 bs (omega arith)) λ pre len.
          Ends-bind (words_from-Ends n (n * 2) bs (omega arith)) λ mid width.
            Ends-guard (has_repeats [] pre || has_repeats [] mid) "duplicate tree symbols" λ _.
              Ends-guard (not (length pre == length mid)) "tree symbols" λ _.
                Ends-guard (not (all_in pre mid)) "tree symbols" λ _.
                  Ends-bind
                    (built_or_traversal-Ends pre start n (
                      build-Reads (n + 1) pre mid 0 n start (omega arith) (omega arith)
                        (omega arith)))
                    λ root made.
                      Ends-bind (validate-IsFull root made)
                        λ _ full. Ends-weaken (new_huffman-Ends full) (λ h at. rw at full)
