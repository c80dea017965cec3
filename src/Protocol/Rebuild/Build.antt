-- ===== src/Protocol/Rebuild/Build.antt =====
-- The closure `build` of `treeFrom` on the two traversals of a tree.
use rongta_f11_open.Base.{
  ℕ, zero, suc, ◌+◌, ◌-◌, ◌≤◌, ◌<◌, ◌≡◌, refl, sym, ap, ◌∙◌, true, false, ◌||◌, List, [], ◌∷◌, ◌++◌,
  some, ltb, leb, ◌==◌, length, length-append, get_or, get_or-append, append_assoc, Result, ok,
  arith, lt→ltb, le→ltb_false, ==_refl,
}
use rongta_f11_open.Base.Reads.{reads, reads-eq}
use rongta_f11_open.Protocol.Huffman.{Tree, nil, node, is_nil, preorder, inorder}
use rongta_f11_open.Protocol.Huffman.Codes.{tree_size}
use rongta_f11_open.Protocol.Rebuild.{find_split, found_split, Reader, build}
use rongta_f11_open.Protocol.Rebuild.Symbols.{once, times, tree_times, times-inorder}

-- The tree as `build` makes it: no weights, and numbered from `n` in preorder.
unfoldable pub renumber : Tree → ℕ → Tree
renumber nil n = nil
renumber (node s w o l r) n = node s 0 n (renumber l (n + 1)) (renumber r (n + 1 + tree_size l))

pub length-inorder : (t : Tree) → length (inorder t) ≡ tree_size t
unfolding inorder tree_size
length-inorder nil = refl
length-inorder (node s w o l r) =
    omega (arith, length-append (inorder l) (s ∷ inorder r), length-inorder l, length-inorder r)

pub length-preorder : (t : Tree) → length (preorder t) ≡ tree_size t
unfolding preorder tree_size
length-preorder nil = refl
length-preorder (node s w o l r) =
    omega (arith, length-append (preorder l) (preorder r), length-preorder l, length-preorder r)

-- The search stops at the first `s`, behind words that differ from it.
find_split-behind :
    (n : ℕ) (front xs back : List ℕ) (s i : ℕ)
    → i ≡ length front
    → times s xs ≡ 0
    → length xs < n
    → find_split n i (front ++ (xs ++ (s ∷ back))) s ≡ ok (some (i + length xs))
unfolding find_split
find_split-behind zero front xs back s i e h k = absurd (omega arith)
find_split-behind (suc n) front [] back s i e h k =
    let same : i ≡ i + 0 = omega arith in
    let there : i + 1 ≤ length (front ++ (s ∷ back)) =
      omega (arith, length-append front (s ∷ back)) in
    rw (reads-eq (i + 1) _ there, get_or-append front back s 0 i e, ==_refl s)
      (ap (λ k. ok (some k)) same)
find_split-behind (suc n) front (x ∷ xs) back s i e h k =
    let differs : (x == s) ≡ false = ground arith in
    let same : i + 1 + length xs ≡ i + suc (length xs) = omega arith in
    let there : i + 1 ≤ length (front ++ (x ∷ (xs ++ (s ∷ back)))) =
      omega (arith, length-append front (x ∷ (xs ++ (s ∷ back)))) in
    rw (reads-eq (i + 1) _ there, get_or-append front (xs ++ (s ∷ back)) x 0 i e, differs)
      (ap (λ l. find_split n (i + 1) l s) (sym (append_assoc front (x ∷ []) (xs ++ (s ∷ back))))
        ∙ find_split-behind n (front ++ (x ∷ [])) xs back s (i + 1)
            (omega (arith, length-append front (x ∷ []))) (omega arith) (omega arith)
        ∙ ap (λ k. ok (some k)) same)

-- `build` reads the tree whose traversals stand at the reader's place.
unfoldable pub Builds : Tree → Type 0
Builds t =
    (fuel : ℕ) (pre mid p q m n : List ℕ) (lo hi : ℕ) (r : Reader)
    → is_nil t ≡ false
    → pre ≡ p ++ (preorder t ++ q)
    → mid ≡ m ++ (inorder t ++ n)
    → r.pi ≡ length p
    → lo ≡ length m
    → hi ≡ lo + tree_size t
    → tree_size t < fuel
    → build fuel pre mid lo hi r
      ≡ ok (renumber t r.order, record { pi = r.pi + tree_size t; order = r.order + tree_size t })

-- What `build` returns for a subtree that may be `nil`.
abbrev read_tree : Tree → Reader → Result (Tree × Reader)
read_tree t r =
    ok (renumber t r.order, record { pi = r.pi + tree_size t; order = r.order + tree_size t })

subtree-build :
    (t : Tree)
    → Builds t
    → (fuel : ℕ) (pre mid p q m n : List ℕ) (lo hi : ℕ) (r : Reader) → pre ≡ p ++ (preorder t ++ q)
    → mid ≡ m ++ (inorder t ++ n)
    → r.pi ≡ length p
    → lo ≡ length m
    → hi ≡ lo + tree_size t
    → tree_size t < fuel
    → (elim (ltb lo hi) [ true ↦ build fuel pre mid lo hi r | false ↦ ok (nil, r) ]) ≡ read_tree t r
unfolding renumber Builds
subtree-build nil ih fuel pre mid p q m n lo hi r ep em ei el eh k =
    let flat : ltb lo hi ≡ false = unfold tree_size in le→ltb_false lo hi (omega arith) in
    let zero_pi : r.pi ≡ r.pi + tree_size nil = unfold tree_size in omega arith in
    let zero_order : r.order ≡ r.order + tree_size nil = unfold tree_size in omega arith in
    rw flat (λ i. ok (nil, record { pi = zero_pi i; order = zero_order i }))
subtree-build (node s w o l x) ih fuel pre mid p q m n lo hi r ep em ei el eh k =
    let up : ltb lo hi ≡ true = unfold tree_size in lt→ltb lo hi (omega arith) in
    rw up (ih fuel pre mid p q m n lo hi r refl ep em ei el eh k)

pub builds : (t : Tree) → ((x : ℕ) → tree_times x t ≤ 1) → Builds t
unfolding Builds build found_split renumber
builds nil h fuel pre mid p q m n lo hi r e ep em ei el eh k = cc
builds (node s w o l x) h zero pre mid p q m n lo hi r e ep em ei el eh k = absurd (omega arith)
builds (node s w o l x) h (suc fuel) pre mid p q m n lo hi r e ep em ei el eh k =
    let size : tree_size (node s w o l x) ≡ 1 + tree_size l + tree_size x =
      unfold tree_size in refl in
    let pre_cons : pre ≡ p ++ (s ∷ (preorder l ++ (preorder x ++ q))) =
      ep ∙ (unfold preorder in ap (λ u. p ++ (s ∷ u)) (append_assoc (preorder l) (preorder x) q)) in
    let mid_cons : mid ≡ m ++ (inorder l ++ (s ∷ (inorder x ++ n))) =
      em ∙ (unfold inorder in ap (λ u. m ++ u) (append_assoc (inorder l) (s ∷ inorder x) n)) in
    let split : ℕ = lo + tree_size l in
    let one : once s s ≡ 1 = rw (==_refl s) refl in
    let unseen : times s (inorder l) ≡ 0 = omega (arith, times-inorder s l, h s, one) in
    let found : find_split (hi - lo) lo mid s ≡ ok (some split) = rw mid_cons (
      find_split-behind (hi - lo) m (inorder l) (inorder x ++ n) s lo el unseen
        (omega (arith, length-inorder l))
      ∙ ap (λ u. ok (some (lo + u))) (length-inorder l)) in
    let first : get_or pre r.pi 0 ≡ s =
      rw pre_cons (get_or-append p (preorder l ++ (preorder x ++ q)) s 0 r.pi ei) in
    let long : length pre ≡ length p + suc (length (preorder l ++ (preorder x ++ q))) =
      rw pre_cons (length-append p (s ∷ (preorder l ++ (preorder x ++ q)))) in
    let r1 : Reader = record { pi = r.pi + 1; order = r.order + 1 } in
    let r2 : Reader = record { pi = r1.pi + tree_size l; order = r1.order + tree_size l } in
    let ls =
      subtree-build l (builds l (λ y. omega (arith, h y))) fuel pre mid (p ++ (s ∷ []))
        (preorder x ++ q) m (s ∷ (inorder x ++ n)) lo split r1
        (pre_cons ∙ sym (append_assoc p (s ∷ []) (preorder l ++ (preorder x ++ q)))) mid_cons
        (omega (arith, length-append p (s ∷ []))) el refl (omega arith) in
    let rs =
      subtree-build x (builds x (λ y. omega (arith, h y))) fuel pre mid (p ++ (s ∷ preorder l)) q
        (m ++ (inorder l ++ (s ∷ []))) n (split + 1) hi r2
        (pre_cons ∙ sym (append_assoc p (s ∷ preorder l) (preorder x ++ q)))
        (mid_cons
          ∙ sym (
              append_assoc m (inorder l ++ (s ∷ [])) (inorder x ++ n)
              ∙ ap (λ u. m ++ u) (append_assoc (inorder l) (s ∷ []) (inorder x ++ n))))
        (omega (arith, length-append p (s ∷ preorder l), length-preorder l))
        (omega (
          arith,
          length-append m (inorder l ++ (s ∷ [])),
          length-append (inorder l) (s ∷ []),
          length-inorder l,
        ))
        (omega arith) (omega arith) in
    let guard : (leb hi lo || leb (length pre) r.pi) ≡ false = ground arith in
    let taken : r1.pi + tree_size l + tree_size x ≡ r.pi + tree_size (node s w o l x) =
      omega arith in
    let used : r1.order + tree_size l + tree_size x ≡ r.order + tree_size (node s w o l x) =
      omega arith in
    let inside : reads (r.pi + 1) pre ≡ ok tt = reads-eq (r.pi + 1) pre (omega arith) in
    rw (guard, inside, first, found, ls, rs)
      (λ i. ok (
        node s 0 r.order (renumber l (r.order + 1)) (renumber x (r.order + 1 + tree_size l)),
        record { pi = taken i; order = used i },
      ))
