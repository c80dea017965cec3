-- ===== src/Protocol/Rebuild/RoundTrip.antt =====
-- `treeFrom` behind `SerializedTraversals`.
use rongta_f11_open.Base.{
  ℕ, ◌+◌, ◌*◌, ◌/◌, ◌%◌, ◌≤◌, ◌<◌, ◌≡◌, refl, sym, ap, ◌∙◌, true, false, not, ◌||◌, [], ◌∷◌, ◌++◌,
  ltb, ◌==◌, length, length-append, append-nil, Bytes, All, AllBytes, ok, arith, ==_refl,
}
use rongta_f11_open.Protocol.Huffman.{
  Tree, nil, node, is_nil, leaf, Huffman, new_huffman, preorder, inorder, put_words,
  serialized_traversals, build_huffman, encode, code_bits, counts, initial_pool,
}
use rongta_f11_open.Protocol.Huffman.Decode.{decode}
use rongta_f11_open.Protocol.Huffman.Codes.{
  IsFull, full_leaf, full_node, full-is_nil, tree_size, find_code, place,
}
use rongta_f11_open.Protocol.Huffman.RoundTrip.{IsCoder, HasCode, decode-encode}
use rongta_f11_open.Protocol.Huffman.Build.{
  IsBuilt, build_huffman-IsBuilt, new_huffman-IsCoder, HasCode-row,
}
use rongta_f11_open.Protocol.Rebuild.{
  words_from, has_repeats, all_in, build, built_or_traversal, validate, tree_from,
}
use rongta_f11_open.Protocol.Rebuild.Symbols.{
  tree_times, times-preorder, times-inorder, join_all-IsFresh, initial_pool-IsFresh,
}
use rongta_f11_open.Protocol.Rebuild.Words.{
  length-put_words, put_words-append, words_from-put_words, has_repeats_once, all_in-times,
}
use rongta_f11_open.Protocol.Rebuild.Build.{
  renumber, builds, Builds, length-preorder, length-inorder,
}

renumber-IsFull : {t : Tree} (n : ℕ) → IsFull t → IsFull (renumber t n)
unfolding renumber
renumber-IsFull n (full_leaf s w o h) = full_leaf s 0 n h
renumber-IsFull n (full_node s w o {l} {r} hl hr) =
    full_node s 0 n (renumber-IsFull (n + 1) hl) (renumber-IsFull (n + 1 + tree_size l) hr)

renumber-is_nil : (t : Tree) (n : ℕ) → is_nil (renumber t n) ≡ is_nil t
unfolding renumber
renumber-is_nil nil n = refl
renumber-is_nil (node s w o l r) n = refl

renumber-leaf : (t : Tree) (n : ℕ) → leaf (renumber t n) ≡ leaf t
unfolding renumber
renumber-leaf nil n = refl
renumber-leaf (node s w o l r) n =
    rw (renumber-is_nil l (n + 1), renumber-is_nil r (n + 1 + tree_size l)) refl

renumber-tree_size : (t : Tree) (n : ℕ) → tree_size (renumber t n) ≡ tree_size t
unfolding renumber tree_size
renumber-tree_size nil n = refl
renumber-tree_size (node s w o l r) n =
    omega (arith, renumber-tree_size l (n + 1), renumber-tree_size r (n + 1 + tree_size l))

renumber-find_code : (t : Tree) (n b : ℕ) → find_code (renumber t n) b ≡ find_code t b
unfolding renumber find_code
renumber-find_code nil n b = refl
renumber-find_code (node s w o l r) n b =
    rw
      (
        renumber-is_nil l (n + 1),
        renumber-is_nil r (n + 1 + tree_size l),
        renumber-find_code l (n + 1) b,
        renumber-find_code r (n + 1 + tree_size l) b,
      )
      refl

validate_full : {t : Tree} → IsFull t → validate t ≡ ok tt
unfolding validate
validate_full (full_leaf s w o h) = ground arith
validate_full (full_node s w o hl hr) =
    rw (full-is_nil hl, full-is_nil hr, validate_full hl, validate_full hr) refl

-- A tree that `treeFrom` can read: full, not too large, and its symbols differ and fit 16 bits.
record IsReadable (t : Tree) : Type 0 where
  full : IsFull t
  small : tree_size t ≤ 511
  distinct : (x : ℕ) → tree_times x t ≤ 1
  words : (x : ℕ) → 65536 ≤ x → tree_times x t ≡ 0

full-size : {t : Tree} → IsFull t → 0 < tree_size t
unfolding tree_size
full-size (full_leaf s w o h) = omega arith
full-size (full_node s w o hl hr) = omega arith

build_all :
    {t : Tree}
    → IsReadable t
    → build
        (tree_size t + 1)
        (preorder t)
        (inorder t)
        0
        (tree_size t)
        (record { pi = 0; order = 0 })
      ≡ ok (renumber t 0, record { pi = tree_size t; order = tree_size t })
unfolding Builds
build_all {t} k =
    let plus : 0 + tree_size t ≡ tree_size t = omega arith in
    builds t k.distinct (tree_size t + 1) (preorder t) (inorder t) [] [] [] [] 0 (tree_size t)
      (record { pi = 0; order = 0 }) (full-is_nil k.full) (sym (append-nil (preorder t)))
      (sym (append-nil (inorder t))) refl refl (sym plus) (omega arith)
    ∙ ap (λ u. ok (renumber t 0, record { pi = u; order = u })) plus

tree_from-traversals :
    {t : Tree}
    → IsReadable t
    → tree_from (put_words (preorder t ++ inorder t)) ≡ new_huffman (renumber t 0)
unfolding tree_from built_or_traversal
tree_from-traversals {t} k =
    let bs : Bytes = put_words (preorder t ++ inorder t) in
    let n : ℕ = tree_size t in
    let parts : bs ≡ put_words (preorder t) ++ put_words (inorder t) =
      put_words-append (preorder t) (inorder t) in
    let len : length bs ≡ 4 * n = omega (
      arith,
      length-put_words (preorder t ++ inorder t),
      length-append (preorder t) (inorder t),
      length-preorder t,
      length-inorder t,
    ) in
    let quarter : length bs / 4 ≡ n = omega arith in
    let pre : words_from n 0 bs ≡ ok (preorder t) =
      sym (ap (λ m. words_from m 0 bs) (length-preorder t))
      ∙ ap (λ u. words_from (length (preorder t)) 0 u) parts
      ∙ words_from-put_words [] (preorder t) (put_words (inorder t)) 0 refl
          (λ x big. times-preorder x t ∙ k.words x big) in
    let mid : words_from n (n * 2) bs ≡ ok (inorder t) =
      sym (ap (λ m. words_from m (n * 2) bs) (length-inorder t))
      ∙ ap (λ u. words_from (length (inorder t)) (n * 2) u)
          (parts ∙ ap (λ u. put_words (preorder t) ++ u) (sym (append-nil (put_words (inorder t)))))
      ∙ words_from-put_words (put_words (preorder t)) (inorder t) [] (n * 2)
          (omega (arith, length-put_words (preorder t), length-preorder t))
          (λ x big. times-inorder x t ∙ k.words x big) in
    let sized : (length bs == 0 || not (length bs % 4 == 0)) ≡ false =
      ground (arith, full-size k.full) in
    let fits : ltb 511 n ≡ false = ground (arith, k.small) in
    let once_pre : has_repeats [] (preorder t) ≡ false =
      has_repeats_once [] (preorder t) (λ x. omega (arith, times-preorder x t, k.distinct x)) in
    let once_mid : has_repeats [] (inorder t) ≡ false =
      has_repeats_once [] (inorder t) (λ x. omega (arith, times-inorder x t, k.distinct x)) in
    let even : (length (preorder t) == length (inorder t)) ≡ true =
      rw (length-preorder t, length-inorder t, ==_refl (tree_size t)) refl in
    let both : all_in (preorder t) (inorder t) ≡ true =
      all_in-times (preorder t) (inorder t)
        (λ x. omega (arith, times-preorder x t, times-inorder x t)) in
    let whole : (n == n) ≡ true = ==_refl n in
    rw
      (
        quarter,
        pre,
        mid,
        sized,
        fits,
        once_pre,
        once_mid,
        even,
        both,
        build_all k,
        whole,
        validate_full (renumber-IsFull 0 k.full),
      )
      refl

built-IsReadable : {bs : Bytes} {h : Huffman} → IsBuilt bs h → IsReadable h.root
built-IsReadable {bs} {h} k =
    let p = initial_pool bs in
    let (distinct, words) =
      join_all-IsFresh (length p.nodes) p.nodes 256 p.order_next (initial_pool-IsFresh bs)
        (omega (arith, k.pool_small)) k.joined in
    record {
      full = k.coder.full;
      small = omega (arith, k.nodes_small, k.count_right);
      distinct = distinct;
      words = words;
    }

-- `treeFrom` makes a coder of the same codes from what `SerializedTraversals` writes of a built one.
pub record IsCopy (h h' : Huffman) : Type 0 where
  coder : IsCoder h'
  same_codes : (b : ℕ) → h'.codes b ≡ h.codes b
  same_count : h'.node_count ≡ h.node_count
  same_tree : h'.root ≡ renumber h.root 0

pub tree_from-IsCopy :
    {bs : Bytes} {h : Huffman}
    → IsBuilt bs h
    → (h' : Huffman) × (tree_from (serialized_traversals h) ≡ ok h') × IsCopy h h'
unfolding serialized_traversals
tree_from-IsCopy {bs} {h} k =
    let t : Tree = h.root in
    let (h', made, coder, at, count) =
      new_huffman-IsCoder (renumber-IsFull 0 k.coder.full) (renumber-leaf t 0 ∙ k.coder.inner) in
    (
      h',
      tree_from-traversals (built-IsReadable k) ∙ made,
      record {
        coder = coder;
        same_codes = λ b.
            coder.table b
            ∙ ap (λ u. place (find_code u b) [] []) at
            ∙ ap (λ u. place u [] []) (renumber-find_code t 0 b)
            ∙ sym (k.coder.table b);
        same_count = count ∙ renumber-tree_size t 0 ∙ sym k.count_right;
        same_tree = at;
      },
    )

copy-HasCode : {h h' : Huffman} → IsCopy h h' → (b : ℕ) → HasCode h b → HasCode h' b
copy-HasCode {h} {h'} c b (p, found) =
    (p, ap (λ u. find_code u b) c.same_tree ∙ renumber-find_code h.root 0 b ∙ found)

copy-HasCodes :
    {h h' : Huffman} → IsCopy h h' → (row : Bytes) → All (HasCode h) row → All (HasCode h') row
copy-HasCodes c [] hs = tt
copy-HasCodes c (b ∷ row) (hb, hs) = (copy-HasCode c b hb, copy-HasCodes c row hs)

code_bits-ext :
    (h h' : Huffman)
    → ((b : ℕ) → h'.codes b ≡ h.codes b)
    → (row : Bytes) → code_bits h' row ≡ code_bits h row
unfolding code_bits
code_bits-ext h h' e [] = refl
code_bits-ext h h' e (b ∷ row) = rw (e b, code_bits-ext h h' e row) refl

encode-ext :
    (h h' : Huffman)
    → ((b : ℕ) → h'.codes b ≡ h.codes b)
    → (row : Bytes) → encode h' row ≡ encode h row
unfolding encode
encode-ext h h' e row = rw (code_bits-ext h h' e row) refl

-- The copy decodes what the original encoded.
pub copy_decodes :
    {h h' : Huffman}
    → IsCopy h h'
    → (row : Bytes) → All (HasCode h) row
    → decode h' (encode h row).0 (encode h row).1 (length row) ≡ ok row
copy_decodes {h} {h'} c row has =
    ap (λ u. decode h' u.0 u.1 (length row)) (sym (encode-ext h h' c.same_codes row))
    ∙ decode-encode h' row c.coder (copy-HasCodes c row has)

-- For any data `all`, `BuildHuffman` returns a coder `h`, `treeFrom` returns a coder `h'` from the
-- serialized traversals of `h` that has the same node count, and decoding with `h'` a row encoded with
-- `h` gives the row back if each byte of the row occurs in `all`.
pub tree_from-serialized_traversals :
    (all row : Bytes)
    → AllBytes row
    → All (λ b. 0 < counts all b) row
    → (h : Huffman) × (h' : Huffman) × (build_huffman all ≡ ok h)
      × (tree_from (serialized_traversals h) ≡ ok h')
      × (h'.node_count ≡ h.node_count)
      × (decode h' (encode h row).0 (encode h row).1 (length row) ≡ ok row)
tree_from-serialized_traversals all row hs pos =
    let (h, e, k) = build_huffman-IsBuilt all in
    let (h', e', c) = tree_from-IsCopy k in
    (h, h', e, e', c.same_count, copy_decodes c row (HasCode-row k row hs pos))
