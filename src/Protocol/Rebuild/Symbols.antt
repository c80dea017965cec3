-- ===== src/Protocol/Rebuild/Symbols.antt =====
-- How often a symbol stands in a list, a tree and a forest.
use rongta_f11_open.Base.{
  ℕ, zero, suc, ◌+◌, ◌≤◌, ◌<◌, ◌≡◌, refl, ap, ◌∙◌, inl, inr, List, [], ◌∷◌, ◌++◌, ◌==◌,
  if◌then◌else◌, length, Bytes, uint16, ok, arith, Bool-cases,
}
use rongta_f11_open.Protocol.Huffman.{
  Tree, nil, node, symbol, weight, preorder, inorder, Pool, less, insert_node, sort_nodes,
  join_first, join_all, collect_one, collect, pad_nodes, initial_pool, counts,
}
use rongta_f11_open.Protocol.Huffman.Forest.{forest_size}
use rongta_f11_open.Protocol.Huffman.Codes.{tree_size}
use rongta_f11_open.Protocol.Huffman.Build.{collect-IsCollected, empty_pool-IsCollected}

abbrev pub once : ℕ → ℕ → ℕ
once x y = if x == y then 1 else 0

abbrev pub times : ℕ → List ℕ → ℕ
times x [] = 0
times x (y ∷ ys) = once x y + times x ys

abbrev pub tree_times : ℕ → Tree → ℕ
tree_times x nil = 0
tree_times x (node s w o l r) = once x s + tree_times x l + tree_times x r

abbrev pub forest_times : ℕ → List Tree → ℕ
forest_times x [] = 0
forest_times x (t ∷ ts) = tree_times x t + forest_times x ts

pub times-append : (x : ℕ) (xs ys : List ℕ) → times x (xs ++ ys) ≡ times x xs + times x ys
times-append x [] ys = omega arith
times-append x (y ∷ xs) ys = omega (arith, times-append x xs ys)

pub forest_times-append :
    (x : ℕ) (ts us : List Tree) → forest_times x (ts ++ us) ≡ forest_times x ts + forest_times x us
forest_times-append x [] us = omega arith
forest_times-append x (t ∷ ts) us = omega (arith, forest_times-append x ts us)

pub times-preorder : (x : ℕ) (t : Tree) → times x (preorder t) ≡ tree_times x t
unfolding preorder
times-preorder x nil = refl
times-preorder x (node s w o l r) =
    omega (arith, times-append x (preorder l) (preorder r), times-preorder x l, times-preorder x r)

pub times-inorder : (x : ℕ) (t : Tree) → times x (inorder t) ≡ tree_times x t
unfolding inorder
times-inorder x nil = refl
times-inorder x (node s w o l r) =
    omega (arith, times-append x (inorder l) (s ∷ inorder r), times-inorder x l, times-inorder x r)

insert_node-times :
    (x : ℕ) (t : Tree) (ts : List Tree)
    → forest_times x (insert_node t ts) ≡ tree_times x t + forest_times x ts
unfolding insert_node
insert_node-times x t [] = refl
insert_node-times x t (u ∷ ts) = elim (Bool-cases (less u t)) [
  | inl e ↦ rw e (omega (arith, insert_node-times x t ts))
  | inr e ↦ rw e
]

sort_nodes-times : (x : ℕ) (ts : List Tree) → forest_times x (sort_nodes ts) ≡ forest_times x ts
unfolding sort_nodes
sort_nodes-times x [] = refl
sort_nodes-times x (t ∷ ts) =
    omega (arith, insert_node-times x t (sort_nodes ts), sort_nodes-times x ts)

-- The symbols of a forest below `s` are all different, and there are none from `s` on.
pub record IsFresh (s : ℕ) (ts : List Tree) : Type 0 where
  pub distinct : (x : ℕ) → forest_times x ts ≤ 1
  pub below : (x : ℕ) → s ≤ x → forest_times x ts ≡ 0

join_first-times :
    (x : ℕ) (ts : List Tree) (s o : ℕ)
    → 2 ≤ length ts
    → forest_times x (join_first ts s o) ≡ once x s + forest_times x ts
unfolding join_first
join_first-times x [] s o h = absurd (omega arith)
join_first-times x (a ∷ []) s o h = absurd (omega arith)
join_first-times x (a ∷ b ∷ ts) s o h =
    omega (arith, forest_times-append x ts (node s (weight a + weight b) o a b ∷ []))

length-insert_node : (t : Tree) (ts : List Tree) → length (insert_node t ts) ≡ suc (length ts)
unfolding insert_node
length-insert_node t [] = refl
length-insert_node t (u ∷ ts) = elim (Bool-cases (less u t)) [
  | inl e ↦ rw e (ap suc (length-insert_node t ts))
  | inr e ↦ rw e
]

length-sort_nodes : (ts : List Tree) → length (sort_nodes ts) ≡ length ts
unfolding sort_nodes
length-sort_nodes [] = refl
length-sort_nodes (t ∷ ts) = length-insert_node t (sort_nodes ts) ∙ ap suc (length-sort_nodes ts)

-- The joined tree's symbols are all different and fit 16 bits.
pub join_all-IsFresh :
    (fuel : ℕ) (ts : List Tree) (s o : ℕ) {root : Tree}
    → IsFresh s ts
    → s + fuel < 65536
    → join_all fuel ts s o ≡ ok root
    → ((x : ℕ) → tree_times x root ≤ 1) × ((x : ℕ) → 65536 ≤ x → tree_times x root ≡ 0)
unfolding join_all
join_all-IsFresh fuel [] s o h k e = cc
join_all-IsFresh fuel (t ∷ []) s o {root} h k e =
    let same : t ≡ root = ground arith in
    rw (← same) (λ x. omega (arith, h.distinct x), λ x big. omega (arith, h.below x (omega arith)))
join_all-IsFresh zero (t ∷ u ∷ ts) s o h k e = cc
join_all-IsFresh (suc fuel) (t ∷ u ∷ ts) s o h k e =
    let sorted : List Tree = sort_nodes (t ∷ u ∷ ts) in
    let joined : (x : ℕ)
        → forest_times x (join_first sorted s o) ≡ once x s + forest_times x (t ∷ u ∷ ts) =
      λ x.
        join_first-times x sorted s o (omega (arith, length-sort_nodes (t ∷ u ∷ ts)))
        ∙ ap (λ n. once x s + n) (sort_nodes-times x (t ∷ u ∷ ts)) in
    let next : uint16 (s + 1) ≡ s + 1 = omega arith in
    join_all-IsFresh fuel (join_first sorted s o) (uint16 (s + 1)) (o + 1)
      (record {
        distinct = λ x. ground (arith, joined x, h.distinct x, h.below x);
        below = λ x big. ground (arith, joined x, h.below x);
      })
      (omega arith) e

collect_one-IsFresh :
    (i c : ℕ) (p : Pool) → IsFresh i p.nodes → IsFresh (i + 1) (collect_one i c p).nodes
unfolding collect_one
collect_one-IsFresh i c p h =
    let t : Tree = node i c p.order_next nil nil in
    record {
      distinct =
          λ x. ground (arith, forest_times-append x p.nodes (t ∷ []), h.distinct x, h.below x);
      below = λ x big. ground (arith, forest_times-append x p.nodes (t ∷ []), h.below x);
    }

collect-IsFresh :
    (n i : ℕ) (cs : ℕ → ℕ) (p : Pool) → IsFresh i p.nodes → IsFresh (i + n) (collect n i cs p).nodes
unfolding collect
collect-IsFresh zero i cs p h = let same : i ≡ i + 0 = omega arith in rw (← same) h
collect-IsFresh (suc n) i cs p h =
    let same : i + 1 + n ≡ i + suc n = omega arith in
    rw (← same)
      (collect-IsFresh n (i + 1) cs (collect_one i (cs i) p) (collect_one-IsFresh i (cs i) p h))

-- A tree of one node has its own symbol alone.
leaf-times : (x : ℕ) (t : Tree) → tree_size t ≤ 1 → tree_times x t ≤ once x (symbol t)
unfolding tree_size
leaf-times x nil h = omega arith
leaf-times x (node s w o nil nil) h = omega arith
leaf-times x (node s w o (node s1 w1 o1 l1 r1) r) h = absurd (omega arith)
leaf-times x (node s w o nil (node s1 w1 o1 l1 r1)) h = absurd (omega arith)

pad_nodes-IsFresh :
    (ts : List Tree) (o : ℕ)
    → forest_size ts ≡ length ts
    → IsFresh 256 ts
    → IsFresh 256 (pad_nodes ts o).nodes
unfolding pad_nodes
pad_nodes-IsFresh [] o e h = record { distinct = λ x. ground arith; below = λ x big. ground arith }
pad_nodes-IsFresh (t ∷ []) o e h = record {
  distinct = λ x. ground (arith, leaf-times x t (omega arith), h.distinct x);
  below = λ x big. ground (arith, h.below x);
}
pad_nodes-IsFresh (t ∷ u ∷ ts) o e h = h

pub initial_pool-IsFresh : (bs : Bytes) → IsFresh 256 (initial_pool bs).nodes
unfolding initial_pool
initial_pool-IsFresh bs =
    let start : Pool = record { nodes = []; order_next = 0 } in
    let p : Pool = collect 256 0 (counts bs) start in
    let (c, len) = collect-IsCollected 256 0 (counts bs) (omega arith) empty_pool-IsCollected in
    pad_nodes-IsFresh p.nodes p.order_next c.size (
      collect-IsFresh 256 0 (counts bs) start
        (record { distinct = λ x. omega arith; below = λ x big. refl }))
