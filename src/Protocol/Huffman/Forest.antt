-- ===== src/Protocol/Huffman/Forest.antt =====
-- The list of trees that `BuildHuffman` sorts and joins.
use rongta_f11_open.Base.{
  ℕ, zero, suc, ◌+◌, ◌≤◌, ◌≡◌, refl, ◌∙◌, ◌⊎◌, inl, inr, false, List, [], ◌∷◌, ◌++◌, arith, length,
  length-append, All, All-append, uint16, some, ok, Bool-cases, Option-cases,
}
use rongta_f11_open.Protocol.Huffman.{
  Tree, node, leaf, weight, Bits, less, insert_node, sort_nodes, join_first, join_all,
}
use rongta_f11_open.Protocol.Huffman.Codes.{
  IsFull, full_node, full-is_nil, find_code, find_code-node, tree_size,
}

abbrev pub AllFull : List Tree → Type 0
AllFull = All IsFull

-- A tree of the list has a code for `b`.
abbrev pub InTree : ℕ → Tree → Type 0
InTree b t = (p : Bits) × (find_code t b ≡ some p)

abbrev pub InForest : ℕ → List Tree → Type 0
InForest b [] = ⊥
InForest b (t ∷ ts) = InTree b t ⊎ InForest b ts

pub InForest-front : (b : ℕ) (ts us : List Tree) → InForest b ts → InForest b (ts ++ us)
InForest-front b [] us h = absurd h
InForest-front b (t ∷ ts) us (inl h) = inl h
InForest-front b (t ∷ ts) us (inr h) = inr (InForest-front b ts us h)

pub InForest-back : (b : ℕ) (ts us : List Tree) → InForest b us → InForest b (ts ++ us)
InForest-back b [] us h = h
InForest-back b (t ∷ ts) us h = inr (InForest-back b ts us h)

-- A list measured by a sum over its trees.
abbrev pub forest_size : List Tree → ℕ
forest_size [] = 0
forest_size (t ∷ ts) = tree_size t + forest_size ts

pub forest_size-append :
    (ts us : List Tree) → forest_size (ts ++ us) ≡ forest_size ts + forest_size us
forest_size-append [] us = omega arith
forest_size-append (t ∷ ts) us = omega (arith, forest_size-append ts us)

-- Insertion moves no tree out of the list.
module _ (x : Tree) where
  insert_node-AllFull : (ts : List Tree) → IsFull x → AllFull ts → AllFull (insert_node x ts)
  unfolding insert_node
  insert_node-AllFull [] hx h = (hx, tt)
  insert_node-AllFull (t ∷ ts) hx (ht, h) = elim (Bool-cases (less t x)) [
    | inl e ↦ rw e (ht, insert_node-AllFull ts hx h)
    | inr e ↦ rw e (hx, (ht, h))
  ]

  insert_node-InForest :
      (b : ℕ) (ts : List Tree) → InForest b (x ∷ ts) → InForest b (insert_node x ts)
  unfolding insert_node
  insert_node-InForest b [] h = h
  insert_node-InForest b (t ∷ ts) h = elim (Bool-cases (less t x)) [
    | inl e ↦ rw e (elim h [
      | inl hx ↦ inr (insert_node-InForest b ts (inl hx))
      | inr (inl ht) ↦ inl ht
      | inr (inr hts) ↦ inr (insert_node-InForest b ts (inr hts))
    ])
    | inr e ↦ rw e h
  ]

  insert_node-sizes :
      (ts : List Tree)
      → (length (insert_node x ts) ≡ suc (length ts))
        × (forest_size (insert_node x ts) ≡ tree_size x + forest_size ts)
  unfolding insert_node
  insert_node-sizes [] = (refl, refl)
  insert_node-sizes (t ∷ ts) =
      let (len, size) = insert_node-sizes ts in
      elim (Bool-cases (less t x)) [
        | inl e ↦ rw e (omega arith, omega arith)
        | inr e ↦ rw e (refl, refl)
      ]

sort_nodes-AllFull : (ts : List Tree) → AllFull ts → AllFull (sort_nodes ts)
unfolding sort_nodes
sort_nodes-AllFull [] h = tt
sort_nodes-AllFull (t ∷ ts) (ht, h) =
    insert_node-AllFull t (sort_nodes ts) ht (sort_nodes-AllFull ts h)

sort_nodes-InForest : (b : ℕ) (ts : List Tree) → InForest b ts → InForest b (sort_nodes ts)
unfolding sort_nodes
sort_nodes-InForest b [] h = h
sort_nodes-InForest b (t ∷ ts) (inl h) = insert_node-InForest t b (sort_nodes ts) (inl h)
sort_nodes-InForest b (t ∷ ts) (inr h) =
    insert_node-InForest t b (sort_nodes ts) (inr (sort_nodes-InForest b ts h))

sort_nodes-sizes :
    (ts : List Tree)
    → (length (sort_nodes ts) ≡ length ts) × (forest_size (sort_nodes ts) ≡ forest_size ts)
unfolding sort_nodes
sort_nodes-sizes [] = (refl, refl)
sort_nodes-sizes (t ∷ ts) =
    let (len, size) = sort_nodes-sizes ts in
    let (len', size') = insert_node-sizes t (sort_nodes ts) in (omega arith, omega arith)

-- What the loop keeps: full trees, and a single one has two subtrees.
abbrev pub IsJoinable : List Tree → Type 0
IsJoinable [] = ⊥
IsJoinable (t ∷ []) = IsFull t × (leaf t ≡ false)
IsJoinable (t ∷ u ∷ ts) = AllFull (t ∷ u ∷ ts)

-- One round of the loop: the two first trees become one at the end.
record Joined (ts us : List Tree) : Type 0 where
  joinable : IsJoinable us
  shorter : length us + 1 ≡ length ts
  size : forest_size us ≡ forest_size ts + 1
  codes : (b : ℕ) → InForest b ts → InForest b us

InTree-join :
    (b s w o : ℕ) {l : Tree} (r : Tree)
    → IsFull l
    → InTree b l ⊎ InTree b r
    → InTree b (node s w o l r)
InTree-join b s w o {l} r hl (inr (p, e)) = (1 ∷ p, find_code-node s w o r b hl ∙ rw e)
InTree-join b s w o {l} r hl (inl (p, e)) = elim (Option-cases (find_code r b)) [
  | inl absent ↦ (0 ∷ p, find_code-node s w o r b hl ∙ rw (absent, e))
  | inr (q, found) ↦ (1 ∷ q, find_code-node s w o r b hl ∙ rw found)
]

IsJoinable-last :
    (ts : List Tree) {t : Tree}
    → AllFull ts
    → IsFull t
    → leaf t ≡ false
    → IsJoinable (ts ++ (t ∷ []))
IsJoinable-last [] h ht inner = (ht, inner)
IsJoinable-last (u ∷ []) (hu, h) ht inner = (hu, (ht, tt))
IsJoinable-last (u ∷ v ∷ ts) (hu, (hv, h)) ht inner =
    (hu, (hv, All-append IsFull ts (_ ∷ []) h (ht, tt)))

join_first-Joined :
    (ts : List Tree) (s o : ℕ) → 2 ≤ length ts → AllFull ts → Joined ts (join_first ts s o)
unfolding join_first tree_size
join_first-Joined [] s o two h = absurd (omega arith)
join_first-Joined (a ∷ []) s o two h = absurd (omega arith)
join_first-Joined (a ∷ b ∷ ts) s o two (ha, (hb, h)) =
    let joined : Tree = node s (weight a + weight b) o a b in
    record {
      joinable =
          IsJoinable-last ts h (full_node s (weight a + weight b) o ha hb) (rw (full-is_nil ha));
      shorter = omega (arith, length-append ts (joined ∷ []));
      size = omega (arith, forest_size-append ts (joined ∷ []));
      codes = λ c. elim [
        | inl in_a ↦
            InForest-back c ts (joined ∷ [])
              (inl (InTree-join c s (weight a + weight b) o b ha (inl in_a)))
        | inr (inl in_b) ↦
            InForest-back c ts (joined ∷ [])
              (inl (InTree-join c s (weight a + weight b) o b ha (inr in_b)))
        | inr (inr in_ts) ↦ InForest-front c ts (joined ∷ []) in_ts
      ];
    }

join_sorted-Joined :
    (ts : List Tree) (s o : ℕ)
    → 2 ≤ length ts
    → AllFull ts
    → Joined ts (join_first (sort_nodes ts) s o)
join_sorted-Joined ts s o two h =
    let (len, size) = sort_nodes-sizes ts in
    let j = join_first-Joined (sort_nodes ts) s o (omega arith) (sort_nodes-AllFull ts h) in
    record {
      joinable = j.joinable;
      shorter = j.shorter ∙ len;
      size = omega (arith, j.size);
      codes = λ c m. j.codes c (sort_nodes-InForest c ts m);
    }

-- The tree that the loop ends with.
pub record IsJoinOf (ts : List Tree) (root : Tree) : Type 0 where
  pub full : IsFull root
  pub inner : leaf root ≡ false
  pub size : tree_size root + 1 ≡ forest_size ts + length ts
  pub codes : (b : ℕ) → InForest b ts → InTree b root

-- With fuel for each tree the loop ends, in one tree that has every code the list had.
pub join_all-IsJoinOf :
    (fuel : ℕ) (ts : List Tree) (s o : ℕ)
    → IsJoinable ts
    → length ts ≤ fuel
    → (root : Tree) × (join_all fuel ts s o ≡ ok root) × IsJoinOf ts root
unfolding join_all
join_all-IsJoinOf fuel [] s o h k = absurd h
join_all-IsJoinOf fuel (t ∷ []) s o (full, inner) k = (
  t,
  refl,
  record {
    full = full;
    inner = inner;
    size = omega arith;
    codes = λ b. elim [ inl m ↦ m | inr m ↦ absurd m ];
  },
)
join_all-IsJoinOf zero (t ∷ u ∷ ts) s o h k = absurd (omega arith)
join_all-IsJoinOf (suc fuel) (t ∷ u ∷ ts) s o h k =
    let j = join_sorted-Joined (t ∷ u ∷ ts) s o (omega arith) h in
    let (root, e, r) =
      join_all-IsJoinOf fuel (join_first (sort_nodes (t ∷ u ∷ ts)) s o) (uint16 (s + 1)) (o + 1)
        j.joinable (omega (arith, j.shorter)) in
    (
      root,
      e,
      record {
        full = r.full;
        inner = r.inner;
        size = omega (arith, r.size, j.size, j.shorter);
        codes = λ b m. r.codes b (j.codes b m);
      },
    )
