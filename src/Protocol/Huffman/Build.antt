-- ===== src/Protocol/Huffman/Build.antt =====
-- `BuildHuffman` as a whole.
use rongta_f11_open.Base.{
  ℕ, zero, suc, ◌+◌, ◌≤◌, ◌<◌, ◌≡◌, refl, inl, inr, false, ltb, ◌==◌, if◌then◌else◌, List, [], ◌∷◌,
  arith, length, length-append, All, All-append, Bytes, AllBytes, ok, lt→ltb, Bool-cases,
}
use rongta_f11_open.Protocol.Huffman.{
  join_all, Tree, nil, node, leaf, symbol, Huffman, Pool, counts, collect_one, collect, pad_nodes,
  initial_pool, build_huffman, new_huffman, encode,
}
use rongta_f11_open.Protocol.Huffman.Codes.{
  IsFull, full_leaf, full_node, find_code, tree_size, new_huffman-full,
}
use rongta_f11_open.Protocol.Huffman.Forest.{
  AllFull, InTree, InForest, InForest-front, InForest-back, forest_size, forest_size-append,
  IsJoinable, join_all-IsJoinOf,
}
use rongta_f11_open.Protocol.Huffman.RoundTrip.{IsCoder, HasCode, decode-encode}
use rongta_f11_open.Protocol.Huffman.Decode.{decode}

-- The nodes collected are leaves, as many as the forest's size.
pub record IsCollected (p : Pool) : Type 0 where
  pub full : AllFull p.nodes
  pub size : forest_size p.nodes ≡ length p.nodes

leaf-InTree : (s w o : ℕ) → InTree s (node s w o nil nil)
unfolding find_code
leaf-InTree s w o = ([], ground arith)

collect_one-IsCollected :
    (i c : ℕ) {p : Pool} → i < 256 → IsCollected p → IsCollected (collect_one i c p)
unfolding collect_one tree_size
collect_one-IsCollected i c {p} hi h = elim (Bool-cases (ltb 0 c)) [
  | inl pos ↦
      let t : Tree = node i c p.order_next nil nil in
      rw pos (record {
        full = All-append IsFull p.nodes (t ∷ []) h.full (full_leaf i c p.order_next hi, tt);
        size =
            omega
              (arith, h.size, length-append p.nodes (t ∷ []), forest_size-append p.nodes (t ∷ []));
      })
  | inr absent ↦ rw absent h
]

collect_one-length : (i c : ℕ) (p : Pool) → length (collect_one i c p).nodes ≤ length p.nodes + 1
unfolding collect_one
collect_one-length i c p =
    ground (arith, length-append p.nodes (node i c p.order_next nil nil ∷ []))

collect_one-keeps :
    (b i c : ℕ) (p : Pool) → InForest b p.nodes → InForest b (collect_one i c p).nodes
unfolding collect_one
collect_one-keeps b i c p h = elim (Bool-cases (ltb 0 c)) [
  | inl pos ↦ rw pos (InForest-front b p.nodes (node i c p.order_next nil nil ∷ []) h)
  | inr absent ↦ rw absent h
]

collect_one-finds : (i c : ℕ) (p : Pool) → 0 < c → InForest i (collect_one i c p).nodes
unfolding collect_one
collect_one-finds i c p pos = rw (lt→ltb 0 c pos) (
    InForest-back i p.nodes (node i c p.order_next nil nil ∷ [])
      (inl (leaf-InTree i c p.order_next)))

collect-keeps :
    (n b i : ℕ) (cs : ℕ → ℕ) (p : Pool) → InForest b p.nodes → InForest b (collect n i cs p).nodes
unfolding collect
collect-keeps zero b i cs p h = h
collect-keeps (suc n) b i cs p h =
    collect-keeps n b (i + 1) cs (collect_one i (cs i) p) (collect_one-keeps b i (cs i) p h)

collect-finds :
    (n b i : ℕ) (cs : ℕ → ℕ) (p : Pool)
    → i ≤ b
    → b < i + n
    → 0 < cs b
    → InForest b (collect n i cs p).nodes
unfolding collect
collect-finds zero b i cs p lo hi pos = absurd (omega arith)
collect-finds (suc n) b i cs p lo hi pos = elim (Bool-cases (b == i)) [
  | inl here ↦
      let same : i ≡ b = ground arith in
      rw same
        (collect-keeps n b (b + 1) cs (collect_one b (cs b) p) (collect_one-finds b (cs b) p pos))
  | inr later ↦
      collect-finds n b (i + 1) cs (collect_one i (cs i) p) (ground arith) (omega arith) pos
]

pub collect-IsCollected :
    (n i : ℕ) (cs : ℕ → ℕ) {p : Pool}
    → i + n ≤ 256
    → IsCollected p
    → IsCollected (collect n i cs p) × (length (collect n i cs p).nodes ≤ length p.nodes + n)
unfolding collect
collect-IsCollected zero i cs hi h = (h, omega arith)
collect-IsCollected (suc n) i cs {p} hi h =
    let (k, len) =
      collect-IsCollected n (i + 1) cs (omega arith)
        (collect_one-IsCollected i (cs i) (omega arith) h) in
    (k, omega (arith, collect_one-length i (cs i) p))

-- Behind the padding there are two leaves at least.
pad_nodes-sizes :
    (ts : List Tree) (o : ℕ)
    → AllFull ts
    → forest_size ts ≡ length ts
    → length ts ≤ 256
    → IsJoinable (pad_nodes ts o).nodes
      × (forest_size (pad_nodes ts o).nodes ≡ length (pad_nodes ts o).nodes)
      × (length (pad_nodes ts o).nodes ≤ 256)
      × (2 ≤ length (pad_nodes ts o).nodes)
unfolding pad_nodes tree_size
pad_nodes-sizes [] o h e k = (
  (full_leaf 0 1 0 (omega arith), (full_leaf 1 0 1 (omega arith), tt)),
  omega arith,
  omega arith,
  omega arith,
)
pad_nodes-sizes (t ∷ []) o (ht, h) e k = (
  (ht, (full_leaf (if symbol t == 0 then 1 else 0) 0 o (ground arith), tt)),
  omega arith,
  omega arith,
  omega arith,
)
pad_nodes-sizes (t ∷ u ∷ ts) o h e k = (h, e, k, omega arith)

pad_nodes-keeps :
    (b : ℕ) (ts : List Tree) (o : ℕ) → InForest b ts → InForest b (pad_nodes ts o).nodes
unfolding pad_nodes
pad_nodes-keeps b [] o h = absurd h
pad_nodes-keeps b (t ∷ []) o (inl h) = inl h
pad_nodes-keeps b (t ∷ []) o (inr h) = absurd h
pad_nodes-keeps b (t ∷ u ∷ ts) o h = h

pub empty_pool-IsCollected : IsCollected (record { nodes = []; order_next = 0 })
empty_pool-IsCollected = record { full = tt; size = refl }

-- The list that the loop of `BuildHuffman` starts from.
record IsInitial (bs : Bytes) (ts : List Tree) : Type 0 where
  joinable : IsJoinable ts
  size : forest_size ts ≡ length ts
  small : length ts ≤ 256
  codes : (b : ℕ) → b < 256 → 0 < counts bs b → InForest b ts

initial_pool-IsInitial : (bs : Bytes) → IsInitial bs (initial_pool bs).nodes
unfolding initial_pool
initial_pool-IsInitial bs =
    let start : Pool = record { nodes = []; order_next = 0 } in
    let p : Pool = collect 256 0 (counts bs) start in
    let (c, len) = collect-IsCollected 256 0 (counts bs) (omega arith) empty_pool-IsCollected in
    let (j, size, small, two) = pad_nodes-sizes p.nodes p.order_next c.full c.size (omega arith) in
    record {
      joinable = j;
      size = size;
      small = small;
      codes = λ b hb pos.
          pad_nodes-keeps b p.nodes p.order_next
            (collect-finds 256 b 0 (counts bs) start (omega arith) (omega arith) pos);
    }

-- What `BuildHuffman` returns: a coder with a code for each byte that was counted.
pub record IsBuilt (bs : Bytes) (h : Huffman) : Type 0 where
  pub coder : IsCoder h
  pub nodes_small : h.node_count ≤ 511
  pub count_right : h.node_count ≡ tree_size h.root
  pub codes : (b : ℕ) → b < 256 → 0 < counts bs b → HasCode h b
  pub pool_small : length (initial_pool bs).nodes ≤ 256
  pub joined :
      join_all
        (length (initial_pool bs).nodes)
        (initial_pool bs).nodes
        256
        (initial_pool bs).order_next
      ≡ ok h.root

pub new_huffman-IsCoder :
    {root : Tree}
    → IsFull root
    → leaf root ≡ false
    → (h : Huffman) × (new_huffman root ≡ ok h)
      × IsCoder h
      × (h.root ≡ root)
      × (h.node_count ≡ tree_size root)
new_huffman-IsCoder (full_leaf s w o h) inner = cc
new_huffman-IsCoder (full_node s w o hl hr) inner = (
  _,
  new_huffman-full s w o hl hr,
  record { full = full_node s w o hl hr; inner = inner; table = λ b. refl },
  refl,
  refl,
)

pub build_huffman-IsBuilt : (bs : Bytes) → (h : Huffman) × (build_huffman bs ≡ ok h) × IsBuilt bs h
unfolding build_huffman
build_huffman-IsBuilt bs =
    let p : Pool = initial_pool bs in
    let i = initial_pool-IsInitial bs in
    let (root, e, j) =
      join_all-IsJoinOf (length p.nodes) p.nodes 256 p.order_next i.joinable (omega arith) in
    let (h, made, coder, at, count) = new_huffman-IsCoder j.full j.inner in
    (
      h,
      rw e made,
      record {
        coder = coder;
        nodes_small = omega (arith, j.size, i.size, i.small);
        count_right = rw at count;
        codes = λ b hb pos. rw at (j.codes b (i.codes b hb pos));
        pool_small = i.small;
        joined = rw at e;
      },
    )

pub HasCode-row :
    {all : Bytes} {h : Huffman}
    → IsBuilt all h
    → (row : Bytes) → AllBytes row
    → All (λ b. 0 < counts all b) row
    → All (HasCode h) row
HasCode-row k [] hs pos = tt
HasCode-row k (b ∷ row) (hb, hs) (pb, pos) = (k.codes b hb pb, HasCode-row k row hs pos)

-- For any data `all`, `BuildHuffman` returns a coder (it neither panics nor loops on) of 511 nodes at
-- most, and decoding an encoded row gives the row back if each byte of the row occurs in `all`.
pub build_huffman-round_trip :
    (all row : Bytes)
    → AllBytes row
    → All (λ b. 0 < counts all b) row
    → (h : Huffman) × (build_huffman all ≡ ok h)
      × (h.node_count ≤ 511)
      × (decode h (encode h row).0 (encode h row).1 (length row) ≡ ok row)
build_huffman-round_trip all row hs pos =
    let (h, e, k) = build_huffman-IsBuilt all in
    (h, e, k.nodes_small, decode-encode h row k.coder (HasCode-row k row hs pos))
