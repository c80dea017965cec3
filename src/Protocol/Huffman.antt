-- ===== src/Protocol/Huffman.antt =====
-- `node`, `Huffman`, `newHuffman`, `BuildHuffman` and the row coder `Encode` of
-- Appliance/internal/protocol/protocol.go.
pub mod Decode
pub mod Pack
pub mod Codes
pub mod Follow
pub mod RoundTrip
pub mod Forest
pub mod Build
pub mod Packed
use rongta_f11_open.Base.{
  ℕ, zero, suc, ◌+◌, ◌-◌, ◌*◌, ◌/◌, ◌%◌, Bool, true, false, ◌&&◌, ◌||◌, List, [], ◌∷◌, ◌++◌, ltb,
  leb, ◌==◌, if◌then◌else◌, length, get_or, set, replicate, Bytes, byte, uint16, put_uint16, Result,
  ok, err, new, panic, stuck, ◌>>=◌, ◌>>◌, fail_if,
}

-- A `*node`: `nil`, or a node with its two pointers. Trees share no nodes, so a pointer is its tree.
pub data Tree : Type 0 where
  nil : Tree
  node : (symbol weight order : ℕ) (left right : Tree) → Tree

abbrev pub is_nil : Tree → Bool
is_nil nil = true
is_nil (node s w o l r) = false

-- The fields of a node. The model reads none of `nil`, where the source would panic.
abbrev pub symbol : Tree → ℕ
symbol nil = 0
symbol (node s w o l r) = s

abbrev pub weight : Tree → ℕ
weight nil = 0
weight (node s w o l r) = w

abbrev pub order : Tree → ℕ
order nil = 0
order (node s w o l r) = o

abbrev pub left : Tree → Tree
left nil = nil
left (node s w o l r) = l

abbrev pub right : Tree → Tree
right nil = nil
right (node s w o l r) = r

abbrev pub leaf : Tree → Bool
leaf t = is_nil (left t) && is_nil (right t)

abbrev pub Bits : Type 0
Bits = List ℕ

-- `codes` is the array of 256 bit strings, all empty at first.
pub record Huffman : Type 0 where
  pub root : Tree
  pub codes : ℕ → Bits
  pub node_count : ℕ

-- `h.codes[s] = bits`
abbrev pub put_code : (ℕ → Bits) → ℕ → Bits → ℕ → Bits
put_code codes s bits b = if b == s then bits else codes b

-- What `walk` does at a leaf.
unfoldable pub visit_leaf : ℕ → Bits → Huffman → Huffman
visit_leaf s bits h =
    if ltb s 256
    then record h { codes = put_code h.codes s (if length bits == 0 then 0 ∷ [] else bits) }
    else h

unfoldable pub walk : Tree → Bits → Huffman → Result Huffman
unfolding visit_leaf
walk nil bits h = panic
walk (node s w o l r) bits h =
    let counted : Huffman = record h { node_count = h.node_count + 1 } in
    let below : Result Huffman = do
      h' ← walk l (bits ++ (0 ∷ [])) counted
      walk r (bits ++ (1 ∷ [])) h'
    in if is_nil l && is_nil r then ok (visit_leaf s bits counted) else below

unfoldable pub new_huffman : Tree → Result Huffman
unfolding walk
new_huffman root = walk root [] (record { root = root; codes = λ b. []; node_count = 0 })

-- `counts[b]++` for each byte.
unfoldable pub counts : Bytes → ℕ → ℕ
counts [] i = 0
counts (b ∷ bs) i = (if b == i then 1 else 0) + counts bs i

-- The loop variables `nodes` and `order`.
pub record Pool : Type 0 where
  pub nodes : List Tree
  pub order_next : ℕ

unfoldable pub collect_one : ℕ → ℕ → Pool → Pool
collect_one i c p =
    if ltb 0 c
    then record {
      nodes = p.nodes ++ (node i c p.order_next nil nil ∷ []);
      order_next = p.order_next + 1;
    }
    else p

-- `for i, c := range counts`, with the rounds left.
unfoldable pub collect : ℕ → ℕ → (ℕ → ℕ) → Pool → Pool
unfolding collect_one
collect zero i cs p = p
collect (suc n) i cs p = collect n (i + 1) cs (collect_one i (cs i) p)

-- One node gets a dummy beside it, and none gets two.
unfoldable pub pad_nodes : List Tree → ℕ → Pool
pad_nodes [] o = record { nodes = node 0 1 0 nil nil ∷ node 1 0 1 nil nil ∷ []; order_next = 2 }
pad_nodes (t ∷ []) o = record {
  nodes = t ∷ node (if symbol t == 0 then 1 else 0) 0 o nil nil ∷ [];
  order_next = o + 1;
}
pad_nodes (t ∷ u ∷ ts) o = record { nodes = t ∷ u ∷ ts; order_next = o }

-- The comparison of `sort.SliceStable`: by weight, then by order.
unfoldable pub less : Tree → Tree → Bool
less a b = if weight a == weight b then ltb (order a) (order b) else ltb (weight a) (weight b)

-- A stable sort by insertion from the back: `x` goes in front of the first that is not less.
unfoldable pub insert_node : Tree → List Tree → List Tree
unfolding less
insert_node x [] = x ∷ []
insert_node x (y ∷ ys) = if less y x then y ∷ insert_node x ys else x ∷ (y ∷ ys)

unfoldable pub sort_nodes : List Tree → List Tree
unfolding insert_node
sort_nodes [] = []
sort_nodes (x ∷ xs) = insert_node x (sort_nodes xs)

-- `nodes = append(nodes[2:], &node{...})` with `a, b := nodes[0], nodes[1]`.
unfoldable pub join_first : List Tree → ℕ → ℕ → List Tree
join_first [] s o = []
join_first (a ∷ []) s o = a ∷ []
join_first (a ∷ b ∷ ts) s o = ts ++ (node s (weight a + weight b) o a b ∷ [])

-- `for len(nodes) > 1`; it ends with one node, `nodes[0]`.
unfoldable pub join_all : ℕ → List Tree → ℕ → ℕ → Result Tree
unfolding join_first sort_nodes
join_all fuel [] s o = panic
join_all fuel (t ∷ []) s o = ok t
join_all zero (t ∷ u ∷ ts) s o = stuck
join_all (suc fuel) (t ∷ u ∷ ts) s o =
    join_all fuel (join_first (sort_nodes (t ∷ u ∷ ts)) s o) (uint16 (s + 1)) (o + 1)

unfoldable pub initial_pool : Bytes → Pool
unfolding collect pad_nodes counts
initial_pool data' =
    let p = collect 256 0 (counts data') (record { nodes = []; order_next = 0 }) in
    pad_nodes p.nodes p.order_next

-- Each round takes one node off the list, so its length is enough fuel.
unfoldable pub build_huffman : Bytes → Result Huffman
unfolding initial_pool join_all new_huffman
build_huffman data' = do
  let p = initial_pool data'
  root ← join_all (length p.nodes) p.nodes 256 p.order_next
  new_huffman root

-- The two traversals of `SerializedTraversals`, and the words that it writes.
unfoldable pub preorder : Tree → List ℕ
preorder nil = []
preorder (node s w o l r) = s ∷ (preorder l ++ preorder r)

unfoldable pub inorder : Tree → List ℕ
inorder nil = []
inorder (node s w o l r) = inorder l ++ (s ∷ inorder r)

unfoldable pub put_words : List ℕ → Bytes
put_words [] = []
put_words (x ∷ xs) = put_uint16 x ++ put_words xs

unfoldable pub serialized_traversals : Huffman → Bytes
unfolding preorder inorder put_words
serialized_traversals h = put_words (preorder h.root ++ inorder h.root)

-- `bits = append(bits, h.codes[b]...)` for each byte.
unfoldable pub code_bits : Huffman → Bytes → Bits
code_bits h [] = []
code_bits h (b ∷ bs) = h.codes b ++ code_bits h bs

-- `out[i/8] = (out[i/8] << 1) | b` for each bit; `|` of an even number and a bit is `+`.
unfoldable pub pack_loop : Bits → ℕ → Bytes → Bytes
pack_loop [] i out = out
pack_loop (b ∷ bs) i out =
    pack_loop bs (i + 1) (set out (i / 8) (byte (get_or out (i / 8) 0 * 2) + b))

-- The packed bytes and the number of padding bits.
unfoldable pub encode : Huffman → Bytes → Bytes × ℕ
unfolding code_bits pack_loop
encode h data' =
    let bits = code_bits h data' in
    let pad = (8 - length bits % 8) % 8 in
    let padded = bits ++ replicate pad 1 in
    (pack_loop padded 0 (replicate (length padded / 8) 0), byte pad)
