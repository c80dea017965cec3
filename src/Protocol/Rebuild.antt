-- ===== src/Protocol/Rebuild.antt =====
-- `treeFrom` of Appliance/internal/protocol/protocol.go: a tree from its two traversals.
pub mod Returns
pub mod Symbols
pub mod Build
pub mod Words
pub mod RoundTrip
use rongta_f11_open.Base.{
  ℕ, zero, suc, ◌+◌, ◌-◌, ◌*◌, ◌/◌, ◌%◌, Bool, true, false, not, ◌&&◌, ◌||◌, List, [], ◌∷◌, Option,
  none, some, ltb, leb, ◌==◌, if◌then◌else◌, length, get_or, Bytes, get_uint16, Result, ok, err,
  panic, stuck, new, ◌>>=◌, ◌>>◌, fail_if,
}
use rongta_f11_open.Base.Reads.{reads}
use rongta_f11_open.Protocol.Huffman.{Tree, nil, node, is_nil, Huffman, new_huffman}

-- The words of a byte slice, `n` of them from index `i` on.
unfoldable pub words_from : ℕ → ℕ → Bytes → Result (List ℕ)
words_from zero i data' = ok []
words_from (suc n) i data' = do
  reads (i + 2) data'
  ws ← words_from n (i + 2) data'
  ok (get_uint16 data' i ∷ ws)

-- The maps `seenPre` and `seenMid` as the words seen so far.
unfoldable pub contains : ℕ → List ℕ → Bool
contains x [] = false
contains x (y ∷ ys) = x == y || contains x ys

-- The loop that reads both traversals ends early at the first repeated word.
unfoldable pub has_repeats : List ℕ → List ℕ → Bool
unfolding contains
has_repeats seen [] = false
has_repeats seen (x ∷ xs) = contains x seen || has_repeats (x ∷ seen) xs

-- `for x := range seenPre { if !seenMid[x] }`
unfoldable pub all_in : List ℕ → List ℕ → Bool
unfolding contains
all_in [] ys = true
all_in (x ∷ xs) ys = contains x ys && all_in xs ys

-- `for i := lo; i < hi; i++ { if mid[i] == s }`, with the rounds left.
unfoldable pub find_split : ℕ → ℕ → List ℕ → ℕ → Result (Option ℕ)
find_split zero i mid s = ok none
find_split (suc n) i mid s = do
  reads (i + 1) mid
  let later = find_split n (i + 1) mid s
  if get_or mid i 0 == s then ok (some i) else later

-- `if split < 0 { return nil, errors.New("tree symbol") }`
unfoldable pub found_split : Option ℕ → Result ℕ
found_split none = err (new "tree symbol")
found_split (some i) = ok i

-- The variables that the closure `build` shares: `pi` and `order`.
pub record Reader : Type 0 where
  pub pi : ℕ
  pub order : ℕ

-- `build(lo, hi)`; each call uses one unit of fuel, and takes one word of `pre`.
unfoldable pub build : ℕ → List ℕ → List ℕ → ℕ → ℕ → Reader → Result (Tree × Reader)
unfolding find_split found_split
build zero pre mid lo hi r = stuck
build (suc fuel) pre mid lo hi r = do
  fail_if (leb hi lo || leb (length pre) r.pi) "tree traversal"
  reads (r.pi + 1) pre
  let s = get_or pre r.pi 0
  found ← find_split (hi - lo) lo mid s
  split ← found_split found
  let own = r.order
  let r1 : Reader = record { pi = r.pi + 1; order = r.order + 1 }
  (l, r2) ← elim (ltb lo split) [ true ↦ build fuel pre mid lo split r1 | false ↦ ok (nil, r1) ]
  (x, r3) ← elim (ltb (split + 1) hi) [
    | true ↦ build fuel pre mid (split + 1) hi r2
    | false ↦ ok (nil, r2)
  ]
  ok (node s 0 own l x, r3)

unfoldable pub validate : Tree → Result (Unit {0})
validate nil = panic
validate (node s w o l r) =
    let checked_leaf : Result (Unit {0}) = fail_if (leb 256 s) "invalid leaf" in
    let below : Result (Unit {0}) = do
      fail_if (is_nil l || is_nil r) "incomplete tree"
      validate l
      validate r
    in if is_nil l && is_nil r then checked_leaf else below

unfoldable pub built_or_traversal : Result (Tree × Reader) → ℕ → Result Tree
built_or_traversal (ok (root, r)) n = if r.pi == n then ok root else err (new "tree traversal")
built_or_traversal (err e) n = err (new "tree traversal")
built_or_traversal panic n = panic
built_or_traversal stuck n = stuck

unfoldable pub tree_from : Bytes → Result Huffman
unfolding words_from has_repeats all_in build validate built_or_traversal
tree_from data' = do
  fail_if (length data' == 0 || not (length data' % 4 == 0)) "tree size"
  let n = length data' / 4
  fail_if (ltb 511 n) "tree too large"
  pre ← words_from n 0 data'
  mid ← words_from n (n * 2) data'
  fail_if (has_repeats [] pre || has_repeats [] mid) "duplicate tree symbols"
  fail_if (not (length pre == length mid)) "tree symbols"
  fail_if (not (all_in pre mid)) "tree symbols"
  root ← built_or_traversal (build (n + 1) pre mid 0 n (record { pi = 0; order = 0 })) n
  validate root
  new_huffman root
