-- ===== src/Protocol/Huffman/Decode.antt =====
-- `Decode` of Appliance/internal/protocol/protocol.go.
use rongta_f11_open.Base.{
  ℕ, zero, suc, ◌+◌, ◌-◌, ◌*◌, ◌/◌, ◌%◌, ◌^◌, Bool, true, false, not, ◌&&◌, ◌||◌, [], ◌∷◌, ◌++◌,
  ltb, leb, ◌==◌, if◌then◌else◌, length, Bytes, byte, Result, ok, ◌>>=◌, ◌>>◌, fail_if,
}
use rongta_f11_open.Protocol.Huffman.{Tree, is_nil, leaf, left, right, symbol, Huffman}

-- The loop's variables. `at_root` is the pointer comparison `cur == h.root`.
pub record Cursor : Type 0 where
  pub cur : Tree
  pub at_root : Bool
  pub out : Bytes
  pub seen : ℕ

-- The loop's body behind `seen++`, for one bit.
unfoldable pub decode_bit : Tree → ℕ → Cursor → Result Cursor
decode_bit root bit c = do
  let next = if bit == 0 then left c.cur else right c.cur
  fail_if (is_nil next) "tree path"
  fail_if (leaf next && leb 256 (symbol next)) "symbol"
  let emitted : Cursor = record c {
    cur = root;
    at_root = true;
    out = c.out ++ (byte (symbol next) ∷ []);
  }
  let moved : Cursor = record c { cur = next; at_root = false }
  ok (if leaf next then emitted else moved)

-- `for bit := 7; bit >= 0; bit--` over one byte, with the rounds left: `bit` is one less.
unfoldable pub decode_byte : Tree → ℕ → ℕ → ℕ → Cursor → Result Cursor
unfolding decode_bit
decode_byte root valid zero b c = ok c
decode_byte root valid (suc bit) b c =
    let rest : Result Cursor = do
      c' ← decode_bit root (b / 2 ^ bit % 2) (record c { seen = c.seen + 1 })
      decode_byte root valid bit b c'
    in if leb valid c.seen then ok c else rest

unfoldable pub decode_bytes : Tree → ℕ → Bytes → Cursor → Result Cursor
unfolding decode_byte
decode_bytes root valid [] c = ok c
decode_bytes root valid (b ∷ bs) c = do
  c' ← decode_byte root valid 8 b c
  decode_bytes root valid bs c'

-- `count` comes from a byte or a constant, so it is not negative.
unfoldable pub decode : Huffman → Bytes → ℕ → ℕ → Result Bytes
unfolding decode_bytes
decode h data' pad count = do
  fail_if (ltb 7 pad || ltb (length data' * 8) pad) "padding"
  let valid = length data' * 8 - pad
  c ← decode_bytes h.root valid data' (record { cur = h.root; at_root = true; out = []; seen = 0 })
  fail_if (not c.at_root || not (length c.out == count)) "decoded length"
  ok c.out
