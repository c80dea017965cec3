-- ===== src/Protocol/Checksum.antt =====
-- `Checksum` of Appliance/internal/protocol/protocol.go: a seeded, reflected CRC-32.
pub mod Laws
use Prim.Native.Nat.{bit_xor}
use rongta_f11_open.Base.{ℕ, zero, suc, ◌/◌, ◌%◌, [], ◌∷◌, ◌==◌, if◌then◌else◌, Bytes}

-- `const crcSeed`, and the mask of all ones.
abbrev pub crc_seed : ℕ
crc_seed = 0x76953521

abbrev pub ones32 : ℕ
ones32 = 0xffffffff

-- One round of the inner loop; `crc&1` is `crc % 2`, and `crc >> 1` is `crc / 2`.
unfoldable pub crc_shift : ℕ → ℕ
crc_shift crc = if crc % 2 == 1 then bit_xor (crc / 2) 0xedb88320 else crc / 2

-- The rounds that are left of the inner loop.
unfoldable pub crc_rounds : ℕ → ℕ → ℕ
crc_rounds zero crc = crc
crc_rounds (suc n) crc = crc_rounds n (crc_shift crc)

-- The outer loop's body.
unfoldable pub crc_byte : ℕ → ℕ → ℕ
crc_byte crc b = crc_rounds 8 (bit_xor crc b)

unfoldable pub crc_bytes : ℕ → Bytes → ℕ
crc_bytes crc [] = crc
crc_bytes crc (b ∷ data') = crc_bytes (crc_byte crc b) data'

unfoldable pub checksum : Bytes → ℕ
checksum data' = bit_xor (crc_bytes (bit_xor crc_seed ones32) data') ones32
