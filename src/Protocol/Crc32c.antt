-- ===== src/Protocol/Crc32c.antt =====
-- The checksum of crates/pigtree-protocol/src/crc32c.rs. A byte slice is a list of numbers, and a
-- u32 a number below 2 ^ 32.
pub mod Reference
pub mod Detection
use pig_tree.Base.{ℕ, zero, suc, ◌+◌, ◌-◌, ◌/◌, ◌^◌, List, [], ◌∷◌, bit_and, bit_xor, get_or}
use pig_tree.Base.{◌==◌, if◌then◌else◌}

abbrev pub poly : ℕ
poly = 0x82F63B78

-- The body of the inner loop over `j`.
unfoldable pub shift_bit : ℕ → ℕ
shift_bit crc = if bit_and crc 1 == 0 then crc / 2 else bit_xor (crc / 2) poly

-- The inner loop, with `left` rounds to go.
unfoldable pub shift_bits : ℕ → ℕ → ℕ
shift_bits zero crc = crc
shift_bits (suc left) crc = shift_bits left (shift_bit crc)

-- The outer loop, with `left` entries to fill from index `i` on.
unfoldable pub table_from : ℕ → ℕ → List ℕ
table_from zero i = []
table_from (suc left) i = shift_bits 8 i ∷ table_from left (i + 1)

unfoldable pub crc32c_table : List ℕ
crc32c_table = table_from 256 0

-- The body of the loop over the bytes.
unfoldable pub update : ℕ → ℕ → ℕ
update crc byte =
    let table_idx = bit_and (bit_xor crc byte) 0xff in
    bit_xor (crc / 2 ^ 8) (get_or crc32c_table table_idx 0)

unfoldable pub update_all : ℕ → List ℕ → ℕ
update_all crc [] = crc
update_all crc (byte ∷ rest) = update_all (update crc byte) rest

abbrev pub max_u32 : ℕ
max_u32 = 0xffff_ffff

-- `!crc` is what is missing to the largest u32.
unfoldable pub compute_crc32c : List ℕ → ℕ
compute_crc32c input = max_u32 - update_all max_u32 input
