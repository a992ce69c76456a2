-- ===== src/Protocol/Crc32c/Reference.antt =====
-- The table-driven checksum against the polynomial division bit by bit, and what it detects.
use pig_tree.Base.{ℕ, zero, suc, ◌+◌, ◌-◌, ◌*◌, ◌/◌, ◌%◌, ◌^◌, ◌<◌, ◌≡◌, ◌⊎◌, refl, sym, ap, ◌∙◌}
use pig_tree.Base.{List, [], ◌∷◌, bit_and, bit_xor, get_or, arith}
use pig_tree.Base.{All, inl, inr}
use pig_tree.Base.Bytes.{IsByte}
use native.Mathlib.Nat.{pow-suc}
use pig_tree.Base.Bits.{
  xor_shift, xor_half, xor_parity, xor_comm, xor_assoc, xor_fields, xor-zero, bit_and_ones,
}
use pig_tree.Protocol.Crc32c.{
  poly, shift_bit, shift_bits, table_from, crc32c_table, update, update_all, max_u32,
  compute_crc32c,
}

-- The checksum by its definition: each byte is joined to the low end, and eight bits are divided out.
unfoldable pub divide : ℕ → List ℕ → ℕ
divide crc [] = crc
divide crc (byte ∷ rest) = divide (shift_bits 8 (bit_xor crc byte)) rest

pub odd-shift_bit : (x : ℕ) → x % 2 ≡ 1 → shift_bit x ≡ bit_xor (x / 2) poly
unfolding shift_bit
odd-shift_bit x h = ground (arith, bit_and_ones 1 x)

pub even-shift_bit : (x : ℕ) → x % 2 ≡ 0 → shift_bit x ≡ x / 2
unfolding shift_bit
even-shift_bit x h = ground (arith, bit_and_ones 1 x)

xor_swap : (a b c : ℕ) → bit_xor (bit_xor a b) c ≡ bit_xor (bit_xor a c) b
xor_swap a b c = xor_assoc a b c ∙ ap (bit_xor a) (xor_comm b c) ∙ sym (xor_assoc a c b)

half-double : (x y : ℕ) → bit_xor x (y * 2) / 2 ≡ bit_xor (x / 2) y
half-double x y = xor_half x (y * 2) ∙ ap (bit_xor (x / 2)) {y = y} (omega arith)

-- What stands above the low bit is only shifted down.
shift_bit-xor : (x y : ℕ) → shift_bit (bit_xor x (y * 2)) ≡ bit_xor (shift_bit x) y
shift_bit-xor x y = elim (parity x) [
  | inl even ↦
      even-shift_bit (bit_xor x (y * 2)) (omega (arith, xor_parity x (y * 2)))
      ∙ half-double x y
      ∙ ap (λ (t : ℕ). bit_xor t y) (sym (even-shift_bit x even))
  | inr odd ↦
      odd-shift_bit (bit_xor x (y * 2)) (omega (arith, xor_parity x (y * 2)))
      ∙ ap (λ (t : ℕ). bit_xor t poly) (half-double x y)
      ∙ xor_swap (x / 2) y poly
      ∙ ap (λ (t : ℕ). bit_xor t y) (sym (odd-shift_bit x odd))
]
  where
    parity : (n : ℕ) → (n % 2 ≡ 0) ⊎ (n % 2 ≡ 1)
    parity n = omega arith

double : (y k : ℕ) → y * 2 ^ suc k ≡ y * 2 ^ k * 2
double y k = omega (arith, ap (λ (t : ℕ). y * t) (pow-suc 2 k))

shift_bits-xor : (k x y : ℕ) → shift_bits k (bit_xor x (y * 2 ^ k)) ≡ bit_xor (shift_bits k x) y
unfolding shift_bits
shift_bits-xor zero x y = ap (bit_xor x) {y = y} (omega arith)
shift_bits-xor (suc k) x y =
    ap (λ (t : ℕ). shift_bits k (shift_bit (bit_xor x t))) (double y k)
    ∙ ap (shift_bits k) (shift_bit-xor x (y * 2 ^ k))
    ∙ shift_bits-xor k (shift_bit x) y

table_from-entry : (left i j : ℕ) → j < left → get_or (table_from left i) j 0 ≡ shift_bits 8 (i + j)
unfolding table_from
table_from-entry zero i j h = absurd (omega arith)
table_from-entry (suc left) i zero h = ap (shift_bits 8) (omega arith)
table_from-entry (suc left) i (suc j) h =
    table_from-entry left (i + 1) j (omega arith) ∙ ap (shift_bits 8) (omega arith)

crc32c_table-entry : (j : ℕ) → j < 256 → get_or crc32c_table j 0 ≡ shift_bits 8 j
unfolding crc32c_table
crc32c_table-entry j h = table_from-entry 256 0 j h ∙ ap (shift_bits 8) (omega arith)

-- One look-up in the table does the work of eight divisions.
pub update-eq-shift_bits :
    (crc byte : ℕ) → byte < 256 → update crc byte ≡ shift_bits 8 (bit_xor crc byte)
unfolding update
update-eq-shift_bits crc byte h =
    let z = bit_xor crc byte in
    let above : z / 2 ^ 8 ≡ crc / 2 ^ 8 =
      xor_shift 8 crc byte ∙ ap (bit_xor (crc / 2 ^ 8)) {y = 0} (omega arith) ∙ xor-zero _ in
    let low : bit_and z 0xff ≡ z % 2 ^ 8 = bit_and_ones 8 z in
    let parts : bit_xor (z % 2 ^ 8) (z / 2 ^ 8 * 2 ^ 8) ≡ z =
      xor_fields 8 (z / 2 ^ 8) (z % 2 ^ 8) (omega arith) ∙ omega arith in
    ap (λ (t : ℕ). bit_xor (crc / 2 ^ 8) (get_or crc32c_table t 0)) low
    ∙ ap (bit_xor (crc / 2 ^ 8)) (crc32c_table-entry (z % 2 ^ 8) (omega arith))
    ∙ xor_comm (crc / 2 ^ 8) (shift_bits 8 (z % 2 ^ 8))
    ∙ ap (bit_xor (shift_bits 8 (z % 2 ^ 8))) (sym above)
    ∙ sym (shift_bits-xor 8 (z % 2 ^ 8) (z / 2 ^ 8))
    ∙ ap (shift_bits 8) parts

pub update_all-eq-divide :
    (crc : ℕ) (input : List ℕ) → All IsByte input → update_all crc input ≡ divide crc input
unfolding update_all divide
update_all-eq-divide crc [] h = refl
update_all-eq-divide crc (byte ∷ rest) (hb, hr) =
    ap (λ (c : ℕ). update_all c rest) (update-eq-shift_bits crc byte hb)
    ∙ update_all-eq-divide (shift_bits 8 (bit_xor crc byte)) rest hr

-- On every list of bytes the checksum by table equals the one by division bit by bit.
pub compute_crc32c-eq-divide :
    (input : List ℕ) → All IsByte input → compute_crc32c input ≡ max_u32 - divide max_u32 input
unfolding compute_crc32c
compute_crc32c-eq-divide input h =
    ap (λ (c : ℕ). max_u32 - c) (update_all-eq-divide max_u32 input h)
