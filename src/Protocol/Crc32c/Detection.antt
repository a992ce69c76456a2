-- ===== src/Protocol/Crc32c/Detection.antt =====
-- Dividing out a bit loses nothing, so the checksum tells apart inputs that differ in one byte.
use pig_tree.Base.{ℕ, zero, suc, ◌+◌, ◌-◌, ◌*◌, ◌/◌, ◌%◌, ◌^◌, ◌≤◌, ◌<◌, ◌≡◌, ◌≢◌, sym, ◌∙◌}
use pig_tree.Base.{All-append, List, [], ◌∷◌, ◌++◌, bit_xor, ◌⊎◌, inl, inr, All, arith}
use pig_tree.Base.Bytes.{IsByte}
use pig_tree.Base.Bits.{xor_assoc, xor_comm, xor_cancel, xor_fields, xor-lt}
use pig_tree.Protocol.Crc32c.{poly, shift_bit, shift_bits, max_u32, compute_crc32c}
use pig_tree.Protocol.Crc32c.Reference.{
  divide, odd-shift_bit, even-shift_bit, compute_crc32c-eq-divide,
}

abbrev IsWord : ℕ → Type 0
IsWord x = x < 2 ^ 32

abbrev low_poly : ℕ
low_poly = poly - 2 ^ 31

-- Joining the polynomial sets the top bit.
top_bit : (a : ℕ) → a < 2 ^ 31 → 2 ^ 31 ≤ bit_xor a poly
top_bit a h =
    let e : bit_xor a poly ≡ 1 * 2 ^ 31 + bit_xor a low_poly =
      sym (xor_assoc a low_poly (1 * 2 ^ 31))
      ∙ xor_fields 31 1 (bit_xor a low_poly) (xor-lt 31 a low_poly h (omega arith)) in
    omega arith

parity : (n : ℕ) → (n % 2 ≡ 0) ⊎ (n % 2 ≡ 1)
parity n = omega arith

shift_bit-lt : (x : ℕ) → IsWord x → IsWord (shift_bit x)
shift_bit-lt x h = elim (parity x) [
  | inl even ↦ omega (arith, even-shift_bit x even)
  | inr odd ↦ rw (odd-shift_bit x odd) (xor-lt 32 (x / 2) poly (omega arith) (omega arith))
]

shift_bit-injective : (x y : ℕ) → IsWord x → IsWord y → shift_bit x ≡ shift_bit y → x ≡ y
shift_bit-injective x y hx hy e = elim (parity x) [
  | inl ex ↦ elim (parity y) [
    | inl ey ↦ omega (arith, even-shift_bit x ex, even-shift_bit y ey)
    | inr oy ↦
        absurd
          (omega (arith, even-shift_bit x ex, odd-shift_bit y oy, top_bit (y / 2) (omega arith)))
  ]
  | inr ox ↦ elim (parity y) [
    | inl ey ↦
        absurd
          (omega (arith, odd-shift_bit x ox, even-shift_bit y ey, top_bit (x / 2) (omega arith)))
    | inr oy ↦
        let halves : x / 2 ≡ y / 2 =
          xor_cancel (x / 2) (y / 2) poly (sym (odd-shift_bit x ox) ∙ e ∙ odd-shift_bit y oy) in
        omega arith
  ]
]

shift_bits-lt : (k x : ℕ) → IsWord x → IsWord (shift_bits k x)
unfolding shift_bits
shift_bits-lt zero x h = h
shift_bits-lt (suc k) x h = shift_bits-lt k (shift_bit x) (shift_bit-lt x h)

shift_bits-injective : (k x y : ℕ) → IsWord x → IsWord y → shift_bits k x ≡ shift_bits k y → x ≡ y
unfolding shift_bits
shift_bits-injective zero x y hx hy e = e
shift_bits-injective (suc k) x y hx hy e =
    shift_bit-injective x y hx hy
      (shift_bits-injective k (shift_bit x) (shift_bit y) (shift_bit-lt x hx) (shift_bit-lt y hy) e)

IsWord-xor-byte : (crc byte : ℕ) → IsWord crc → IsByte byte → IsWord (bit_xor crc byte)
IsWord-xor-byte crc byte h hb = xor-lt 32 crc byte h (omega arith)

abbrev next : ℕ → ℕ → ℕ
next crc byte = shift_bits 8 (bit_xor crc byte)

next-lt : (crc byte : ℕ) → IsWord crc → IsByte byte → IsWord (next crc byte)
next-lt crc byte h hb = shift_bits-lt 8 _ (IsWord-xor-byte crc byte h hb)

pub divide-lt :
    (crc : ℕ) (input : List ℕ) → IsWord crc → All IsByte input → IsWord (divide crc input)
unfolding divide
divide-lt crc [] h hs = h
divide-lt crc (byte ∷ rest) h (hb, hr) = divide-lt (next crc byte) rest (next-lt crc byte h hb) hr

divide-injective :
    (crc crc' : ℕ) (input : List ℕ)
    → IsWord crc
    → IsWord crc'
    → All IsByte input
    → divide crc input ≡ divide crc' input
    → crc ≡ crc'
unfolding divide
divide-injective crc crc' [] h h' hs e = e
divide-injective crc crc' (byte ∷ rest) h h' (hb, hr) e =
    let wx = IsWord-xor-byte crc byte h hb in
    let wy = IsWord-xor-byte crc' byte h' hb in
    xor_cancel crc crc' byte (
      shift_bits-injective 8 _ _ wx wy (
        divide-injective (next crc byte) (next crc' byte) rest (next-lt crc byte h hb)
          (next-lt crc' byte h' hb) hr e))

divide-detects :
    (crc : ℕ) (front back : List ℕ) (x y : ℕ)
    → IsWord crc
    → All IsByte front
    → All IsByte back
    → IsByte x
    → IsByte y
    → divide crc (front ++ (x ∷ back)) ≡ divide crc (front ++ (y ∷ back))
    → x ≡ y
unfolding divide
divide-detects crc [] back x y h hf hb hx hy e =
    let wx = IsWord-xor-byte crc x h hx in
    let wy = IsWord-xor-byte crc y h hy in
    let joined : bit_xor crc x ≡ bit_xor crc y = shift_bits-injective 8 _ _ wx wy (
      divide-injective (next crc x) (next crc y) back (next-lt crc x h hx) (next-lt crc y h hy) hb
        e) in
    xor_cancel x y crc (xor_comm x crc ∙ joined ∙ xor_comm crc y)
divide-detects crc (b ∷ front) back x y h (hb1, hf) hb hx hy e =
    divide-detects (next crc b) front back x y (next-lt crc b h hb1) hf hb hx hy e

pub compute_crc32c-lt : (input : List ℕ) → compute_crc32c input < 2 ^ 32
unfolding compute_crc32c
compute_crc32c-lt input = omega arith

-- Two inputs of bytes that differ in exactly one place have different checksums.
pub compute_crc32c-detects :
    (front back : List ℕ) (x y : ℕ)
    → All IsByte front
    → All IsByte back
    → IsByte x
    → IsByte y
    → x ≢ y
    → compute_crc32c (front ++ (x ∷ back)) ≢ compute_crc32c (front ++ (y ∷ back))
compute_crc32c-detects front back x y hf hb hx hy ne e =
    let ax = All-append IsByte front (x ∷ back) hf (hx, hb) in
    let ay = All-append IsByte front (y ∷ back) hf (hy, hb) in
    ne (
      divide-detects max_u32 front back x y (omega arith) hf hb hx hy (
        omega (
          arith,
          e,
          compute_crc32c-eq-divide (front ++ (x ∷ back)) ax,
          compute_crc32c-eq-divide (front ++ (y ∷ back)) ay,
          divide-lt max_u32 (front ++ (x ∷ back)) (omega arith) ax,
          divide-lt max_u32 (front ++ (y ∷ back)) (omega arith) ay,
        )))
