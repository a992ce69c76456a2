-- ===== src/Base/Bits/Step.antt =====
-- The equations of the native `^` and `&` for the lowest binary digit. The native operations run
-- on fuel, which their meaning gives them in plenty.
use Prim.Native.Nat.{ℕ, zero, suc, ◌+◌, ◌-◌, ◌*◌, ◌/◌, ◌%◌, ◌≤◌, min, bit_and, bit_and-bitwise}
use Prim.Native.Nat.{max, bit_or, bit_or-bitwise}
use Prim.Native.Nat.{bit_xor, bit_xor-bitwise, digits, bitwise, differ}
use mathlib.Core.Path.{◌≡◌, refl, sym, ap, ◌∙◌}
use native.Mathlib.Nat.{suc-add}
use native.Mathlib.Omega.{arith}

module _ (rest : ℕ → ℕ) (op : ℕ → ℕ → ℕ) where
  one_more : (fuel x y : ℕ) → x ≤ fuel → digits rest op (suc fuel) x y ≡ digits rest op fuel x y
  one_more zero (suc x) y fits = absurd (omega arith)
  one_more zero zero y fits = refl
  one_more (suc fuel) zero y fits = refl
  one_more (suc fuel) (suc x) y fits =
      ap (λ (high : ℕ). high * 2 + op (suc x % 2) (y % 2))
        (one_more fuel (suc x / 2) (y / 2) (omega arith))

  any_more : (extra x y : ℕ) → digits rest op (extra + x) x y ≡ bitwise rest op x y
  any_more zero x y = ap (λ (fuel : ℕ). digits rest op fuel x y) {x = 0 + x} {y = x} (omega arith)
  any_more (suc extra) x y =
      rw suc-add (one_more (extra + x) x y (omega arith) ∙ any_more extra x y)

  lowest :
      (x y : ℕ)
      → bitwise rest op (suc x) y ≡ bitwise rest op (suc x / 2) (y / 2) * 2 + op (suc x % 2) (y % 2)
  lowest x y =
      let fuel : x ≡ x - suc x / 2 + suc x / 2 = omega arith in
      ap (λ (high : ℕ). high * 2 + op (suc x % 2) (y % 2))
        (ap (λ (n : ℕ). digits rest op n (suc x / 2) (y / 2)) fuel
          ∙ any_more (x - suc x / 2) (suc x / 2) (y / 2))

-- Exclusive or of two binary digits is their sum modulo 2.
differ_digits : (x y : ℕ) → x ≤ 1 → y ≤ 1 → differ x y ≡ (x + y) % 2
differ_digits zero y p q = omega arith
differ_digits (suc zero) zero p q = refl
differ_digits (suc zero) (suc zero) p q = refl
differ_digits (suc zero) (suc (suc y)) p q = absurd (omega arith)
differ_digits (suc (suc x)) y p q = absurd (omega arith)

-- The lowest digit of an exclusive or is the sum of the digits modulo 2.
pub bit_xor_step : (a b : ℕ) → bit_xor a b ≡ bit_xor (a / 2) (b / 2) * 2 + (a % 2 + b % 2) % 2
bit_xor_step zero b = omega (arith, bit_xor-bitwise 0 b, bit_xor-bitwise 0 (b / 2))
bit_xor_step (suc a) b = omega (
  arith,
  bit_xor-bitwise (suc a) b,
  bit_xor-bitwise (suc a / 2) (b / 2),
  lowest (λ y. y) differ a b,
  differ_digits (suc a % 2) (b % 2) (omega arith) (omega arith),
)

-- The lowest digit of a conjunction is the least of the two digits.
pub bit_and_step : (a b : ℕ) → bit_and a b ≡ bit_and (a / 2) (b / 2) * 2 + min (a % 2) (b % 2)
bit_and_step zero b = omega (arith, bit_and-bitwise 0 b, bit_and-bitwise 0 (b / 2))
bit_and_step (suc a) b =
    omega (
      arith,
      bit_and-bitwise (suc a) b,
      bit_and-bitwise (suc a / 2) (b / 2),
      lowest (λ y. 0) min a b,
    )

-- A disjunction with a positive number, from its halves.
pub bit_or-suc :
    (m n : ℕ) → bit_or (suc m) n ≡ bit_or (suc m / 2) (n / 2) * 2 + max (suc m % 2) (n % 2)
bit_or-suc m n =
    bit_or-bitwise (suc m) n
    ∙ lowest (λ rest. rest) max m n
    ∙ ap (λ (halves : ℕ). halves * 2 + max (suc m % 2) (n % 2))
        (sym (bit_or-bitwise (suc m / 2) (n / 2)))

-- The lowest digit of a disjunction is the greatest of the two digits.
pub bit_or_step : (a b : ℕ) → bit_or a b ≡ bit_or (a / 2) (b / 2) * 2 + max (a % 2) (b % 2)
bit_or_step zero b = omega (arith, bit_or-bitwise 0 b, bit_or-bitwise 0 (b / 2))
bit_or_step (suc a) b = bit_or-suc a b
