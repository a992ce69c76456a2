-- ===== src/Base/Bits.antt =====
-- Laws of `^` (exclusive or) and of `&` with a mask on words, which the libraries lack, by induction on a bound: each law
-- goes from the halves of its arguments to the whole.
mod Step
use Step.{bit_xor_step, bit_and_step, bit_or-suc, bit_or_step}
use mathlib.Core.Logic.{◌↔◌}
use Prim.Native.Nat.{
  ℕ, zero, suc, ◌+◌, ◌*◌, ◌/◌, ◌%◌, ◌^◌, ◌≤◌, ◌<◌, ◌-◌, bit_xor, bit_and, bit_or, bit_or-bitwise,
}
use mathlib.Core.Path.{◌≡◌, refl, sym, ap, ap₂, subst, ◌∙◌}
use native.Mathlib.Nat.{
  pow-suc, one-le-pow, add-mul-mod_self_left, mod-eq_of_lt, mod-lt, div-add-mod, div-div-eq-div-mul,
  div-one,
}
use native.Mathlib.Omega.{arith}

pub xor_half : (a b : ℕ) → bit_xor a b / 2 ≡ bit_xor (a / 2) (b / 2)
xor_half a b = omega (arith, bit_xor_step a b)

pub xor_parity : (a b : ℕ) → bit_xor a b % 2 ≡ (a % 2 + b % 2) % 2
xor_parity a b = omega (arith, bit_xor_step a b)

-- A shift to the right goes through an exclusive or.
pub xor_shift : (k a b : ℕ) → bit_xor a b / 2 ^ k ≡ bit_xor (a / 2 ^ k) (b / 2 ^ k)
xor_shift zero a b = rw (div-one, div-one, div-one)
xor_shift (suc k) a b =
    rw (pow-suc, ← div-div-eq-div-mul, ← div-div-eq-div-mul, ← div-div-eq-div-mul)
      (ap (λ (t : ℕ). t / 2) (xor_shift k a b) ∙ xor_half (a / 2 ^ k) (b / 2 ^ k))

xor_comm_below : (n a b : ℕ) → a ≤ n → b ≤ n → bit_xor a b ≡ bit_xor b a
xor_comm_below zero a b p q =
    let ea : a ≡ 0 = omega arith in
    let eb : b ≡ 0 = omega arith in ap₂ bit_xor (ea ∙ sym eb) (eb ∙ sym ea)
xor_comm_below (suc n) a b p q = omega (
  arith,
  bit_xor_step a b,
  bit_xor_step b a,
  xor_comm_below n (a / 2) (b / 2) (omega arith) (omega arith),
)

pub xor_comm : (a b : ℕ) → bit_xor a b ≡ bit_xor b a
xor_comm a b = xor_comm_below (a + b) a b (omega arith) (omega arith)

xor_assoc_below :
    (n a b c : ℕ) → a ≤ n → b ≤ n → c ≤ n → bit_xor (bit_xor a b) c ≡ bit_xor a (bit_xor b c)
xor_assoc_below zero zero zero zero p q r = refl
xor_assoc_below zero (suc a) b c p q r = absurd (omega arith)
xor_assoc_below zero zero (suc b) c p q r = absurd (omega arith)
xor_assoc_below zero zero zero (suc c) p q r = absurd (omega arith)
xor_assoc_below (suc n) a b c p q r = omega (
  arith,
  bit_xor_step (bit_xor a b) c,
  bit_xor_step a (bit_xor b c),
  xor_parity a b,
  xor_parity b c,
  ap (λ (t : ℕ). bit_xor t (c / 2)) (xor_half a b),
  ap (λ (t : ℕ). bit_xor (a / 2) t) (xor_half b c),
  xor_assoc_below n (a / 2) (b / 2) (c / 2) (omega arith) (omega arith) (omega arith),
)

pub xor_assoc : (a b c : ℕ) → bit_xor (bit_xor a b) c ≡ bit_xor a (bit_xor b c)
xor_assoc a b c = xor_assoc_below (a + b + c) a b c (omega arith) (omega arith) (omega arith)

xor_self_below : (n a : ℕ) → a ≤ n → bit_xor a a ≡ 0
xor_self_below n zero p = refl
xor_self_below zero (suc a) p = absurd (omega arith)
xor_self_below (suc n) (suc a) p =
    omega (arith, bit_xor_step (suc a) (suc a), xor_self_below n (suc a / 2) (omega arith))

pub xor_self : (a : ℕ) → bit_xor a a ≡ 0
xor_self a = xor_self_below a a (omega arith)

xor-zero_below : (n a : ℕ) → a ≤ n → bit_xor a 0 ≡ a
xor-zero_below n zero p = refl
xor-zero_below zero (suc a) p = absurd (omega arith)
xor-zero_below (suc n) (suc a) p =
    omega (arith, bit_xor_step (suc a) 0, xor-zero_below n (suc a / 2) (omega arith))

pub xor-zero : (a : ℕ) → bit_xor a 0 ≡ a
xor-zero a = xor-zero_below a a (omega arith)

pub xor_undo : (a c : ℕ) → bit_xor (bit_xor a c) c ≡ a
xor_undo a c = xor_assoc a c c ∙ ap (bit_xor a) (xor_self c) ∙ xor-zero a

-- What was joined to both sides by an exclusive or can be taken away.
pub xor_cancel : (a b c : ℕ) → bit_xor a c ≡ bit_xor b c → a ≡ b
xor_cancel a b c e = sym (xor_undo a c) ∙ ap (λ (t : ℕ). bit_xor t c) e ∙ xor_undo b c

-- Fields that share no digit: the exclusive or is the sum.
pub xor_fields : (k q r : ℕ) → r < 2 ^ k → bit_xor r (q * 2 ^ k) ≡ q * 2 ^ k + r
xor_fields zero q r fits =
    let e : r ≡ 0 = omega arith in
    rw (e, xor_comm 0 (q * 2 ^ 0), xor-zero (q * 2 ^ 0)) (omega arith)
xor_fields (suc k) q r fits = omega (
  arith,
  pow-suc 2 k,
  ap (λ (t : ℕ). q * t) (pow-suc 2 k),
  bit_xor_step r (q * 2 ^ suc k),
  ap (bit_xor (r / 2)) (halved q k),
  xor_fields k q (r / 2) (omega (arith, pow-suc 2 k)),
)
  where
    halved : (q k : ℕ) → q * 2 ^ suc k / 2 ≡ q * 2 ^ k
    halved q k = omega (arith, ap (λ (t : ℕ). q * t) (pow-suc 2 k))

-- An exclusive or of two numbers of `k` digits has `k` digits.
pub xor-lt : (k a b : ℕ) → a < 2 ^ k → b < 2 ^ k → bit_xor a b < 2 ^ k
xor-lt zero a b p q =
    let ea : a ≡ 0 = omega arith in let eb : b ≡ 0 = omega arith in rw (ea, eb) (omega arith)
xor-lt (suc k) a b p q = omega (
  arith,
  pow-suc 2 k,
  bit_xor_step a b,
  xor-lt k (a / 2) (b / 2) (omega (arith, pow-suc 2 k)) (omega (arith, pow-suc 2 k)),
)

bit_and-zero_below : (n a : ℕ) → a ≤ n → bit_and a 0 ≡ 0
bit_and-zero_below n zero p = refl
bit_and-zero_below zero (suc a) p = absurd (omega arith)
bit_and-zero_below (suc n) (suc a) p =
    omega (arith, bit_and_step (suc a) 0, bit_and-zero_below n (suc a / 2) (omega arith))

half_ones : (k : ℕ) → ((2 ^ suc k - 1) / 2 ≡ 2 ^ k - 1) × ((2 ^ suc k - 1) % 2 ≡ 1)
half_ones k = omega (arith, pow-suc 2 k, one-le-pow k 2)

mod-pow-suc : (a k : ℕ) → a % 2 ^ suc k ≡ a / 2 % 2 ^ k * 2 + a % 2
mod-pow-suc a k =
    ap (λ (t : ℕ). t % 2 ^ suc k) split
    ∙ add-mul-mod_self_left (a / 2 % 2 ^ k * 2 + a % 2) (2 ^ suc k) (a / 2 / 2 ^ k)
    ∙ mod-eq_of_lt (omega (arith, pow-suc 2 k, mod-lt (a / 2) (one-le-pow k 2 (omega arith))))
  where
    split : a ≡ a / 2 % 2 ^ k * 2 + a % 2 + 2 ^ suc k * (a / 2 / 2 ^ k)
    split =
        omega
          (arith, div-add-mod (a / 2) (2 ^ k), ap (λ (t : ℕ). t * (a / 2 / 2 ^ k)) (pow-suc 2 k))

-- A mask of `k` ones is the remainder by `2 ^ k`.
pub bit_and_ones : (k a : ℕ) → bit_and a (2 ^ k - 1) ≡ a % 2 ^ k
bit_and_ones zero a = omega (arith, bit_and-zero_below a a (omega arith))
bit_and_ones (suc k) a = omega (
  arith,
  bit_and_step a (2 ^ suc k - 1),
  half_ones k,
  ap (bit_and (a / 2)) (half_ones k).0,
  bit_and_ones k (a / 2),
  mod-pow-suc a k,
)

or-zero_below : (n a b : ℕ) → a ≤ n → bit_or a b ≡ 0 → (a ≡ 0) × (b ≡ 0)
or-zero_below n zero b p e = (refl, omega (arith, bit_or-bitwise 0 b))
or-zero_below zero (suc a) b p e = absurd (omega arith)
or-zero_below (suc n) (suc a) b p e =
    let halves : bit_or (suc a / 2) (b / 2) ≡ 0 = omega (arith, bit_or-suc a b) in
    let (low_a, low_b) = or-zero_below n (suc a / 2) (b / 2) (omega arith) halves in
    (omega (arith, bit_or-suc a b), omega (arith, bit_or-suc a b))

-- A disjunction is zero just when both sides are.
pub or-zero : (a b : ℕ) → bit_or a b ≡ 0 → (a ≡ 0) × (b ≡ 0)
or-zero a b = or-zero_below a a b (omega arith)

-- An exclusive or is zero just when the sides are equal.
pub xor-zero_iff : (a b : ℕ) → (bit_xor a b ≡ 0) ↔ (a ≡ b)
xor-zero_iff a b = (
  λ e. xor_cancel a b b (e ∙ sym (xor_self b)),
  λ e. subst (λ (c : ℕ). bit_xor a c ≡ 0) e (xor_self a),
)

or_none_below : (n a : ℕ) → a ≤ n → bit_or a 0 ≡ a
or_none_below n zero p = omega (arith, bit_or-bitwise 0 0)
or_none_below zero (suc a) p = absurd (omega arith)
or_none_below (suc n) (suc a) p =
    omega (arith, bit_or_step (suc a) 0, or_none_below n (suc a / 2) (omega arith))

-- Fields that share no digit: the disjunction is the sum.
pub or_fields : (k q r : ℕ) → r < 2 ^ k → bit_or (q * 2 ^ k) r ≡ q * 2 ^ k + r
or_fields zero q r fits =
    let e : r ≡ 0 = omega arith in
    rw e (or_none_below (q * 2 ^ 0) (q * 2 ^ 0) (omega arith) ∙ omega arith)
or_fields (suc k) q r fits = omega (
  arith,
  pow-suc 2 k,
  ap (λ (t : ℕ). q * t) (pow-suc 2 k),
  bit_or_step (q * 2 ^ suc k) r,
  ap (λ (t : ℕ). bit_or t (r / 2)) (halved q k),
  or_fields k q (r / 2) (omega (arith, pow-suc 2 k)),
)
  where
    halved : (q k : ℕ) → q * 2 ^ suc k / 2 ≡ q * 2 ^ k
    halved q k = omega (arith, ap (λ (t : ℕ). q * t) (pow-suc 2 k))
