-- ===== src/Protocol/Json/RoundTrip/Numbers.antt =====
-- The reader on a number in decimal.
use pig_tree.Base.{
  ℕ, zero, suc, ◌+◌, ◌/◌, ◌%◌, ◌<◌, Bool, false, Option, none, some, [], ◌∷◌, ◌++◌, ◌≡◌, refl, ap,
  subst, arith, dec_lt,
}
use pig_tree.Base.Text.{Text, digits, decimal}
use pig_tree.Protocol.Json.Reader.{is_digit, read_digits, read_number}

-- The text does not go on with a digit.
unfoldable pub starts_digit : Text → Bool
unfolding is_digit
starts_digit [] = false
starts_digit (c ∷ s) = is_digit c

-- `read_number` on a whole text.
unfoldable pub read_head : Text → Option (ℕ × Text)
read_head [] = none
read_head (c ∷ s) = read_number c s

digits-append : (fuel n : ℕ) (out s : Text) → digits fuel n out ++ s ≡ digits fuel n (out ++ s)
unfolding digits
digits-append zero n out s = refl
digits-append (suc fuel) n out s =
    ground (arith, digits-append fuel (n / 10) ((b'0' + n % 10) ∷ out) s)

read_head-digits :
    (fuel n : ℕ) (out : Text)
    → n < fuel
    → 0 < n
    → read_head (digits fuel n out) ≡ some (read_digits n out)
unfolding read_head digits read_number read_digits is_digit
read_head-digits zero n out h p = absurd (omega arith)
read_head-digits (suc fuel) n out h p = elim (dec_lt n 10) [
  | yes small ↦ ground arith
  | no large ↦ ground (arith, read_head-digits fuel (n / 10) ((b'0' + n % 10) ∷ out))
]

read_digits-done : (n : ℕ) (s : Text) → starts_digit s ≡ false → read_digits n s ≡ (n, s)
unfolding read_digits starts_digit
read_digits-done n [] h = refl
read_digits-done n (c ∷ s) h = ground arith

read_zero : (s : Text) → read_head (digits 1 0 s) ≡ some (0, s)
unfolding digits dec_lt read_head read_number
read_zero s = refl

pub read_head-decimal :
    (n : ℕ) (s : Text) → starts_digit s ≡ false → read_head (decimal n ++ s) ≡ some (n, s)
unfolding decimal
read_head-decimal n s h = rw (digits-append (suc n) n [] s) (elim (dec_lt 0 n) [
  | yes p ↦ rw (read_head-digits (suc n) n s (omega arith) p) (ap some (read_digits-done n s h))
  | no z ↦
      subst (λ m. read_head (digits (suc m) m s) ≡ some (m, s)) {x = 0} (omega arith) (read_zero s)
])
