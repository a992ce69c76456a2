-- ===== src/Ipc/Security/Compare.antt =====
-- The comparison of secrets in crates/pigtree-ipc/src/security.rs is equality.
use pig_tree.Base.{
  ℕ, true, List, [], ◌∷◌, length, ==_refl, ◌≡◌, ◌↔◌, refl, ap₂, subst, arith, bit_or, bit_xor,
}
use pig_tree.Base.Bits.{or-zero, xor-zero_iff, xor_self}
use pig_tree.Ipc.Security.{difference, constant_time_eq}

difference-zero :
    (d : ℕ) (a b : List ℕ) → length a ≡ length b → difference d a b ≡ 0 → (d ≡ 0) × (a ≡ b)
unfolding difference
difference-zero d [] [] e h = (h, refl)
difference-zero d [] (y ∷ b) e h = absurd (omega arith)
difference-zero d (x ∷ a) [] e h = absurd (omega arith)
difference-zero d (x ∷ a) (y ∷ b) e h =
    let (bits, rest) = difference-zero (bit_or d (bit_xor x y)) a b (omega arith) h in
    let (none_before, same) = or-zero d (bit_xor x y) bits in
    (none_before, ap₂ ◌∷◌ ((xor-zero_iff x y).0 same) rest)

difference_self : (a : List ℕ) → difference 0 a a ≡ 0
unfolding difference
difference_self [] = refl
difference_self (x ∷ a) = rw (xor_self x) (difference_self a)

reflexive : (a : List ℕ) → constant_time_eq a a ≡ true
unfolding constant_time_eq
reflexive a = rw (==_refl (length a)) (rw (difference_self a) refl)

-- The comparison that always looks at every byte answers whether the lists are equal.
pub constant_time_eq_iff : (a b : List ℕ) → (constant_time_eq a b ≡ true) ↔ (a ≡ b)
unfolding constant_time_eq
constant_time_eq_iff a b = (
  λ h. (difference-zero 0 a b (ground arith) (ground arith)).1,
  λ e. subst (λ (c : List ℕ). constant_time_eq a c ≡ true) e (reflexive a),
)
