-- ===== src/Engine/Objects/Equal.antt =====
-- The test that the elements of a list are all equal.
use pig_tree.Base.{
  ℕ, ◌≡◌, ◌↔◌, refl, List, [], ◌∷◌, Bool, true, false, ◌==◌, ==_iff, if◌then◌else◌, arith, inl, inr,
  Bool-cases, All,
}

-- Does every element equal this one?
unfoldable pub all_same : ℕ → List ℕ → Bool
all_same a [] = true
all_same a (b ∷ bs) = if a == b then all_same a bs else false

pub all_same_iff : (a : ℕ) (bs : List ℕ) → (all_same a bs ≡ true) ↔ All (λ b. a ≡ b) bs
unfolding all_same
all_same_iff a [] = ((λ _. tt), (λ _. refl))
all_same_iff a (b ∷ bs) = elim (Bool-cases (a == b)) [
  | inl same ↦
      rw same (
        let (to, from) = all_same_iff a bs in ((λ e. ((==_iff a b).0 same, to e)), (λ h. from h.1)))
  | inr other ↦ rw other ((λ e. cc), (λ h. ground (arith, h.0)))
]

-- The elements are all equal.
unfoldable pub AllEqual : List ℕ → Type 0
AllEqual [] = Unit
AllEqual (a ∷ as') = All (λ b. a ≡ b) as'
