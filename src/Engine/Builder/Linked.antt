-- ===== src/Engine/Builder/Linked.antt =====
-- The last children of the builder: `link_child` of crates/pigtree-engine/src/builder.rs writes only
-- where there is an entry.
use pig_tree.Base.{
  ℕ, zero, suc, ◌+◌, ◌<◌, ◌≡◌, refl, ◌∙◌, List, [], ◌∷◌, ◌++◌, length, get_or, set, ◌⊎◌, inl, inr,
  arith,
}
use pig_tree.Engine.Builder.{max_u32}

-- An entry without a first child, or with a last child below `n`.
unfoldable pub HasLast : ℕ → List ℕ → List ℕ → ℕ → Type 0
HasLast n first last i = (get_or first i max_u32 ≡ max_u32) ⊎ (get_or last i max_u32 < n)

unfoldable pub IsLinkedBelow : ℕ → List ℕ → List ℕ → Type 0
IsLinkedBelow n first last = (i : ℕ) → HasLast n first last i

by_values :
    (n m : ℕ) (first last first' last' : List ℕ) (i : ℕ)
    → n < m + 1
    → get_or first' i max_u32 ≡ get_or first i max_u32
    → get_or last' i max_u32 ≡ get_or last i max_u32
    → HasLast n first last i
    → HasLast m first' last' i
unfolding HasLast
by_values n m first last first' last' i fits f l (inl childless) = inl (f ∙ childless)
by_values n m first last first' last' i fits f l (inr below) = inr (omega arith)

append_default :
    (xs : List ℕ) (i : ℕ) → get_or (xs ++ (max_u32 ∷ [])) i max_u32 ≡ get_or xs i max_u32
append_default [] zero = refl
append_default [] (suc i) = refl
append_default (x ∷ xs) zero = refl
append_default (x ∷ xs) (suc i) = append_default xs i

-- An entry without children is appended.
pub append-IsLinkedBelow :
    (n m : ℕ) (first last : List ℕ)
    → n < m + 1
    → IsLinkedBelow n first last
    → IsLinkedBelow m (first ++ (max_u32 ∷ [])) (last ++ (max_u32 ∷ []))
unfolding IsLinkedBelow
append-IsLinkedBelow n m first last fits h i =
    by_values n m first last (first ++ (max_u32 ∷ [])) (last ++ (max_u32 ∷ [])) i fits
      (append_default first i) (append_default last i) (h i)

set_both :
    (xs ys : List ℕ) (p i v w d : ℕ)
    → length xs ≡ length ys
    → ((get_or (set xs p w) i d ≡ get_or xs i d) × (get_or (set ys p v) i d ≡ get_or ys i d))
      ⊎ (get_or (set ys p v) i d ≡ v)
set_both [] [] p i v w d e = inl (refl, refl)
set_both [] (y ∷ ys) p i v w d e = absurd (omega arith)
set_both (x ∷ xs) [] p i v w d e = absurd (omega arith)
set_both (x ∷ xs) (y ∷ ys) zero zero v w d e = inr refl
set_both (x ∷ xs) (y ∷ ys) zero (suc i) v w d e = inl (refl, refl)
set_both (x ∷ xs) (y ∷ ys) (suc p) zero v w d e = inl (refl, refl)
set_both (x ∷ xs) (y ∷ ys) (suc p) (suc i) v w d e = set_both xs ys p i v w d (omega arith)

set_one :
    (ys : List ℕ) (p i v d : ℕ)
    → (get_or (set ys p v) i d ≡ get_or ys i d) ⊎ (get_or (set ys p v) i d ≡ v)
set_one [] p i v d = inl refl
set_one (y ∷ ys) zero zero v d = inr refl
set_one (y ∷ ys) zero (suc i) v d = inl refl
set_one (y ∷ ys) (suc p) zero v d = inl refl
set_one (y ∷ ys) (suc p) (suc i) v d = set_one ys p i v d

-- A first child, which is the last one, too.
pub first-IsLinkedBelow :
    (n m : ℕ) (first last : List ℕ) (p v w : ℕ)
    → n < m + 1
    → v < m
    → length first ≡ length last
    → IsLinkedBelow n first last
    → IsLinkedBelow m (set first p w) (set last p v)
unfolding IsLinkedBelow HasLast
first-IsLinkedBelow n m first last p v w fits small same h i =
    elim (set_both first last p i v w max_u32 same) [
      | inl (f, l) ↦ by_values n m first last (set first p w) (set last p v) i fits f l (h i)
      | inr new ↦ inr (omega arith)
    ]

-- Another child behind the last one.
pub later-IsLinkedBelow :
    (n m : ℕ) (first last : List ℕ) (p v : ℕ)
    → n < m + 1
    → v < m
    → IsLinkedBelow n first last
    → IsLinkedBelow m first (set last p v)
unfolding IsLinkedBelow HasLast
later-IsLinkedBelow n m first last p v fits small h i = elim (set_one last p i v max_u32) [
  | inl l ↦ by_values n m first last first (set last p v) i fits refl l (h i)
  | inr new ↦ inr (omega arith)
]

pub none-IsLinkedBelow : IsLinkedBelow 0 [] []
unfolding IsLinkedBelow HasLast
none-IsLinkedBelow i = inl refl
