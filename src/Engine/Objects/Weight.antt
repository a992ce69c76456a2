-- ===== src/Engine/Objects/Weight.antt =====
-- The weight of an object, and a conflict of its allocations.
use pig_tree.Base.{
  ℕ, ap, ◌∙◌, leb, leb→le, zero, suc, ◌↔◌, ◌≤◌, ◌≡◌, refl, Option, none, some, List, [], ◌∷◌, Bool,
  true, false, not, get_elem?, min, ◌==◌, if◌then◌else◌, arith, inl, inr, Bool-cases, All,
}
use pig_tree.Engine.Objects.Equal.{all_same, AllEqual, all_same_iff}
use pig_tree.Protocol.Observation.{ObjectIdentity, ValueKnowledge}
use pig_tree.Engine.Objects.{AllocState, start_allocs, see_allocs, unwrap_or_zero, object_record}

-- The allocations that are known.
unfoldable pub known_allocs : List (Option ℕ) → List ℕ
known_allocs [] = []
known_allocs (none ∷ os) = known_allocs os
known_allocs (some a ∷ os) = a ∷ known_allocs os

-- The least element of a list with this one in front.
unfoldable pub least : ℕ → List ℕ → ℕ
least a [] = a
least a (b ∷ bs) = least (min a b) bs

abbrev running : ℕ → Bool → ℕ → AllocState
running m c f = record { min_alloc = some m; has_alloc_conflict = c; first_alloc = some f }

see_allocs-running :
    (m f : ℕ) (c : Bool) (os : List (Option ℕ))
    → see_allocs (running m c f) os
      ≡ running
          (least m (known_allocs os))
          (if c then true else not (all_same f (known_allocs os)))
          f
unfolding see_allocs known_allocs least all_same
see_allocs-running m f true [] = refl
see_allocs-running m f false [] = refl
see_allocs-running m f c (none ∷ os) = see_allocs-running m f c os
see_allocs-running m f true (some a ∷ os) = elim (Bool-cases (f == a)) [
  | inl same ↦ rw same (see_allocs-running (min m a) f true os)
  | inr other ↦ rw other (see_allocs-running (min m a) f true os)
]
see_allocs-running m f false (some a ∷ os) = elim (Bool-cases (f == a)) [
  | inl same ↦ rw same (see_allocs-running (min m a) f false os)
  | inr other ↦ rw other (see_allocs-running (min m a) f true os)
]

-- The state after the loop, from the known allocations.
abbrev final : List ℕ → AllocState
final [] = start_allocs
final (a ∷ as') = running (least a as') (not (all_same a as')) a

see_allocs-final : (os : List (Option ℕ)) → see_allocs start_allocs os ≡ final (known_allocs os)
unfolding see_allocs known_allocs
see_allocs-final [] = refl
see_allocs-final (none ∷ os) = see_allocs-final os
see_allocs-final (some a ∷ os) = see_allocs-running a a false os

least-le : (a : ℕ) (bs : List ℕ) → (least a bs ≤ a) × All (λ b. least a bs ≤ b) bs
unfolding least
least-le a [] = (omega arith, tt)
least-le a (b ∷ bs) = let (le, all) = least-le (min a b) bs in (omega arith, (omega arith, all))

occurs-min :
    (a b x : ℕ) (bs : List ℕ) (i : ℕ)
    → get_elem? (min a b ∷ bs) i ≡ some x
    → (j : ℕ) × (get_elem? (a ∷ b ∷ bs) j ≡ some x)
occurs-min a b x bs zero at = elim (Bool-cases (leb a b)) [
  | inl le ↦ (0, ap some {x = a} {y = min a b} (omega (arith, leb→le a b le)) ∙ at)
  | inr gt ↦ (1, ap some {x = b} {y = min a b} (ground arith) ∙ at)
]
occurs-min a b x bs (suc i) at = (suc (suc i), at)

least-occurs : (a : ℕ) (bs : List ℕ) → (i : ℕ) × (get_elem? (a ∷ bs) i ≡ some (least a bs))
unfolding least
least-occurs a [] = (0, refl)
least-occurs a (b ∷ bs) =
    let (i, at) = least-occurs (min a b) bs in occurs-min a b (least (min a b) bs) bs i at

final-AllEqual_iff : (f : List ℕ) → ((final f).has_alloc_conflict ≡ false) ↔ AllEqual f
unfolding AllEqual
final-AllEqual_iff [] = ((λ _. tt), (λ _. refl))
final-AllEqual_iff (a ∷ as') =
    let (to, from) = all_same_iff a as' in ((λ e. to (ground arith)), (λ h. rw (from h) refl))

-- The aliases of an object disagree on its allocation (`has_alloc_conflict`) exactly when two
-- known allocations among theirs differ.
pub alloc_conflict_iff :
    (allocs : List (Option ℕ))
    → ((see_allocs start_allocs allocs).has_alloc_conflict ≡ false) ↔ AllEqual (known_allocs allocs)
alloc_conflict_iff allocs = rw (see_allocs-final allocs) (final-AllEqual_iff (known_allocs allocs))

unfoldable IsLeast : Option ℕ → List ℕ → Type 0
IsLeast none known = known ≡ []
IsLeast (some w) known = All (λ a. w ≤ a) known × ((i : ℕ) × (get_elem? known i ≡ some w))

final-IsLeast : (f : List ℕ) → IsLeast (final f).min_alloc f
unfolding IsLeast
final-IsLeast [] = refl
final-IsLeast (a ∷ as') = (least-le a as', least-occurs a as')

min_alloc-IsLeast :
    (allocs : List (Option ℕ))
    → IsLeast (see_allocs start_allocs allocs).min_alloc (known_allocs allocs)
min_alloc-IsLeast allocs = rw (see_allocs-final allocs) (final-IsLeast (known_allocs allocs))

-- A weight for these known allocations: 0 when there are none, else one of them that no other is
-- below.
unfoldable pub IsWeight : ℕ → List ℕ → Type 0
IsWeight w [] = w ≡ 0
IsWeight w (a ∷ as') = All (λ b. w ≤ b) (a ∷ as') × ((i : ℕ) × (get_elem? (a ∷ as') i ≡ some w))

IsLeast-IsWeight :
    (o : Option ℕ) (known : List ℕ) → IsLeast o known → IsWeight (unwrap_or_zero o) known
unfolding IsLeast IsWeight
IsLeast-IsWeight none [] h = refl
IsLeast-IsWeight none (a ∷ as') h = absurd cc
IsLeast-IsWeight (some w) [] (all, (i, at)) = cc
IsLeast-IsWeight (some w) (a ∷ as') h = h

-- The weight of an object is the least allocation that is known of its aliases, and 0 when none is
-- known.
pub weight-IsWeight :
    (oid : ObjectIdentity) (links : List (ValueKnowledge ℕ)) (allocs : List (Option ℕ))
    → IsWeight (object_record oid links allocs).weight (known_allocs allocs)
unfolding object_record
weight-IsWeight oid links allocs =
    IsLeast-IsWeight (see_allocs start_allocs allocs).min_alloc (known_allocs allocs)
      (min_alloc-IsLeast allocs)
