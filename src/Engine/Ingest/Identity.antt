-- ===== src/Engine/Ingest/Identity.antt =====
-- Equality of object identities, field by field, for the maps that are keyed by them.
use pig_tree.Base.{ℕ, ◌≡◌, refl, Bool, true, false, ◌&&◌, List, [], ◌∷◌, arith, ◌==◌, ◌↔◌}
use pig_tree.Base.Dict.{Eq}
use pig_tree.Protocol.Observation.{ObjectIdentity}

unfoldable pub bytes_eq : List ℕ → List ℕ → Bool
bytes_eq [] [] = true
bytes_eq [] (b ∷ bs) = false
bytes_eq (a ∷ as') [] = false
bytes_eq (a ∷ as') (b ∷ bs) = a == b && bytes_eq as' bs

bytes_eq_iff : (a b : List ℕ) → (bytes_eq a b ≡ true) ↔ (a ≡ b)
unfolding bytes_eq
bytes_eq_iff [] [] = ((λ _. refl), (λ _. refl))
bytes_eq_iff [] (b ∷ bs) = ((λ e. cc), (λ e. cc))
bytes_eq_iff (a ∷ as') [] = ((λ e. cc), (λ e. cc))
bytes_eq_iff (a ∷ as') (b ∷ bs) =
    ((λ e. ground (arith, bytes_eq_iff as' bs)), (λ e. ground (arith, bytes_eq_iff as' bs)))

unfoldable pub same_identity : ObjectIdentity → ObjectIdentity → Bool
same_identity a b = bytes_eq a.volume_guid b.volume_guid && a.file_id == b.file_id

pub same_identity_iff : (a b : ObjectIdentity) → (same_identity a b ≡ true) ↔ (a ≡ b)
unfolding same_identity
same_identity_iff a b = (
  (λ e. ground (arith, bytes_eq_iff a.volume_guid b.volume_guid)),
  (λ e. ground (arith, bytes_eq_iff a.volume_guid b.volume_guid)),
)

instance abbrev pub identity_eq : Eq ObjectIdentity
identity_eq = record { beq = same_identity; beq_iff = same_identity_iff }
