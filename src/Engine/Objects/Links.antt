-- ===== src/Engine/Objects/Links.antt =====
-- The link count and the external status of an object, from those of its aliases.
use pig_tree.Base.{
  ℕ, ◌<◌, ◌≡◌, ◌≢◌, ◌↔◌, refl, sym, ap, ◌∙◌, Option, none, some, List, [], ◌∷◌, Bool, true, false,
  not, length, ◌==◌, if◌then◌else◌, inl, inr, Bool-cases, All,
}
use pig_tree.Protocol.Observation.{
  ObjectIdentity, ValueKnowledge, known, not_observed, unavailable, confirmed_external,
  inconsistent_evidence,
}
use pig_tree.Protocol.Observation.Status.{derive}
use pig_tree.Protocol.Observation.Status.Derive.{derive_known}
use pig_tree.Engine.Builder.{as_u32}
use pig_tree.Engine.Objects.Equal.{all_same, all_same_iff}
use pig_tree.Engine.Objects.{is_unavailable, LinkState, start_links, see_links, object_record}

-- The link counts that are known.
unfoldable pub known_links : List (ValueKnowledge ℕ) → List ℕ
known_links [] = []
known_links (known k ∷ ls) = k ∷ known_links ls
known_links (_ ∷ ls) = known_links ls

-- After the first known link the resolved link stays, and the conflict is any other known one.
see_links-running :
    (k : ℕ) (c : Bool) (ls : List (ValueKnowledge ℕ))
    → see_links
        (record { resolved_link = known k; has_link_conflict = c; first_known_link = some k })
        ls
      ≡ record {
        resolved_link = known k;
        has_link_conflict = if c then true else not (all_same k (known_links ls));
        first_known_link = some k;
      }
unfolding see_links known_links all_same
see_links-running k true [] = refl
see_links-running k false [] = refl
see_links-running k c (not_observed ∷ ls) = see_links-running k c ls
see_links-running k c (unavailable ∷ ls) = see_links-running k c ls
see_links-running k c (ValueKnowledge.not_applicable ∷ ls) = see_links-running k c ls
see_links-running k true (known l ∷ ls) = elim (Bool-cases (k == l)) [
  | inl same ↦ rw same (see_links-running k true ls)
  | inr other ↦ rw other (see_links-running k true ls)
]
see_links-running k false (known l ∷ ls) = elim (Bool-cases (k == l)) [
  | inl same ↦ rw same (see_links-running k false ls)
  | inr other ↦ rw other (see_links-running k true ls)
]

-- The state behind the first known link; without one, no conflict and no known count.
abbrev pub Settled : List ℕ → LinkState → Type 0
Settled [] s = (s.has_link_conflict ≡ false) × ((k : ℕ) → s.resolved_link ≢ known k)
Settled (k ∷ ks) s = (s.has_link_conflict ≡ not (all_same k ks)) × (s.resolved_link ≡ known k)

not_known :
    (r : ValueKnowledge ℕ)
    → ((k : ℕ) → r ≢ known k)
    → (k : ℕ) → (if is_unavailable r then r else ValueKnowledge.not_applicable) ≢ known k
not_known not_observed h k e = cc
not_known unavailable h k e = cc
not_known ValueKnowledge.not_applicable h k e = cc
not_known (known j) h k e = cc

true-ne-false : true ≢ false
true-ne-false e = cc

see_links-Settled :
    (r : ValueKnowledge ℕ) (ls : List (ValueKnowledge ℕ))
    → ((k : ℕ) → r ≢ known k)
    → Settled (known_links ls) (
        see_links
          (record { resolved_link = r; has_link_conflict = false; first_known_link = none })
          ls)
unfolding see_links known_links
see_links-Settled r [] h = (refl, h)
see_links-Settled r (not_observed ∷ ls) h = see_links-Settled r ls h
see_links-Settled r (unavailable ∷ ls) h = see_links-Settled unavailable ls (λ k e. cc)
see_links-Settled r (ValueKnowledge.not_applicable ∷ ls) h =
    see_links-Settled (if is_unavailable r then r else ValueKnowledge.not_applicable) ls
      (not_known r h)
see_links-Settled r (known k ∷ ls) h =
    let e = see_links-running k false ls in
    (ap (λ (s : LinkState). s.has_link_conflict) e, ap (λ (s : LinkState). s.resolved_link) e)

external_of : (k n : ℕ) → (derive (known k) n ≡ confirmed_external) ↔ (n < k)
external_of k n = let (_, _, external) = derive_known k n in external

derive_unknown :
    (r : ValueKnowledge ℕ) (n : ℕ) → ((k : ℕ) → r ≢ known k) → derive r n ≢ confirmed_external
unfolding derive
derive_unknown not_observed n h e = cc
derive_unknown unavailable n h e = cc
derive_unknown ValueKnowledge.not_applicable n h e = cc
derive_unknown (known k) n h e = absurd (h k refl)

-- Known link counts that agree on more links than were observed.
unfoldable pub External : List ℕ → ℕ → Type 0
External [] n = ⊥
External (k ∷ ks) n = All (λ l. k ≡ l) ks × (n < k)

status-External_iff :
    (f : List ℕ) (s : LinkState) (n : ℕ)
    → Settled f s
    → ((if s.has_link_conflict then inconsistent_evidence else derive s.resolved_link n)
        ≡ confirmed_external)
      ↔ External f n
unfolding External
status-External_iff [] s n (clear, unknown) =
    ((λ e. absurd (derive_unknown s.resolved_link n unknown (rw clear at e))), (λ e. absurd e))
status-External_iff (k ∷ ks) s n (conflict, link) = elim (Bool-cases (all_same k ks)) [
  | inl same ↦
      rw (conflict, link, same)
        (let (to, from) = external_of k n in
          ((λ e. ((all_same_iff k ks).0 same, to e)), (λ h. from h.1)))
  | inr other ↦
      rw (conflict, link, other)
        ((λ e. cc), (λ h. absurd (true-ne-false (sym ((all_same_iff k ks).1 h.0) ∙ other))))
]

-- An object has a confirmed external reference exactly when a link count of an alias is known, all
-- known ones are equal, and they exceed the number of the aliases (as a `u32`).
pub object-External_iff :
    (oid : ObjectIdentity) (links : List (ValueKnowledge ℕ)) (allocs : List (Option ℕ))
    → ((object_record oid links allocs).external_reference_status ≡ confirmed_external)
      ↔ External (known_links links) (as_u32 (length links))
unfolding object_record
object-External_iff oid links allocs =
    status-External_iff (known_links links) (see_links start_links links) (as_u32 (length links))
      (see_links-Settled not_observed links (λ k e. cc))
