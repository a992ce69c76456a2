-- ===== src/Protocol/Observation/Status/Derive.antt =====
-- `ExternalReferenceStatus::derive` against the order of the two link counts.
use pig_tree.Base.{ℕ, ◌<◌, ◌≡◌, ◌↔◌, arith}
use pig_tree.Protocol.Observation.{known, confirmed_none, confirmed_external, inconsistent_evidence}
use pig_tree.Protocol.Observation.Status.{derive}

inconsistent_iff : (k n : ℕ) → (derive (known k) n ≡ inconsistent_evidence) ↔ (k < n)
unfolding derive
inconsistent_iff k n = ((λ e. ground arith), (λ h. ground arith))

none_iff : (k n : ℕ) → (derive (known k) n ≡ confirmed_none) ↔ (k ≡ n)
unfolding derive
none_iff k n = ((λ e. ground arith), (λ h. ground arith))

external_iff : (k n : ℕ) → (derive (known k) n ≡ confirmed_external) ↔ (n < k)
unfolding derive
external_iff k n = ((λ e. ground arith), (λ h. ground arith))

-- For a known link count, `derive` answers inconsistent, none or external exactly when the count
-- is less than, equal to or greater than the observed one.
pub derive_known :
    (k n : ℕ)
    → ((derive (known k) n ≡ inconsistent_evidence) ↔ (k < n))
      × ((derive (known k) n ≡ confirmed_none) ↔ (k ≡ n))
      × ((derive (known k) n ≡ confirmed_external) ↔ (n < k))
derive_known k n = (inconsistent_iff k n, none_iff k n, external_iff k n)
