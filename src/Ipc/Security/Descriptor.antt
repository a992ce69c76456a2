-- ===== src/Ipc/Security/Descriptor.antt =====
-- Whom the security descriptor of `build_pipe_sddl` in crates/pigtree-ipc/src/security.rs lets in.
use pig_tree.Base.{
  ℕ, false, ◌&&◌, map, ◌≢◌, Option, none, some, List, [], ◌∷◌, ◌++◌, ◌==◌, if◌then◌else◌, ◌≡◌, All,
}
use pig_tree.Base.Text.{Text, codes}
use pig_tree.Base.Trim.{trim}
use pig_tree.Ipc.Security.Groups.{Member, IsBroad}
use pig_tree.Ipc.Security.{skipped}

-- Where a reader of a descriptor stands: before the bytes of a fixed text, within a SID, or behind an
-- entry, where another one or the SACL begins.
pub data State : Type 0 where
  prefix : Text → State
  within : Text → State
  behind : State

pub data Move : Type 0 where
  go : State → Move
  entry : Text → Move
  sacl : Move
  refuse : Move

step_prefix : Text → ℕ → Move
step_prefix [] c = if c == b')' then entry [] else go (within (c ∷ []))
step_prefix (p ∷ ps) c = if c == p then go (prefix ps) else refuse

step : State → ℕ → Move
unfolding step_prefix
step (prefix ps) c = step_prefix ps c
step (within s) c = if c == b')' then entry s else go (within (s ++ (c ∷ [])))
step behind c =
    if c == b'(' then go (prefix (codes "A;;GA;;;")) else if c == b'S' then sacl else refuse

-- The SIDs of the entries `(A;;GA;;;sid)`, in order, up to the SACL.
unfoldable pub grantees : State → Text → Option (List Text)
unfolding step
grantees st [] = none
grantees st (c ∷ s) = elim (step st c) [
  | go st' ↦ grantees st' s
  | entry sid ↦ elim (grantees behind s) [ none ↦ none | some sids ↦ some (sid ∷ sids) ]
  | sacl ↦ some []
  | refuse ↦ none
]

unfoldable pub read_sddl : Text → Option (List Text)
unfolding grantees
read_sddl [] = none
read_sddl (c ∷ []) = none
read_sddl (c ∷ d ∷ s) = if (c == b'D') && (d == b':') then grantees behind s else none

-- The SIDs that the loop keeps.
abbrev kept : Text → List Text → List Text
kept user_sid [] = []
kept user_sid (rsid ∷ rsids) =
    if skipped user_sid (trim rsid) then kept user_sid rsids else trim rsid ∷ kept user_sid rsids

abbrev pub NoParenthesis : Text → Type 0
NoParenthesis s = All (λ c. (c == b')') ≡ false) s

-- A SID of something else than the user or a broad group.
unfoldable pub IsOther : Text → Text → Type 0
IsOther user_sid s = (s ≢ []) × (s ≢ user_sid) × (¬ (IsBroad s))

-- The SIDs that the descriptor is to let in besides the user.
unfoldable pub IsGranted : Text → List Text → Text → Type 0
IsGranted user_sid rsids s = Member (map trim rsids) s × IsOther user_sid s
