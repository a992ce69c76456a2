-- ===== src/Ipc/Security.antt =====
-- crates/pigtree-ipc/src/security.rs: the comparison of secrets and the security descriptor of the
-- pipes.
pub mod Compare
pub mod Groups
pub mod Descriptor
use pig_tree.Base.{
  ℕ, Bool, true, false, not, ◌||◌, List, [], ◌∷◌, ◌++◌, length, ◌==◌, if◌then◌else◌, bit_or,
  bit_xor,
}
use pig_tree.Base.Text.{Text, codes, eq_text}
use pig_tree.Base.Trim.{trim}

-- The loop over the pairs, with `diff` so far.
unfoldable pub difference : ℕ → List ℕ → List ℕ → ℕ
difference diff [] b = diff
difference diff (x ∷ a) [] = diff
difference diff (x ∷ a) (y ∷ b) = difference (bit_or diff (bit_xor x y)) a b

unfoldable pub constant_time_eq : List ℕ → List ℕ → Bool
unfolding difference
constant_time_eq a b = if not (length a == length b) then false else difference 0 a b == 0

-- On two arrays of 32 bytes.
unfoldable pub constant_time_eq_32 : List ℕ → List ℕ → Bool
unfolding difference
constant_time_eq_32 a b = difference 0 a b == 0

unfoldable pub is_one_of : List Text → Text → Bool
unfolding eq_text
is_one_of [] s = false
is_one_of (t ∷ ts) s = eq_text s t || is_one_of ts s

unfoldable pub is_broad_sid : Text → Bool
unfolding is_one_of
is_broad_sid sid =
    let s = trim sid in
    if length s == 0
    then true
    else if is_one_of
        (codes "WD"
          ∷ codes "AU"
          ∷ codes "BU"
          ∷ codes "BA"
          ∷ codes "BG"
          ∷ codes "NU"
          ∷ codes "IU"
          ∷ codes "RC"
          ∷ codes "AN"
          ∷ codes "ED"
          ∷ [])
        s
    then true
    else is_one_of
        (codes "S-1-1-0"
          ∷ codes "S-1-5-11"
          ∷ codes "S-1-5-32-545"
          ∷ codes "S-1-5-32-544"
          ∷ codes "S-1-5-32-546"
          ∷ codes "S-1-5-7"
          ∷ codes "S-1-5-2"
          ∷ codes "S-1-5-4"
          ∷ codes "S-1-5-15"
          ∷ [])
        s

-- The entry that grants everything to one SID.
unfoldable pub dacl_entry : Text → Text
dacl_entry sid = codes "(A;;GA;;;" ++ (sid ++ codes ")")

-- Does the loop leave this SID out?
unfoldable pub skipped : Text → Text → Bool
skipped user_sid trimmed = (length trimmed == 0) || eq_text trimmed user_sid || is_broad_sid trimmed

-- What the loop appends for the restricted SIDs.
unfoldable pub dacl_entries : Text → List Text → Text
dacl_entries user_sid [] = []
dacl_entries user_sid (rsid ∷ rsids) =
    let more = dacl_entries user_sid rsids in
    if skipped user_sid (trim rsid) then more else dacl_entry (trim rsid) ++ more

unfoldable pub build_pipe_sddl : Text → List Text → Text
build_pipe_sddl user_sid restricted_sids =
    codes "D:"
    ++ ((dacl_entry user_sid ++ dacl_entries user_sid restricted_sids) ++ codes "S:(ML;;NW;;;ME)")
