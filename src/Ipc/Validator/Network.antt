-- ===== src/Ipc/Validator/Network.antt =====
-- What `is_lexical_unc` of crates/pigtree-ipc/src/validator.rs means by a network path, said of the
-- bytes that stand in front.
use pig_tree.Base.{
  ℕ, Bool, true, false, not, ◌&&◌, ◌||◌, [], ◌∷◌, length, leb, ◌==◌, if◌then◌else◌, ◌≡◌, refl,
  arith, inl, inr, Bool-cases,
}
use pig_tree.Base.Text.{Text, codes, eq_ignore_ascii_case, starts_with}
use pig_tree.Base.Trim.{trim}
use pig_tree.Ipc.Validator.Unc.{is_slash, has_extended_unc, has_network_prefix, is_lexical_unc}

abbrev slash : ℕ → Bool
slash c = (c == 92) || (c == b'/')

abbrev letter : ℕ → Bool
letter c = (leb b'A' c && leb c b'Z') || (leb b'a' c && leb c b'z')

abbrev pub two_slashes : Text → Bool
two_slashes (a ∷ b ∷ s) = slash a && slash b
two_slashes _ = false

-- `\\?\C:` or `\\.\C:`, with any slashes and any letter.
abbrev pub local_drive : Text → Bool
local_drive (a ∷ b ∷ c ∷ d ∷ e ∷ f ∷ s) =
    slash a && (slash b && (((c == b'?') || (c == b'.')) && (slash d && (letter e && (f == b':')))))
local_drive _ = false

-- `\??\UNC\`, where the last two may be other slashes, and UNC in any case.
abbrev pub nt_unc : Text → Bool
nt_unc (a ∷ b ∷ c ∷ d ∷ e ∷ f ∷ g ∷ h ∷ s) =
    (a == 92)
    && ((b == b'?')
        && ((c == b'?')
            && (slash d && (eq_ignore_ascii_case (e ∷ f ∷ g ∷ []) (codes "UNC") && slash h))))
nt_unc _ = false

-- A path in the network: behind two slashes, unless these lead to a drive of this computer, or in
-- the notation of the kernel.
unfoldable pub is_network : Text → Bool
is_network s = (two_slashes s && not (local_drive s)) || nt_unc s

network_prefix : (s : Text) → has_network_prefix s ≡ two_slashes s && not (local_drive s)
unfolding has_network_prefix is_slash
network_prefix [] = refl
network_prefix (a ∷ []) = refl
network_prefix (a ∷ b ∷ []) = ground arith
network_prefix (a ∷ b ∷ c ∷ []) = ground arith
network_prefix (a ∷ b ∷ c ∷ d ∷ []) = ground arith
network_prefix (a ∷ b ∷ c ∷ d ∷ e ∷ []) = ground arith
network_prefix (a ∷ b ∷ c ∷ d ∷ e ∷ f ∷ s) = ground arith

unc_letters :
    (e f g : ℕ)
    → eq_ignore_ascii_case (e ∷ f ∷ g ∷ []) (codes "UNC") ≡ true
    → ((e == 92) ≡ false) × ((f == b':') ≡ false)
unfolding eq_ignore_ascii_case
unc_letters e f g h = (ground arith, ground arith)

-- `\\?\UNC\` or `\\.\UNC\`.
device_unc : Text → Bool
device_unc (a ∷ b ∷ c ∷ d ∷ e ∷ f ∷ g ∷ h ∷ s) =
    slash a
    && (slash b
        && (((c == b'?') || (c == b'.'))
            && (slash d && (eq_ignore_ascii_case (e ∷ f ∷ g ∷ []) (codes "UNC") && slash h))))
device_unc _ = false

extended_unc : (s : Text) → has_extended_unc s ≡ device_unc s || nt_unc s
unfolding has_extended_unc device_unc is_slash starts_with
extended_unc [] = ground arith
extended_unc (a ∷ []) = ground arith
extended_unc (a ∷ b ∷ []) = ground arith
extended_unc (a ∷ b ∷ c ∷ []) = ground arith
extended_unc (a ∷ b ∷ c ∷ d ∷ []) = ground arith
extended_unc (a ∷ b ∷ c ∷ d ∷ e ∷ []) = ground arith
extended_unc (a ∷ b ∷ c ∷ d ∷ e ∷ f ∷ []) = ground arith
extended_unc (a ∷ b ∷ c ∷ d ∷ e ∷ f ∷ g ∷ []) = ground arith
extended_unc (a ∷ b ∷ c ∷ d ∷ e ∷ f ∷ g ∷ h ∷ s) =
    elim (Bool-cases (eq_ignore_ascii_case (e ∷ f ∷ g ∷ []) (codes "UNC"))) [
      | inl unc ↦ let (no_slash, _) = unc_letters e f g unc in rw unc (ground arith)
      | inr other ↦ rw other (ground arith)
    ]

-- A UNC device path lies behind two slashes and is no local drive.
device_network : (s : Text) → device_unc s ≡ true → two_slashes s && not (local_drive s) ≡ true
unfolding device_unc
device_network [] h = absurd cc
device_network (a ∷ []) h = absurd cc
device_network (a ∷ b ∷ []) h = absurd cc
device_network (a ∷ b ∷ c ∷ []) h = absurd cc
device_network (a ∷ b ∷ c ∷ d ∷ []) h = absurd cc
device_network (a ∷ b ∷ c ∷ d ∷ e ∷ []) h = absurd cc
device_network (a ∷ b ∷ c ∷ d ∷ e ∷ f ∷ []) h = absurd cc
device_network (a ∷ b ∷ c ∷ d ∷ e ∷ f ∷ g ∷ []) h = absurd cc
device_network (a ∷ b ∷ c ∷ d ∷ e ∷ f ∷ g ∷ i ∷ s) h =
    elim (Bool-cases (eq_ignore_ascii_case (e ∷ f ∷ g ∷ []) (codes "UNC"))) [
      | inl unc ↦ let (_, no_colon) = unc_letters e f g unc in ground arith
      | inr other ↦ absurd (ground arith)
    ]

combine : (d n t : Bool) → (d ≡ true → t ≡ true) → (if d || n then true else t) ≡ t || n
combine true n t h = rw (h refl) refl
combine false true true h = refl
combine false true false h = refl
combine false false true h = refl
combine false false false h = refl

-- The test is this reading of the path without the white space at its ends.
pub is_lexical_unc-eq : (p : Text) → is_lexical_unc p ≡ is_network (trim p)
unfolding is_lexical_unc is_network
is_lexical_unc-eq p = go (trim p)
  where
    go :
        (s : Text)
        → (if length s == 0
            then false
            else if has_extended_unc s
            then true
            else has_network_prefix s)
          ≡ (two_slashes s && not (local_drive s)) || nt_unc s
    go [] = refl
    go (c ∷ s) =
        let u = c ∷ s in
        rw (extended_unc u, network_prefix u)
          (ground (
            arith,
            combine (device_unc u) (nt_unc u) (two_slashes u && not (local_drive u))
                (device_network u),
          ))
