-- ===== src/Ipc/Security/Groups.antt =====
-- The groups that `is_broad_sid` of crates/pigtree-ipc/src/security.rs names, each with the abbreviation
-- and the SID that the code knows of it.
use pig_tree.Base.{
  Bool, true, false, List, [], ◌∷◌, length, All, ◌==◌, if◌then◌else◌, ◌≡◌, ◌≢◌, ◌⊎◌, ◌↔◌, refl,
  subst, sym, ap₂, inl, inr, Bool-cases, arith,
}
use pig_tree.Base.Text.{Text, codes, eq_text}
use pig_tree.Base.Trim.{trim}
use pig_tree.Ipc.Security.{is_one_of, is_broad_sid}

pub data Group : Type 0 where
  everyone authenticated_users users administrators guests network interactive : Group
  anonymous restricted_code enterprise_controllers this_organization : Group

abbrev pub spellings : Group → List Text
spellings everyone = codes "WD" ∷ codes "S-1-1-0" ∷ []
spellings authenticated_users = codes "AU" ∷ codes "S-1-5-11" ∷ []
spellings users = codes "BU" ∷ codes "S-1-5-32-545" ∷ []
spellings administrators = codes "BA" ∷ codes "S-1-5-32-544" ∷ []
spellings guests = codes "BG" ∷ codes "S-1-5-32-546" ∷ []
spellings network = codes "NU" ∷ codes "S-1-5-2" ∷ []
spellings interactive = codes "IU" ∷ codes "S-1-5-4" ∷ []
spellings anonymous = codes "AN" ∷ codes "S-1-5-7" ∷ []
spellings restricted_code = codes "RC" ∷ []
spellings enterprise_controllers = codes "ED" ∷ []
spellings this_organization = codes "S-1-5-15" ∷ []

abbrev pub Member : List Text → Text → Type 0
Member [] s = ⊥
Member (t ∷ ts) s = (s ≡ t) ⊎ Member ts s

-- A SID that stands for a group of users.
unfoldable pub IsBroad : Text → Type 0
IsBroad s = (g : Group) × Member (spellings g) s

eq_text-eq : (s t : Text) → eq_text s t ≡ true → s ≡ t
unfolding eq_text
eq_text-eq [] [] h = refl
eq_text-eq [] (b ∷ t) h = absurd cc
eq_text-eq (a ∷ s) [] h = absurd cc
eq_text-eq (a ∷ s) (b ∷ t) h = ap₂ ◌∷◌ (ground arith) (eq_text-eq s t (ground arith))

eq_text_self : (s : Text) → eq_text s s ≡ true
unfolding eq_text
eq_text_self [] = refl
eq_text_self (a ∷ s) = ground (arith, eq_text_self s)

pub eq_text_iff : (s t : Text) → (eq_text s t ≡ true) ↔ (s ≡ t)
eq_text_iff s t = (eq_text-eq s t, λ e. subst (λ (u : Text). eq_text s u ≡ true) e (eq_text_self s))

is_one_of-Member : (ts : List Text) (s : Text) → is_one_of ts s ≡ true → Member ts s
unfolding is_one_of
is_one_of-Member [] s h = absurd cc
is_one_of-Member (t ∷ ts) s h = elim (Bool-cases (eq_text s t)) [
  | inl here ↦ inl (eq_text-eq s t here)
  | inr there ↦ inr (is_one_of-Member ts s (rw there at h))
]

-- The two lists of the code.
abbrev abbreviations : List Text
abbreviations =
    codes "WD"
    ∷ codes "AU"
    ∷ codes "BU"
    ∷ codes "BA"
    ∷ codes "BG"
    ∷ codes "NU"
    ∷ codes "IU"
    ∷ codes "RC"
    ∷ codes "AN"
    ∷ codes "ED"
    ∷ []

abbrev sid_strings : List Text
sid_strings =
    codes "S-1-1-0"
    ∷ codes "S-1-5-11"
    ∷ codes "S-1-5-32-545"
    ∷ codes "S-1-5-32-544"
    ∷ codes "S-1-5-32-546"
    ∷ codes "S-1-5-7"
    ∷ codes "S-1-5-2"
    ∷ codes "S-1-5-4"
    ∷ codes "S-1-5-15"
    ∷ []

by_abbreviation : (s : Text) → Member abbreviations s → IsBroad s
unfolding IsBroad
by_abbreviation s (inl e) = (everyone, inl e)
by_abbreviation s (inr (inl e)) = (authenticated_users, inl e)
by_abbreviation s (inr (inr (inl e))) = (users, inl e)
by_abbreviation s (inr (inr (inr (inl e)))) = (administrators, inl e)
by_abbreviation s (inr (inr (inr (inr (inl e))))) = (guests, inl e)
by_abbreviation s (inr (inr (inr (inr (inr (inl e)))))) = (network, inl e)
by_abbreviation s (inr (inr (inr (inr (inr (inr (inl e))))))) = (interactive, inl e)
by_abbreviation s (inr (inr (inr (inr (inr (inr (inr (inl e)))))))) = (restricted_code, inl e)
by_abbreviation s (inr (inr (inr (inr (inr (inr (inr (inr (inl e))))))))) = (anonymous, inl e)
by_abbreviation s (inr (inr (inr (inr (inr (inr (inr (inr (inr (inl e)))))))))) =
    (enterprise_controllers, inl e)
by_abbreviation s (inr (inr (inr (inr (inr (inr (inr (inr (inr (inr none_left)))))))))) =
    elim none_left [ ]

by_string : (s : Text) → Member sid_strings s → IsBroad s
unfolding IsBroad
by_string s (inl e) = (everyone, inr (inl e))
by_string s (inr (inl e)) = (authenticated_users, inr (inl e))
by_string s (inr (inr (inl e))) = (users, inr (inl e))
by_string s (inr (inr (inr (inl e)))) = (administrators, inr (inl e))
by_string s (inr (inr (inr (inr (inl e))))) = (guests, inr (inl e))
by_string s (inr (inr (inr (inr (inr (inl e)))))) = (anonymous, inr (inl e))
by_string s (inr (inr (inr (inr (inr (inr (inl e))))))) = (network, inr (inl e))
by_string s (inr (inr (inr (inr (inr (inr (inr (inl e)))))))) = (interactive, inr (inl e))
by_string s (inr (inr (inr (inr (inr (inr (inr (inr (inl e))))))))) = (this_organization, inl e)
by_string s (inr (inr (inr (inr (inr (inr (inr (inr (inr none_left))))))))) = elim none_left [ ]

all_broad : (g : Group) → All (λ t. is_broad_sid t ≡ true) (spellings g)
unfolding is_broad_sid is_one_of eq_text trim
all_broad everyone = (refl, (refl, tt))
all_broad authenticated_users = (refl, (refl, tt))
all_broad users = (refl, (refl, tt))
all_broad administrators = (refl, (refl, tt))
all_broad guests = (refl, (refl, tt))
all_broad network = (refl, (refl, tt))
all_broad interactive = (refl, (refl, tt))
all_broad anonymous = (refl, (refl, tt))
all_broad restricted_code = (refl, tt)
all_broad enterprise_controllers = (refl, tt)
all_broad this_organization = (refl, tt)

is_broad_sid-Member :
    (ts : List Text) (s : Text)
    → All (λ t. is_broad_sid t ≡ true) ts
    → Member ts s
    → is_broad_sid s ≡ true
is_broad_sid-Member [] s h m = absurd m
is_broad_sid-Member (t ∷ ts) s (ht, hs) (inl e) =
    subst (λ (u : Text). is_broad_sid u ≡ true) (sym e) ht
is_broad_sid-Member (t ∷ ts) s (ht, hs) (inr m) = is_broad_sid-Member ts s hs m

pub IsBroad-is_broad_sid : (s : Text) → IsBroad s → is_broad_sid s ≡ true
unfolding IsBroad
IsBroad-is_broad_sid s (g, m) = is_broad_sid-Member (spellings g) s (all_broad g) m

either_list : (a b : Bool) → (if a then true else b) ≡ true → (a ≡ true) ⊎ (b ≡ true)
either_list true b h = inl refl
either_list false b h = inr h

listed :
    (s : Text) → (is_one_of abbreviations s ≡ true) ⊎ (is_one_of sid_strings s ≡ true) → IsBroad s
listed s (inl a) = by_abbreviation s (is_one_of-Member abbreviations s a)
listed s (inr b) = by_string s (is_one_of-Member sid_strings s b)

pub is_broad_sid-IsBroad : (s : Text) → trim s ≡ s → s ≢ [] → is_broad_sid s ≡ true → IsBroad s
unfolding is_broad_sid
is_broad_sid-IsBroad [] trimmed filled h = absurd (filled refl)
is_broad_sid-IsBroad (c ∷ s) trimmed filled h =
    let u = c ∷ s in
    let nonempty : (length u == 0) ≡ false = ground arith in
    listed u (
      either_list (is_one_of abbreviations u) (is_one_of sid_strings u)
        (rw (trimmed, nonempty) at h))
