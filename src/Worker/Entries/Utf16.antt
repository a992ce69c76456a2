-- ===== src/Worker/Entries/Utf16.antt =====
-- `String::from_utf16_lossy`: UTF-16 to UTF-8, with U+FFFD for a surrogate without its partner.
use pig_tree.Base.{
  ℕ, ◌+◌, ◌-◌, ◌*◌, ◌/◌, ◌%◌, Bool, ◌&&◌, Option, none, some, List, [], ◌∷◌, ◌++◌, ltb, leb,
  if◌then◌else◌,
}
use pig_tree.Base.Text.{Text}

-- A character in UTF-8.
unfoldable pub encode_utf8 : ℕ → Text
encode_utf8 c =
    if ltb c 0x80
    then c ∷ []
    else if ltb c 0x800
    then (0xc0 + c / 64) ∷ (0x80 + c % 64) ∷ []
    else if ltb c 0x10000
    then (0xe0 + c / 4096) ∷ (0x80 + c / 64 % 64) ∷ (0x80 + c % 64) ∷ []
    else (0xf0 + c / 262144) ∷ (0x80 + c / 4096 % 64) ∷ (0x80 + c / 64 % 64) ∷ (0x80 + c % 64) ∷ []

is_high : ℕ → Bool
is_high u = leb 0xd800 u && ltb u 0xdc00

is_low : ℕ → Bool
is_low u = leb 0xdc00 u && ltb u 0xe000

abbrev replacement : Text
replacement = 0xef ∷ 0xbf ∷ 0xbd ∷ []

-- A unit that no high surrogate precedes: the text that it gives, and the surrogate that it keeps.
alone : ℕ → Text × Option ℕ
unfolding is_high is_low encode_utf8
alone u =
    if is_high u
    then ([], some u)
    else if is_low u
    then (replacement, none)
    else (encode_utf8 u, none)

-- A unit behind a high surrogate `h`.
paired : ℕ → ℕ → Text × Option ℕ
unfolding alone
paired h u =
    if is_low u
    then (encode_utf8 (0x10000 + (h - 0xd800) * 1024 + (u - 0xdc00)), none)
    else (replacement ++ (alone u).0, (alone u).1)

decode_from : Option ℕ → List ℕ → Text
unfolding paired
decode_from none [] = []
decode_from (some h) [] = replacement
decode_from none (u ∷ us) = let (t, kept) : Text × Option ℕ = alone u in t ++ decode_from kept us
decode_from (some h) (u ∷ us) =
    let (t, kept) : Text × Option ℕ = paired h u in t ++ decode_from kept us

unfoldable pub from_utf16_lossy : List ℕ → Text
unfolding decode_from
from_utf16_lossy units = decode_from none units
