-- ===== src/Protocol/Utf8.antt =====
-- A Rust `String` is the list of its bytes, which are well-formed UTF-8 (Unicode, table 3-7).
-- `String::from_utf8` accepts just these lists.
use pig_tree.Base.{ℕ, zero, suc, Bool, true, false, ◌&&◌, Option, none, some, List, [], ◌∷◌, ◌≡◌}
use pig_tree.Base.{ltb, leb, ◌==◌, if◌then◌else◌}

-- What must follow a leading byte: how many bytes, and the range of the first of them.
lead : ℕ → Option (ℕ × ℕ × ℕ)
lead b =
    if ltb b 0x80
    then some (0, 0, 0)
    else if ltb b 0xc2
    then none
    else if leb b 0xdf
    then some (1, 0x80, 0xbf)
    else if b == 0xe0
    then some (2, 0xa0, 0xbf)
    else if b == 0xed
    then some (2, 0x80, 0x9f)
    else if leb b 0xef
    then some (2, 0x80, 0xbf)
    else if b == 0xf0
    then some (3, 0x90, 0xbf)
    else if leb b 0xf3
    then some (3, 0x80, 0xbf)
    else if b == 0xf4
    then some (3, 0x80, 0x8f)
    else none

utf8_from : ℕ → ℕ → ℕ → List ℕ → Bool
utf8_from zero lo hi [] = true
utf8_from (suc pending) lo hi [] = false
utf8_from zero lo hi (b ∷ bs) = elim (lead b) [
  | none ↦ false
  | some (n, lo', hi') ↦ utf8_from n lo' hi' bs
]
utf8_from (suc pending) lo hi (b ∷ bs) =
    let more = utf8_from pending 0x80 0xbf bs in leb lo b && leb b hi && more

unfoldable pub is_utf8 : List ℕ → Bool
unfolding utf8_from lead
is_utf8 = utf8_from 0 0 0

abbrev pub IsUtf8 : List ℕ → Type 0
IsUtf8 s = is_utf8 s ≡ true
