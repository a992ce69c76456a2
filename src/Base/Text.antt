-- ===== src/Base/Text.antt =====
-- Text as bytes: literals, `{}` of an unsigned integer and `{:02x}` of a byte in `format!`, and
-- `join` of the standard library.
use Prim.Native.Char.{code}
use Prim.Native.String.{String}
use mathlib.Core.List.{List, [], ◌∷◌, ◌++◌}
use mathlib.Core.Path.{◌≡◌, refl}
use mathlib.Core.Logic.{◌≢◌}
use native.Mathlib.Decide.{dec_lt}
use native.Mathlib.Omega.{arith}
use Prim.Native.Nat.{ℕ, zero, suc, ◌+◌, ◌-◌, ◌*◌, ◌/◌, ◌%◌, ◌^◌, ◌<◌}
use mathlib.Core.Bool.{Bool, true, false, ◌&&◌, ◌||◌}
use mathlib.Core.Option.{Option, none, some}
use pig_tree.Base.Tests.{ltb, leb, ◌==◌, if◌then◌else◌}

abbrev pub Text : Type 0
Text = List ℕ

-- The bytes of an ASCII text.
abbrev pub codes : String → Text
codes String.[] = []
codes (String.◌∷◌ c s) = code c ∷ codes s

-- The decimal digits of `n` before `out`. A number has no more digits than its value and one.
unfoldable pub digits : ℕ → ℕ → Text → Text
digits zero n out = out
digits (suc fuel) n out = elim (dec_lt n 10) [
  | yes _ ↦ (b'0' + n) ∷ out
  | no _ ↦ digits fuel (n / 10) ((b'0' + n % 10) ∷ out)
]

unfoldable pub decimal : ℕ → Text
decimal n = digits (suc n) n []

unfoldable pub hex_digit : ℕ → ℕ
hex_digit d = if ltb d 10 then b'0' + d else b'a' + d - 10

unfoldable pub hex2 : ℕ → Text
hex2 b = hex_digit (b / 16) ∷ hex_digit (b % 16) ∷ []

unfoldable pub join : Text → List Text → Text
join sep [] = []
join sep (t ∷ []) = t
join sep (t ∷ u ∷ ts) = t ++ (sep ++ join sep (u ∷ ts))

unfoldable pub bool_text : Bool → Text
bool_text true = codes "true"
bool_text false = codes "false"

decimal_run : decimal 90210 ≡ codes "90210"
unfolding decimal digits dec_lt
decimal_run = refl

-- `==` and `starts_with` of texts.
unfoldable pub eq_text : Text → Text → Bool
eq_text [] [] = true
eq_text [] (b ∷ t) = false
eq_text (a ∷ s) [] = false
eq_text (a ∷ s) (b ∷ t) = (a == b) && eq_text s t

unfoldable pub starts_with : Text → Text → Bool
starts_with s [] = true
starts_with [] (b ∷ t) = false
starts_with (a ∷ s) (b ∷ t) = (a == b) && starts_with s t

-- `parse::<usize>`: digits, with a plus sign or none, of a value below 2^64.
scan_usize : ℕ → Text → Option ℕ
scan_usize n [] = some n
scan_usize n (c ∷ s) =
    let d = c - b'0' in
    let more = scan_usize (n * 10 + d) s in
    if ltb c b'0' || ltb b'9' c then none else if ltb (n * 10 + d) (2 ^ 64) then more else none

parse_digits : Text → Option ℕ
unfolding scan_usize
parse_digits [] = none
parse_digits (c ∷ s) = scan_usize 0 (c ∷ s)

unfoldable pub parse_usize : Text → Option ℕ
unfolding parse_digits
parse_usize [] = none
parse_usize (c ∷ s) = if c == b'+' then parse_digits s else parse_digits (c ∷ s)

eq_text_refl : (s : Text) → eq_text s s ≡ true
unfolding eq_text
eq_text_refl [] = refl
eq_text_refl (c ∷ s) = ground (arith, eq_text_refl s)

scan_usize-digits :
    (fuel n : ℕ) (out : Text)
    → n < fuel
    → n < 2 ^ 64
    → scan_usize 0 (digits fuel n out) ≡ scan_usize n out
unfolding scan_usize digits
scan_usize-digits zero n out h b = absurd (omega arith)
scan_usize-digits (suc fuel) n out h b = elim (dec_lt n 10) [
  | yes small ↦ ground arith
  | no large ↦ ground (arith, scan_usize-digits fuel (n / 10) ((b'0' + n % 10) ∷ out))
]

parse_usize-scan_usize :
    (t : Text) (n : ℕ) → t ≢ [] → scan_usize 0 t ≡ some n → parse_usize t ≡ some n
unfolding parse_usize scan_usize
parse_usize-scan_usize [] n h e = absurd (h refl)
parse_usize-scan_usize (c ∷ s) n h e = ground arith

digits-nonempty : (fuel n : ℕ) (out : Text) → out ≢ [] → digits fuel n out ≢ []
unfolding digits
digits-nonempty zero n out h = h
digits-nonempty (suc fuel) n out h =
    ground (arith, digits-nonempty fuel (n / 10) ((b'0' + n % 10) ∷ out))

decimal-nonempty : (n : ℕ) → decimal n ≢ []
unfolding decimal digits
decimal-nonempty n = ground (arith, digits-nonempty n (n / 10) ((b'0' + n % 10) ∷ []))

pub parse_usize-decimal : (n : ℕ) → n < 2 ^ 64 → parse_usize (decimal n) ≡ some n
unfolding decimal scan_usize
parse_usize-decimal n h =
    parse_usize-scan_usize (decimal n) n (decimal-nonempty n)
      (scan_usize-digits (suc n) n [] (omega arith) h)

-- `eq_ignore_ascii_case`.
to_ascii_lowercase : ℕ → ℕ
to_ascii_lowercase c = if leb b'A' c && leb c b'Z' then c + 32 else c

unfoldable pub eq_ignore_ascii_case : Text → Text → Bool
unfolding to_ascii_lowercase
eq_ignore_ascii_case [] [] = true
eq_ignore_ascii_case [] (b ∷ t) = false
eq_ignore_ascii_case (a ∷ s) [] = false
eq_ignore_ascii_case (a ∷ s) (b ∷ t) =
    (to_ascii_lowercase a == to_ascii_lowercase b) && eq_ignore_ascii_case s t
