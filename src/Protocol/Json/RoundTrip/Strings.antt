-- ===== src/Protocol/Json/RoundTrip/Strings.antt =====
-- The reader on an escaped string, for escape_json_string of crates/pigtree-protocol/src/json.rs.
use pig_tree.Base.{ℕ, ◌/◌, ◌%◌, ◌<◌, some, [], ◌∷◌, ◌++◌, ◌≡◌, refl, arith, append_assoc}
use pig_tree.Base.Chain.{◌>>=◌}
use pig_tree.Base.Text.{Text, hex_digit, hex2}
use pig_tree.Protocol.Json.{escape_char, escape_chars}
use pig_tree.Protocol.Json.Reader.{plain, hex, hex_value, hex_move, is_digit, move, read_chars}

hex_value-hex_digit : (d : ℕ) → d < 16 → hex_value (hex_digit d) ≡ some d
unfolding hex_value hex_digit is_digit
hex_value-hex_digit d h = ground arith

-- Four digits behind `\u`, of which the first two are zeros.
read_chars-hex2 :
    (c : ℕ) (s : Text)
    → c < 128
    → read_chars (hex 3 0) (b'0' ∷ b'0' ∷ (hex2 c ++ s))
      ≡ read_chars plain s >>= λ (t, u). some (c ∷ t, u)
unfolding read_chars move hex_move hex2
read_chars-hex2 c s h =
    ground (arith, hex_value-hex_digit (c / 16) (omega arith), hex_value-hex_digit (c % 16))

read_chars-escape_char :
    (c : ℕ) (s : Text)
    → read_chars plain (escape_char c ++ s) ≡ read_chars plain s >>= λ (t, u). some (c ∷ t, u)
unfolding read_chars move escape_char
read_chars-escape_char c s = ground (arith, read_chars-hex2 c s)

pub read_chars-escape_chars :
    (t s : Text) → read_chars plain (escape_chars t ++ (b'"' ∷ s)) ≡ some (t, s)
unfolding read_chars escape_chars move
read_chars-escape_chars [] s = refl
read_chars-escape_chars (c ∷ t) s = rw (append_assoc (escape_char c) (escape_chars t) (b'"' ∷ s)) (
    rw (read_chars-escape_char c (escape_chars t ++ (b'"' ∷ s)))
      (rw (read_chars-escape_chars t s) refl))
