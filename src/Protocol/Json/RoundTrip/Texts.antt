-- ===== src/Protocol/Json/RoundTrip/Texts.antt =====
-- The reader of a whole text: its fuel is enough for every rendered value.
use pig_tree.Base.{
  ℕ, zero, suc, ◌+◌, ◌*◌, ◌/◌, ◌%◌, ◌≤◌, Bool, true, false, some, [], ◌∷◌, ◌≡◌, refl, arith, length,
  length-append,
}
use pig_tree.Base.Text.{Text, digits, decimal, bool_text}
use pig_tree.Protocol.Json.{escape_json_string}
use pig_tree.Protocol.Json.Value.{
  Value, Values, Fields, str, num, bool, null, arr, obj, no_items, item, no_fields, field, render,
  render_items, render_fields,
}
use pig_tree.Protocol.Json.Reader.{read_text}
use pig_tree.Protocol.Json.RoundTrip.Values.{weight, weight_items, weight_fields, read_value-render}
use pig_tree.Protocol.Json.RoundTrip.Numbers.{starts_digit}

length-digits : (fuel n : ℕ) (out : Text) → length out ≤ length (digits fuel n out)
unfolding digits
length-digits zero n out = omega arith
length-digits (suc fuel) n out = ground (arith, length-digits fuel (n / 10) ((b'0' + n % 10) ∷ out))

length-decimal : (n : ℕ) → 1 ≤ length (decimal n)
unfolding decimal digits
length-decimal n = ground (arith, length-digits n (n / 10) ((b'0' + n % 10) ∷ []))

length-escape_json_string : (s : Text) → 1 ≤ length (escape_json_string s)
unfolding escape_json_string
length-escape_json_string s = omega arith

length-bool_text : (b : Bool) → 1 ≤ length (bool_text b)
unfolding bool_text
length-bool_text true = omega arith
length-bool_text false = omega arith

mutual
  unfolding render weight

  weight-le : (v : Value) (rest : Text) → weight v + 4 * length rest ≤ 4 * length (render v rest)
  weight-le (str s) rest =
      omega (arith, length-append (escape_json_string s) rest, length-escape_json_string s)
  weight-le (num n) rest = omega (arith, length-append (decimal n) rest, length-decimal n)
  weight-le (bool b) rest = omega (arith, length-append (bool_text b) rest, length-bool_text b)
  weight-le null rest = omega arith
  weight-le (arr no_items) rest = omega arith
  weight-le (arr (item v vs)) rest =
      omega (arith, weight-le v (render_items vs rest), weight_items-le vs rest)
  weight-le (obj no_fields) rest = omega arith
  weight-le (obj (field k v fs)) rest = omega (
    arith,
    weight-le v (render_fields fs rest),
    weight_fields-le fs rest,
    length-append (escape_json_string k) (b':' ∷ render v (render_fields fs rest)),
    length-escape_json_string k,
  )

  weight_items-le :
      (vs : Values) (rest : Text)
      → weight_items vs + 4 * length rest ≤ 4 * length (render_items vs rest)
  weight_items-le no_items rest = omega arith
  weight_items-le (item v vs) rest =
      omega (arith, weight-le v (render_items vs rest), weight_items-le vs rest)

  weight_fields-le :
      (fs : Fields) (rest : Text)
      → weight_fields fs + 4 * length rest ≤ 4 * length (render_fields fs rest)
  weight_fields-le no_fields rest = omega arith
  weight_fields-le (field k v fs) rest = omega (
    arith,
    weight-le v (render_fields fs rest),
    weight_fields-le fs rest,
    length-append (escape_json_string k) (b':' ∷ render v (render_fields fs rest)),
    length-escape_json_string k,
  )

pub read_text-render : (v : Value) → read_text (render v []) ≡ some v
unfolding read_text starts_digit
read_text-render v =
    rw (read_value-render v (4 * length (render v [])) [] (omega (arith, weight-le v [])) refl) refl
