-- ===== src/Protocol/Json/RoundTrip/Values.antt =====
-- The reader on a rendered value, whatever stands behind it.
use pig_tree.Base.{
  ℕ, zero, suc, ◌+◌, ◌≤◌, Bool, true, false, not, some, [], ◌∷◌, ◌++◌, ◌≡◌, refl, arith,
  append_assoc, ◌==◌,
}
use pig_tree.Base.Chain.{◌>>=◌}
use pig_tree.Base.Text.{Text, codes, decimal, bool_text}
use pig_tree.Protocol.Json.{escape_json_string, escape_chars}
use pig_tree.Protocol.Json.Value.{
  Value, Values, Fields, str, num, bool, null, arr, obj, no_items, item, no_fields, field, render,
  render_items, render_fields,
}
use pig_tree.Protocol.Json.Reader.{
  is_digit, read_number, start, expect, read_key, read_value, read_list, read_items, read_fields,
  read_field,
}
use pig_tree.Protocol.Json.RoundTrip.Strings.{read_chars-escape_chars}
use pig_tree.Protocol.Json.RoundTrip.Numbers.{starts_digit, read_head, read_head-decimal}

-- The fuel that the reader needs for a value.
unfoldable mutual
  pub weight : Value → ℕ
  weight (str s) = 1
  weight (num n) = 1
  weight (bool b) = 1
  weight null = 1
  weight (arr vs) = 2 + weight_items vs
  weight (obj fs) = 2 + weight_fields fs

  pub weight_items : Values → ℕ
  weight_items no_items = 1
  weight_items (item v vs) = 2 + weight v + weight_items vs

  pub weight_fields : Fields → ℕ
  weight_fields no_fields = 1
  weight_fields (field k v fs) = 3 + weight v + weight_fields fs

read_value-num :
    (k n : ℕ) (x s : Text) → read_head x ≡ some (n, s) → read_value (suc k) x ≡ some (num n, s)
unfolding read_head read_value start read_number
read_value-num k n [] s h = cc
read_value-num k n (c ∷ t) s h = ground arith

read_value-str :
    (k : ℕ) (s rest : Text) → read_value (suc k) (escape_json_string s ++ rest) ≡ some (str s, rest)
unfolding read_value start escape_json_string
read_value-str k s rest =
    rw (append_assoc (escape_chars s) (codes "\"") rest) (rw (read_chars-escape_chars s rest) refl)

read_key-escape :
    (s rest : Text) → read_key (escape_json_string s ++ (b':' ∷ rest)) ≡ some (s, rest)
unfolding read_key escape_json_string expect
read_key-escape s rest =
    rw (append_assoc (escape_chars s) (codes "\"") (b':' ∷ rest))
      (rw (read_chars-escape_chars s (b':' ∷ rest)) refl)

read_value-bool :
    (k : ℕ) (b : Bool) (rest : Text)
    → read_value (suc k) (bool_text b ++ rest) ≡ some (bool b, rest)
unfolding read_value start bool_text expect is_digit
read_value-bool k true rest = refl
read_value-bool k false rest = refl

items_end : (vs : Values) (rest : Text) → starts_digit (render_items vs rest) ≡ false
unfolding render_items starts_digit is_digit
items_end no_items rest = refl
items_end (item v vs) rest = refl

fields_end : (fs : Fields) (rest : Text) → starts_digit (render_fields fs rest) ≡ false
unfolding render_fields starts_digit is_digit
fields_end no_fields rest = refl
fields_end (field k v fs) rest = refl

-- The first byte of a value closes no bracket.
opens : Text → Bool
opens [] = false
opens (c ∷ s) = not (c == b']')

opens-read_head : (x s : Text) (n : ℕ) → read_head x ≡ some (n, s) → opens x ≡ true
unfolding read_head read_number opens is_digit
opens-read_head [] s n h = cc
opens-read_head (c ∷ t) s n h = ground arith

opens-render : (v : Value) (rest : Text) → starts_digit rest ≡ false → opens (render v rest) ≡ true
unfolding render opens escape_json_string bool_text
opens-render (str s) rest e = refl
opens-render (num n) rest e =
    opens-read_head (decimal n ++ rest) rest n (read_head-decimal n rest e)
opens-render (bool true) rest e = refl
opens-render (bool false) rest e = refl
opens-render null rest e = refl
opens-render (arr no_items) rest e = refl
opens-render (arr (item v vs)) rest e = refl
opens-render (obj no_fields) rest e = refl
opens-render (obj (field k v fs)) rest e = refl

read_list-opens :
    (k : ℕ) (x : Text)
    → opens x ≡ true
    → read_list (suc k) x
      ≡ read_value k x >>= λ (v, t). read_items k t >>= λ (vs, u). some (item v vs, u)
unfolding opens read_value
read_list-opens k [] h = cc
read_list-opens k (c ∷ t) h = ground arith

weight-positive : (v : Value) → 1 ≤ weight v
unfolding weight
weight-positive (str s) = omega arith
weight-positive (num n) = omega arith
weight-positive (bool b) = omega arith
weight-positive null = omega arith
weight-positive (arr vs) = omega arith
weight-positive (obj fs) = omega arith

mutual
  unfolding render weight read_value start expect is_digit escape_json_string

  pub read_value-render :
      (v : Value) (k : ℕ) (rest : Text)
      → weight v ≤ k
      → starts_digit rest ≡ false
      → read_value k (render v rest) ≡ some (v, rest)
  read_value-render v zero rest h e = absurd (omega (arith, weight-positive v))
  read_value-render (str s) (suc k) rest h e = read_value-str k s rest
  read_value-render (num n) (suc k) rest h e =
      read_value-num k n (decimal n ++ rest) rest (read_head-decimal n rest e)
  read_value-render (bool b) (suc k) rest h e = read_value-bool k b rest
  read_value-render null (suc k) rest h e = refl
  read_value-render (arr no_items) (suc zero) rest h e = absurd (omega arith)
  read_value-render (arr no_items) (suc (suc k)) rest h e = refl
  read_value-render (arr (item v vs)) (suc zero) rest h e = absurd (omega arith)
  read_value-render (arr (item v vs)) (suc (suc k)) rest h e =
      let behind = render_items vs rest in
      rw (read_list-opens k (render v behind) (opens-render v behind (items_end vs rest))) (
        rw (read_value-render v k behind (omega arith) (items_end vs rest))
          (rw (read_items-render vs k rest (omega arith)) refl))
  read_value-render (obj no_fields) (suc zero) rest h e = absurd (omega arith)
  read_value-render (obj no_fields) (suc (suc k)) rest h e = refl
  read_value-render (obj (field n v fs)) (suc zero) rest h e = absurd (omega arith)
  read_value-render (obj (field n v fs)) (suc (suc k)) rest h e =
      rw (read_field-render n v fs k rest (omega arith)) refl

  read_items-render :
      (vs : Values) (k : ℕ) (rest : Text)
      → weight_items vs ≤ k
      → read_items k (render_items vs rest) ≡ some (vs, rest)
  read_items-render no_items zero rest h = absurd (omega arith)
  read_items-render no_items (suc k) rest h = refl
  read_items-render (item v vs) zero rest h = absurd (omega arith)
  read_items-render (item v vs) (suc k) rest h =
      rw (read_value-render v k (render_items vs rest) (omega arith) (items_end vs rest))
        (rw (read_items-render vs k rest (omega arith)) refl)

  read_fields-render :
      (fs : Fields) (k : ℕ) (rest : Text)
      → weight_fields fs ≤ k
      → read_fields k (render_fields fs rest) ≡ some (fs, rest)
  read_fields-render no_fields zero rest h = absurd (omega arith)
  read_fields-render no_fields (suc k) rest h = refl
  read_fields-render (field n v fs) zero rest h = absurd (omega arith)
  read_fields-render (field n v fs) (suc k) rest h = read_field-render n v fs k rest (omega arith)

  read_field-render :
      (n : Text) (v : Value) (fs : Fields) (k : ℕ) (rest : Text)
      → 2 + weight v + weight_fields fs ≤ k
      → read_field k (escape_json_string n ++ (b':' ∷ render v (render_fields fs rest)))
        ≡ some (field n v fs, rest)
  read_field-render n v fs zero rest h = absurd (omega arith)
  read_field-render n v fs (suc k) rest h =
      rw (read_key-escape n (render v (render_fields fs rest))) (
        rw (read_value-render v k (render_fields fs rest) (omega arith) (fields_end fs rest))
          (rw (read_fields-render fs k rest (omega arith)) refl))
