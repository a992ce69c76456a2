-- ===== src/Protocol/Json/Reader.antt =====
-- A reader of compact JSON, written from RFC 8259 and not from the formatters: no white space, no
-- sign, fraction or exponent, and `\u` only for ASCII. What it accepts is a JSON text.
use pig_tree.Base.{
  ℕ, zero, suc, ◌+◌, ◌-◌, ◌*◌, Bool, true, false, ◌&&◌, Option, none, some, [], ◌∷◌, leb, ltb,
  length, ◌==◌, if◌then◌else◌,
}
use pig_tree.Base.Text.{Text, codes}
use pig_tree.Base.Chain.{◌>>=◌}
use pig_tree.Protocol.Json.Value.{
  Value, Values, Fields, str, num, bool, null, arr, obj, no_items, item, no_fields, field,
}

-- Where the reader stands within a string: in `hex left v`, behind `\u` and some digits of value
-- `v`, with more than `left` digits to come.
pub data State : Type 0 where
  plain : State
  escaped : State
  hex : ℕ → ℕ → State

-- What a byte does: it ends the string, is refused, is part of an escape, or completes a byte.
pub data Move : Type 0 where
  stop : Move
  refuse : Move
  skip : State → Move
  emit : ℕ → Move

unfoldable pub is_digit : ℕ → Bool
is_digit c = leb b'0' c && leb c b'9'

unfoldable pub hex_value : ℕ → Option ℕ
unfolding is_digit
hex_value c =
    if is_digit c
    then some (c - b'0')
    else if leb b'a' c && leb c b'f'
    then some (c - b'a' + 10)
    else if leb b'A' c && leb c b'F'
    then some (c - b'A' + 10)
    else none

unfoldable pub hex_move : ℕ → ℕ → Move
hex_move zero v = if ltb v 128 then emit v else refuse
hex_move (suc left) v = skip (hex left v)

unfoldable pub move : State → ℕ → Move
unfolding hex_move hex_value
move plain c =
    if c == b'"'
    then stop
    else if c == 92
    then skip escaped
    else if ltb c 32
    then refuse
    else emit c
move escaped c =
    if c == b'"'
    then emit b'"'
    else if c == 92
    then emit 92
    else if c == b'/'
    then emit b'/'
    else if c == b'b'
    then emit 8
    else if c == b'f'
    then emit 12
    else if c == b'n'
    then emit 10
    else if c == b'r'
    then emit 13
    else if c == b't'
    then emit 9
    else if c == b'u'
    then skip (hex 3 0)
    else refuse
move (hex left v) c = elim (hex_value c) [ none ↦ refuse | some d ↦ hex_move left (v * 16 + d) ]

unfoldable pub read_chars : State → Text → Option (Text × Text)
read_chars st [] = none
read_chars st (c ∷ s) = elim (move st c) [
  | stop ↦ some ([], s)
  | refuse ↦ none
  | skip st' ↦ read_chars st' s
  | emit b ↦ read_chars plain s >>= λ (t, u). some (b ∷ t, u)
]

unfoldable pub read_digits : ℕ → Text → ℕ × Text
unfolding is_digit
read_digits n [] = (n, [])
read_digits n (c ∷ s) =
    let more = read_digits (n * 10 + (c - b'0')) s in if is_digit c then more else (n, c ∷ s)

-- No zero stands before another digit.
unfoldable pub read_number : ℕ → Text → Option (ℕ × Text)
unfolding read_digits
read_number c s =
    if c == b'0' then some (0, s) else if is_digit c then some (read_digits (c - b'0') s) else none

unfoldable pub expect : Text → Text → Option Text
expect [] s = some s
expect (w ∷ ws) [] = none
expect (w ∷ ws) (c ∷ s) = let more = expect ws s in if w == c then more else none

-- What the first byte of a value announces; a word has the rest of its letters and its value.
pub data Start : Type 0 where
  quote : Start
  digit : Start
  bracket : Start
  brace : Start
  word : Text → Value → Start
  other : Start

unfoldable pub start : ℕ → Start
unfolding is_digit
start c =
    if c == b'"'
    then quote
    else if is_digit c
    then digit
    else if c == b'['
    then bracket
    else if c == b'{'
    then brace
    else if c == b't'
    then word (codes "rue") (bool true)
    else if c == b'f'
    then word (codes "alse") (bool false)
    else if c == b'n'
    then word (codes "ull") null
    else other

unfoldable pub read_key : Text → Option (Text × Text)
unfolding read_chars
read_key s = expect (codes "\"") s >>= λ t.
    read_chars plain t >>= λ (k, u). expect (codes ":") u >>= λ r. some (k, r)

-- `read_list` and `read_object` stand behind the opening bracket, `read_items` and `read_fields`
-- behind an item. Each call takes a unit of fuel.
unfoldable mutual
  pub read_value : ℕ → Text → Option (Value × Text)
  read_value zero s = none
  read_value (suc k) [] = none
  read_value (suc k) (c ∷ s) = elim (start c) [
    | quote ↦ read_chars plain s >>= λ (t, u). some (str t, u)
    | digit ↦ read_number c s >>= λ (n, u). some (num n, u)
    | bracket ↦ read_list k s >>= λ (vs, u). some (arr vs, u)
    | brace ↦ read_object k s >>= λ (fs, u). some (obj fs, u)
    | word w v ↦ expect w s >>= λ u. some (v, u)
    | other ↦ none
  ]

  pub read_list : ℕ → Text → Option (Values × Text)
  read_list k [] = none
  read_list zero s = none
  read_list (suc k) (c ∷ s) = elim (c == b']') [
    | true ↦ some (no_items, s)
    | false ↦ read_value k (c ∷ s) >>= λ (v, t). read_items k t >>= λ (vs, u). some (item v vs, u)
  ]

  pub read_items : ℕ → Text → Option (Values × Text)
  read_items k [] = none
  read_items zero s = none
  read_items (suc k) (c ∷ s) = elim (c == b']') [
    | true ↦ some (no_items, s)
    | false ↦ expect (codes ",") (c ∷ s) >>= λ r.
        read_value k r >>= λ (v, t). read_items k t >>= λ (vs, u). some (item v vs, u)
  ]

  pub read_object : ℕ → Text → Option (Fields × Text)
  read_object k [] = none
  read_object zero s = none
  read_object (suc k) (c ∷ s) = elim (c == b'}') [
    | true ↦ some (no_fields, s)
    | false ↦ read_field k (c ∷ s)
  ]

  pub read_fields : ℕ → Text → Option (Fields × Text)
  read_fields k [] = none
  read_fields zero s = none
  read_fields (suc k) (c ∷ s) = elim (c == b'}') [
    | true ↦ some (no_fields, s)
    | false ↦ expect (codes ",") (c ∷ s) >>= λ r. read_field k r
  ]

  pub read_field : ℕ → Text → Option (Fields × Text)
  read_field zero s = none
  read_field (suc k) s = read_key s >>= λ (n, r).
      read_value k r >>= λ (v, t). read_fields k t >>= λ (fs, u). some (field n v fs, u)

whole : Option (Value × Text) → Option Value
whole none = none
whole (some (v, [])) = some v
whole (some (v, (c ∷ s))) = none

-- A text that is one value and no more. Four units of fuel for a byte are enough
-- (`RoundTrip.read_text-render`).
unfoldable pub read_text : Text → Option Value
unfolding read_value whole
read_text s = whole (read_value (4 * length s) s)
