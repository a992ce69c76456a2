-- ===== src/Protocol/Json/Value.antt =====
-- JSON values (RFC 8259) as far as the program writes them, and their compact texts. A number is
-- unsigned; a text stands before a rest, so that the parts need no `++`.
use pig_tree.Base.{ℕ, Bool, ◌∷◌, ◌++◌}
use pig_tree.Base.Text.{Text, decimal, bool_text}
use pig_tree.Protocol.Json.{escape_json_string}

mutual
  pub data Value : Type 0 where
    str : Text → Value
    num : ℕ → Value
    bool : Bool → Value
    null : Value
    arr : Values → Value
    obj : Fields → Value

  pub data Values : Type 0 where
    no_items : Values
    item : Value → Values → Values

  pub data Fields : Type 0 where
    no_fields : Fields
    field : Text → Value → Fields → Fields

unfoldable mutual
  pub render : Value → Text → Text
  render (str s) rest = escape_json_string s ++ rest
  render (num n) rest = decimal n ++ rest
  render (bool b) rest = bool_text b ++ rest
  render null rest = b'n' ∷ b'u' ∷ b'l' ∷ b'l' ∷ rest
  render (arr no_items) rest = b'[' ∷ b']' ∷ rest
  render (arr (item v vs)) rest = b'[' ∷ render v (render_items vs rest)
  render (obj no_fields) rest = b'{' ∷ b'}' ∷ rest
  render (obj (field k v fs)) rest =
      b'{' ∷ (escape_json_string k ++ (b':' ∷ render v (render_fields fs rest)))

  -- What follows the first item, with the closing bracket.
  pub render_items : Values → Text → Text
  render_items no_items rest = b']' ∷ rest
  render_items (item v vs) rest = b',' ∷ render v (render_items vs rest)

  pub render_fields : Fields → Text → Text
  render_fields no_fields rest = b'}' ∷ rest
  render_fields (field k v fs) rest =
      b',' ∷ (escape_json_string k ++ (b':' ∷ render v (render_fields fs rest)))
