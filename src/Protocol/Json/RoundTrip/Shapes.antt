-- ===== src/Protocol/Json/RoundTrip/Shapes.antt =====
-- Lists and objects as JSON values, and the texts of lists that `join` or a loop makes.
use pig_tree.Base.{List, [], ◌∷◌, ◌++◌, ◌≡◌, refl, map, append_assoc, ap}
use pig_tree.Base.Text.{Text, codes, decimal, bool_text, join}
use pig_tree.Protocol.Json.{escape_json_string}
use pig_tree.Protocol.Json.Value.{
  Value, Values, Fields, str, num, bool, null, arr, obj, no_items, item, no_fields, field, render,
  render_items, render_fields,
}

abbrev pub fields : List (Text × Value) → Fields
fields [] = no_fields
fields ((k, v) ∷ fs) = field k v (fields fs)

abbrev pub object : List (Text × Value) → Value
object fs = obj (fields fs)

module _ {A : Type 0} (f : A → Text) (g : A → Value) where
  abbrev pub values : List A → Values
  values [] = no_items
  values (x ∷ xs) = item (g x) (values xs)

  module _ (agree : (x : A) (rest : Text) → f x ++ rest ≡ render (g x) rest) where
    pub join-items :
        (x : A) (xs : List A) (rest : Text)
        → join (codes ",") (map f (x ∷ xs)) ++ (b']' ∷ rest)
          ≡ render (g x) (render_items (values xs) rest)
    unfolding join render
    join-items x [] rest = agree x (b']' ∷ rest)
    join-items x (y ∷ ys) rest =
        rw (append_assoc (f x) (b',' ∷ join (codes ",") (map f (y ∷ ys))) (b']' ∷ rest))
          (rw (join-items y ys rest) (agree x (render_items (values (y ∷ ys)) rest)))

    pub join-list :
        (xs : List A) (rest : Text)
        → b'[' ∷ (join (codes ",") (map f xs) ++ (b']' ∷ rest)) ≡ render (arr (values xs)) rest
    unfolding join render
    join-list [] rest = refl
    join-list (x ∷ xs) rest = ap (λ (t : Text). b'[' ∷ t) (join-items x xs rest)

mutual
  unfolding render

  pub render-append : (v : Value) (rest s : Text) → render v rest ++ s ≡ render v (rest ++ s)
  render-append (str t) rest s = append_assoc (escape_json_string t) rest s
  render-append (num n) rest s = append_assoc (decimal n) rest s
  render-append (bool b) rest s = append_assoc (bool_text b) rest s
  render-append null rest s = refl
  render-append (arr no_items) rest s = refl
  render-append (arr (item v vs)) rest s =
      rw (render-append v (render_items vs rest) s) (rw (render_items-append vs rest s) refl)
  render-append (obj no_fields) rest s = refl
  render-append (obj (field k v fs)) rest s =
      rw (append_assoc (escape_json_string k) (b':' ∷ render v (render_fields fs rest)) s)
        (rw (render-append v (render_fields fs rest) s) (rw (render_fields-append fs rest s) refl))

  render_items-append :
      (vs : Values) (rest s : Text) → render_items vs rest ++ s ≡ render_items vs (rest ++ s)
  render_items-append no_items rest s = refl
  render_items-append (item v vs) rest s =
      rw (render-append v (render_items vs rest) s) (rw (render_items-append vs rest s) refl)

  render_fields-append :
      (fs : Fields) (rest s : Text) → render_fields fs rest ++ s ≡ render_fields fs (rest ++ s)
  render_fields-append no_fields rest s = refl
  render_fields-append (field k v fs) rest s =
      rw (append_assoc (escape_json_string k) (b':' ∷ render v (render_fields fs rest)) s)
        (rw (render-append v (render_fields fs rest) s) (rw (render_fields-append fs rest s) refl))
