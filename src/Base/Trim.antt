-- ===== src/Base/Trim.antt =====
-- `str::trim`: it removes the characters of the Unicode property White_Space from both ends.
use pig_tree.Base.Text.{Text, starts_with}
use pig_tree.Base.Lists.{length, take, drop, take-append-drop, length-drop, length-append, All}
use Prim.Native.Nat.{ℕ, zero, suc, ◌≤◌, ◌<◌}
use mathlib.Core.Path.{◌≡◌, refl, sym, ap, ◌∙◌}
use mathlib.Core.List.{
  List, [], ◌∷◌, ◌++◌, map, reverse, reverse-append, reverse-cons, reverse-reverse, append_assoc,
}
use native.Mathlib.Omega.{arith}
use mathlib.Core.Option.{Option, none, some}
use pig_tree.Base.Tests.{if◌then◌else◌, Bool-cases}
use mathlib.Core.Logic.{inl, inr}
use mathlib.Core.Bool.{true}

-- The characters of the property, in UTF-8.
abbrev white_space : List Text
white_space =
    (9 ∷ [])
    ∷ (10 ∷ [])
    ∷ (11 ∷ [])
    ∷ (12 ∷ [])
    ∷ (13 ∷ [])
    ∷ (32 ∷ [])
    ∷ (0xc2 ∷ 0x85 ∷ [])
    ∷ (0xc2 ∷ 0xa0 ∷ [])
    ∷ (0xe1 ∷ 0x9a ∷ 0x80 ∷ [])
    ∷ (0xe2 ∷ 0x80 ∷ 0x80 ∷ [])
    ∷ (0xe2 ∷ 0x80 ∷ 0x81 ∷ [])
    ∷ (0xe2 ∷ 0x80 ∷ 0x82 ∷ [])
    ∷ (0xe2 ∷ 0x80 ∷ 0x83 ∷ [])
    ∷ (0xe2 ∷ 0x80 ∷ 0x84 ∷ [])
    ∷ (0xe2 ∷ 0x80 ∷ 0x85 ∷ [])
    ∷ (0xe2 ∷ 0x80 ∷ 0x86 ∷ [])
    ∷ (0xe2 ∷ 0x80 ∷ 0x87 ∷ [])
    ∷ (0xe2 ∷ 0x80 ∷ 0x88 ∷ [])
    ∷ (0xe2 ∷ 0x80 ∷ 0x89 ∷ [])
    ∷ (0xe2 ∷ 0x80 ∷ 0x8a ∷ [])
    ∷ (0xe2 ∷ 0x80 ∷ 0xa8 ∷ [])
    ∷ (0xe2 ∷ 0x80 ∷ 0xa9 ∷ [])
    ∷ (0xe2 ∷ 0x80 ∷ 0xaf ∷ [])
    ∷ (0xe2 ∷ 0x81 ∷ 0x9f ∷ [])
    ∷ (0xe3 ∷ 0x80 ∷ 0x80 ∷ [])
    ∷ []

-- The text behind the first of these that it begins with.
strip_any : List Text → Text → Option Text
strip_any [] s = none
strip_any (w ∷ ws) s =
    let more = strip_any ws s in if starts_with s w then some (drop (length w) s) else more

-- Each turn removes a byte or more, so the length is fuel enough.
strip_all : ℕ → List Text → Text → Text
strip_all zero ws s = s
strip_all (suc fuel) ws s = elim (strip_any ws s) [ none ↦ s | some rest ↦ strip_all fuel ws rest ]

unfoldable pub trim : Text → Text
unfolding strip_all strip_any starts_with
trim s =
    let t = strip_all (length s) white_space s in
    reverse (strip_all (length t) (map reverse white_space) (reverse t))

starts_with-append : (s v w : Text) → starts_with s w ≡ true → starts_with (s ++ v) w ≡ true
unfolding starts_with
starts_with-append s v [] h = refl
starts_with-append [] v (b ∷ w) h = cc
starts_with-append (a ∷ s) v (b ∷ w) h = ground (arith, starts_with-append s v w)

starts_with-length : (s w : Text) → starts_with s w ≡ true → length w ≤ length s
unfolding starts_with
starts_with-length s [] h = omega arith
starts_with-length [] (b ∷ w) h = absurd cc
starts_with-length (a ∷ s) (b ∷ w) h = ground (arith, starts_with-length s w)

-- A text that begins with none of these has no part in front that does.
strip_any-append :
    (ws : List Text) (s v : Text) → strip_any ws (s ++ v) ≡ none → strip_any ws s ≡ none
unfolding strip_any
strip_any-append [] s v h = refl
strip_any-append (w ∷ ws) s v h = elim (Bool-cases (starts_with s w)) [
  | inl front ↦ absurd (let longer = starts_with-append s v w front in ground arith)
  | inr other ↦ ground (arith, strip_any-append ws s v)
]

strip_any-length :
    (ws : List Text) (s rest : Text)
    → All (λ w. 0 < length w) ws
    → strip_any ws s ≡ some rest
    → (length rest < length s) × ((p : Text) × (s ≡ p ++ rest))
unfolding strip_any
strip_any-length [] s rest h e = absurd cc
strip_any-length (w ∷ ws) s rest (hw, hs) e = elim (Bool-cases (starts_with s w)) [
  | inl front ↦
      let same : drop (length w) s ≡ rest = ground arith in
      let long = starts_with-length s w front in
      (
        omega (arith, length-drop (length w) s, ap length same),
        (take (length w) s, rw (← same) (sym (take-append-drop (length w) s))),
      )
  | inr other ↦ strip_any-length ws s rest hs (ground arith)
]

strip_any-nil : (ws : List Text) → All (λ w. 0 < length w) ws → strip_any ws [] ≡ none
unfolding strip_any starts_with
strip_any-nil [] h = refl
strip_any-nil ([] ∷ ws) (hw, hs) = absurd (omega arith)
strip_any-nil ((c ∷ w) ∷ ws) (hw, hs) = strip_any-nil ws hs

strip_all-fixed :
    (fuel : ℕ) (ws : List Text) (s : Text) → strip_any ws s ≡ none → strip_all fuel ws s ≡ s
unfolding strip_all
strip_all-fixed zero ws s h = refl
strip_all-fixed (suc fuel) ws s h = rw (strip_all, h) refl

module _ (ws : List Text) (filled : All (λ w. 0 < length w) ws) where
  done_by :
      (fuel : ℕ) (s : Text) (o : Option Text)
      → length s ≤ suc fuel
      → ((rest : Text) → length rest ≤ fuel → strip_any ws (strip_all fuel ws rest) ≡ none)
      → strip_any ws s ≡ o
      → strip_any ws (elim o [ none ↦ s | some rest ↦ strip_all fuel ws rest ]) ≡ none
  done_by fuel s none fits later e = e
  done_by fuel s (some rest) fits later e =
      let (shorter, _) = strip_any-length ws s rest filled e in later rest (omega arith)

  strip_all-done :
      (fuel : ℕ) (s : Text) → length s ≤ fuel → strip_any ws (strip_all fuel ws s) ≡ none
  unfolding strip_all
  strip_all-done zero [] h = strip_any-nil ws filled
  strip_all-done zero (c ∷ s) h = absurd (omega arith)
  strip_all-done (suc fuel) s h =
      done_by fuel s (strip_any ws s) h (λ rest fits. strip_all-done fuel rest fits) refl

  suffix_by :
      (fuel : ℕ) (s : Text) (o : Option Text)
      → ((rest : Text) → (p : Text) × (rest ≡ p ++ strip_all fuel ws rest))
      → strip_any ws s ≡ o
      → (p : Text) × (s ≡ p ++ elim o [ none ↦ s | some rest ↦ strip_all fuel ws rest ])
  suffix_by fuel s none later e = ([], refl)
  suffix_by fuel s (some rest) later e =
      let (_, (p, cut)) = strip_any-length ws s rest filled e in
      let (q, more) = later rest in
      (
        p ++ q,
        cut ∙ ap (λ (t : Text). p ++ t) more ∙ sym (append_assoc p q (strip_all fuel ws rest)),
      )

  -- What is left is the end of the text.
  strip_all-suffix : (fuel : ℕ) (s : Text) → (p : Text) × (s ≡ p ++ strip_all fuel ws s)
  unfolding strip_all
  strip_all-suffix zero s = ([], refl)
  strip_all-suffix (suc fuel) s =
      suffix_by fuel s (strip_any ws s) (λ rest. strip_all-suffix fuel rest) refl

length-reverse : (s : Text) → length (reverse s) ≡ length s
length-reverse [] = refl
length-reverse (c ∷ s) =
    rw (reverse-cons c s) (omega (arith, length-append (reverse s) (c ∷ []), length-reverse s))

spaces_filled : All (λ w. 0 < length w) white_space
spaces_filled = ground arith

reversed_filled : All (λ w. 0 < length w) (map reverse white_space)
reversed_filled = ground arith

-- The text that is left when both ends are stripped has neither.
stripped :
    (s : Text)
    → (strip_any white_space (trim s) ≡ none)
      × (strip_any (map reverse white_space) (reverse (trim s)) ≡ none)
unfolding trim
stripped s =
    let t = strip_all (length s) white_space s in
    let r = strip_all (length t) (map reverse white_space) (reverse t) in
    let (p, cut) =
      strip_all-suffix (map reverse white_space) reversed_filled (length t) (reverse t) in
    let split : t ≡ reverse r ++ reverse p =
      sym (reverse-reverse t) ∙ ap reverse cut ∙ reverse-append p r in
    let front : strip_any white_space t ≡ none =
      strip_all-done white_space spaces_filled (length s) s (omega arith) in
    let back : strip_any (map reverse white_space) r ≡ none =
      strip_all-done (map reverse white_space) reversed_filled (length t) (reverse t)
        (omega (arith, length-reverse t)) in
    (
      strip_any-append white_space (reverse r) (reverse p) (rw (← split) front),
      rw (reverse-reverse r) back,
    )

trim_fixed :
    (u : Text)
    → strip_any white_space u ≡ none
    → strip_any (map reverse white_space) (reverse u) ≡ none
    → trim u ≡ u
unfolding trim
trim_fixed u front back =
    rw
      (
        strip_all-fixed (length u) white_space u front,
        strip_all-fixed (length u) (map reverse white_space) (reverse u) back,
      )
      (reverse-reverse u)

-- A trimmed text has no white space at its ends, so that it is not trimmed any further.
pub trim-trim : (s : Text) → trim (trim s) ≡ trim s
trim-trim s = let (front, back) = stripped s in trim_fixed (trim s) front back
