-- ===== src/Ipc/CommandLine/Quoted.antt =====
-- What a program makes of an argument in quotes, for `quote_windows_arg` of
-- crates/pigtree-ipc/src/process.rs.
use pig_tree.Base.{
  ℕ, zero, suc, ◌+◌, ◌*◌, ◌/◌, ◌%◌, Bool, true, false, not, ◌&&◌, ◌||◌, [], ◌∷◌, ◌++◌, append_assoc,
  append-nil, ◌==◌, ◌≡◌, refl, ap, subst, ◌∙◌, arith, inl, inr, Bool-cases,
}
use pig_tree.Base.Text.{Text, codes}
use pig_tree.Ipc.CommandLine.{slashes, quote_chars}
use pig_tree.Ipc.CommandLine.Argv.{inside, argv_from}

pub slashes-append : (n : ℕ) (s : Text) → slashes (suc n) ++ s ≡ slashes n ++ (92 ∷ s)
unfolding slashes
slashes-append zero s = refl
slashes-append (suc n) s = ap (λ (t : Text). 92 ∷ t) (slashes-append n s)

argv_from-slashes :
    (q : Bool) (k n : ℕ) (acc s : Text)
    → argv_from (inside q n acc) (slashes k ++ s) ≡ argv_from (inside q (k + n) acc) s
unfolding slashes argv_from
argv_from-slashes q zero n acc s = ap (λ (m : ℕ). argv_from (inside q m acc) s) (omega arith)
argv_from-slashes q (suc k) n acc s =
    rw (argv_from-slashes q k (suc n) acc s)
      (ap (λ (m : ℕ). argv_from (inside q m acc) s) (omega arith))

-- A quote behind an even number of backslashes ends or begins a quoted part, behind an odd number it
-- is a character.
half_even :
    (q : Bool) (m : ℕ) (acc s : Text)
    → m % 2 ≡ 0
    → argv_from (inside q m acc) (b'"' ∷ s)
      ≡ argv_from (inside (not q) 0 (acc ++ slashes (m / 2))) s
unfolding argv_from
half_even q m acc s e = ground arith

half_odd :
    (q : Bool) (m : ℕ) (acc s : Text)
    → m % 2 ≡ 1
    → argv_from (inside q m acc) (b'"' ∷ s)
      ≡ argv_from (inside q 0 (acc ++ (slashes (m / 2) ++ (b'"' ∷ [])))) s
unfolding argv_from
half_odd q m acc s e = ground arith

quote_even :
    (q : Bool) (n : ℕ) (acc s : Text)
    → argv_from (inside q (n * 2 + 0) acc) (b'"' ∷ s)
      ≡ argv_from (inside (not q) 0 (acc ++ slashes n)) s
quote_even q n acc s =
    half_even q (n * 2 + 0) acc s (omega arith)
    ∙ ap (λ (m : ℕ). argv_from (inside (not q) 0 (acc ++ slashes m)) s) (omega arith)

quote_odd :
    (q : Bool) (n : ℕ) (acc s : Text)
    → argv_from (inside q (n * 2 + 1 + 0) acc) (b'"' ∷ s)
      ≡ argv_from (inside q 0 (acc ++ (slashes n ++ (b'"' ∷ [])))) s
quote_odd q n acc s =
    half_odd q (n * 2 + 1 + 0) acc s (omega arith)
    ∙ ap (λ (m : ℕ). argv_from (inside q 0 (acc ++ (slashes m ++ (b'"' ∷ [])))) s) (omega arith)

-- Other characters: outside quotes, but for blanks.
pub plain_char :
    (q : Bool) (n c : ℕ) (acc s : Text)
    → (c == 92) ≡ false
    → (c == b'"') ≡ false
    → ((c == 32) || (c == 9)) && not q ≡ false
    → argv_from (inside q n acc) (c ∷ s) ≡ argv_from (inside q 0 (acc ++ (slashes n ++ (c ∷ [])))) s
unfolding argv_from
plain_char q n c acc s h1 h2 h3 = ground arith

quote_chars-nil : (n : ℕ) → quote_chars n [] ≡ slashes (n * 2) ++ codes "\""
unfolding quote_chars
quote_chars-nil n = refl

-- The three branches of the loop.
quote_chars-slash : (n : ℕ) (s : Text) → quote_chars n (92 ∷ s) ≡ quote_chars (suc n) s
unfolding quote_chars
quote_chars-slash n s = refl

quote_chars-quote :
    (n : ℕ) (s : Text) → quote_chars n (b'"' ∷ s) ≡ slashes (n * 2 + 1) ++ (b'"' ∷ quote_chars 0 s)
unfolding quote_chars
quote_chars-quote n s = refl

quote_chars-plain :
    (n c : ℕ) (s : Text)
    → (c == 92) ≡ false
    → (c == b'"') ≡ false
    → quote_chars n (c ∷ s) ≡ slashes n ++ (c ∷ quote_chars 0 s)
unfolding quote_chars
quote_chars-plain n c s h1 h2 = ground arith

-- The text so far, the held backslashes and a character, before the rest of the argument.
pub regroup : (acc u s : Text) (c : ℕ) → (acc ++ (u ++ (c ∷ []))) ++ s ≡ acc ++ (u ++ (c ∷ s))
regroup acc u s c = rw (append_assoc acc (u ++ (c ∷ [])) s) (rw (append_assoc u (c ∷ []) s) refl)

-- What the loop writes of the rest `s` of an argument, in quotes.
pub argv_from-quote_chars :
    (n : ℕ) (s acc rest : Text)
    → argv_from (inside true 0 acc) (quote_chars n s ++ rest)
      ≡ argv_from (inside false 0 (acc ++ (slashes n ++ s))) rest
unfolding slashes
argv_from-quote_chars n [] acc rest = rw (quote_chars-nil n) (
    rw (append_assoc (slashes (n * 2)) (codes "\"") rest) (
      rw (argv_from-slashes true (n * 2) 0 acc (b'"' ∷ rest))
        (rw (quote_even true n acc rest) (rw (append-nil (slashes n)) refl))))
argv_from-quote_chars n (c ∷ s) acc rest = elim (Bool-cases (c == 92)) [
  | inl slash ↦
      let is_slash : 92 ≡ c = ground arith in
      subst
        (λ (d : ℕ).
          argv_from (inside true 0 acc) (quote_chars n (d ∷ s) ++ rest)
          ≡ argv_from (inside false 0 (acc ++ (slashes n ++ (d ∷ s)))) rest)
        is_slash
        (rw (quote_chars-slash n s)
          (rw (argv_from-quote_chars (suc n) s acc rest) (rw (slashes-append n s) refl)))
  | inr other ↦ elim (Bool-cases (c == b'"')) [
    | inl quote ↦
        let is_quote : b'"' ≡ c = ground arith in
        subst
          (λ (d : ℕ).
            argv_from (inside true 0 acc) (quote_chars n (d ∷ s) ++ rest)
            ≡ argv_from (inside false 0 (acc ++ (slashes n ++ (d ∷ s)))) rest)
          is_quote
          (rw (quote_chars-quote n s) (
            rw (append_assoc (slashes (n * 2 + 1)) (b'"' ∷ quote_chars 0 s) rest) (
              rw (argv_from-slashes true (n * 2 + 1) 0 acc (b'"' ∷ (quote_chars 0 s ++ rest))) (
                rw (quote_odd true n acc (quote_chars 0 s ++ rest)) (
                  rw (argv_from-quote_chars 0 s (acc ++ (slashes n ++ (b'"' ∷ []))) rest)
                    (rw (regroup acc (slashes n) s b'"') refl))))))
    | inr plain ↦ rw (quote_chars-plain n c s other plain) (
        rw (append_assoc (slashes n) (c ∷ quote_chars 0 s) rest) (
          rw (argv_from-slashes true n 0 acc (c ∷ (quote_chars 0 s ++ rest))) (
            rw (plain_char true (n + 0) c acc (quote_chars 0 s ++ rest) other plain (ground arith))
              (rw (argv_from-quote_chars 0 s (acc ++ (slashes (n + 0) ++ (c ∷ []))) rest) (
                rw (regroup acc (slashes (n + 0)) s c) (
                  ap (λ (m : ℕ). argv_from (inside false 0 (acc ++ (slashes m ++ (c ∷ s)))) rest)
                    (omega arith)))))))
  ]
]
