-- ===== src/Ipc/CommandLine/RoundTrip.antt =====
-- A program gets the arguments that `build_windows_command_line` of
-- crates/pigtree-ipc/src/process.rs was given.
use pig_tree.Base.{
  ℕ, suc, false, List, [], ◌∷◌, ◌++◌, append-nil, ◌==◌, ◌≡◌, refl, subst, arith, inl, inr,
  Bool-cases, lt→ltb,
}
use pig_tree.Base.Text.{Text}
use pig_tree.Ipc.CommandLine.{
  slashes, is_special, has_special, quote_windows_arg, push_args, build_windows_command_line,
}
use pig_tree.Ipc.CommandLine.Argv.{between, inside, argv_from, argv}
use pig_tree.Ipc.CommandLine.Quoted.{slashes-append, plain_char, regroup, argv_from-quote_chars}

begins :
    (c : ℕ) (s : Text)
    → is_special c ≡ false
    → argv_from between (c ∷ s) ≡ argv_from (inside false 0 []) (c ∷ s)
unfolding is_special argv_from
begins c s h = ground arith

-- An argument without special characters, before a rest that ends it.
module _ (rest : Text) (args : List Text)
    (ends : (n : ℕ) (acc : Text)
      → argv_from (inside false n acc) rest ≡ (acc ++ slashes n) ∷ args) where
  bare :
      (s : Text) (n : ℕ) (acc : Text)
      → has_special s ≡ false
      → argv_from (inside false n acc) (s ++ rest) ≡ (acc ++ (slashes n ++ s)) ∷ args
  unfolding has_special argv_from
  bare [] n acc h = rw (append-nil (slashes n)) (ends n acc)
  bare (c ∷ s) n acc h = elim (Bool-cases (c == 92)) [
    | inl slash ↦
        let is_slash : 92 ≡ c = ground arith in
        subst
          (λ (d : ℕ).
            argv_from (inside false n acc) (d ∷ (s ++ rest))
            ≡ (acc ++ (slashes n ++ (d ∷ s))) ∷ args)
          is_slash (rw (← slashes-append n s) (bare s (suc n) acc (ground arith)))
    | inr other ↦ rw (plain_char false n c acc (s ++ rest) other (ground arith) (ground arith)) (
        rw (bare s 0 (acc ++ (slashes n ++ (c ∷ []))) (ground arith))
          (rw (regroup acc (slashes n) s c) refl))
  ]

  begins_arg : (a : Text) → argv_from between (quote_windows_arg a ++ rest) ≡ a ∷ args
  unfolding quote_windows_arg argv_from slashes
  begins_arg [] = ends 0 []
  begins_arg (c ∷ s) = elim (Bool-cases (has_special (c ∷ s))) [
    | inl special ↦ rw special (
        rw (argv_from-quote_chars 0 (c ∷ s) [] rest)
          (rw (ends 0 (c ∷ s)) (rw (append-nil (c ∷ s)) refl)))
    | inr usual ↦ rw usual (rw (begins c (s ++ rest) (ground arith)) (bare (c ∷ s) 0 [] usual))
  ]

ends_arg :
    (args : List Text) (i n : ℕ) (acc : Text)
    → argv_from (inside false n acc) (push_args (suc i) args) ≡ (acc ++ slashes n) ∷ args
unfolding push_args argv_from
ends_arg [] i n acc = refl
ends_arg (a ∷ args) i n acc =
    rw (lt→ltb 0 (suc i) (omega arith))
      (rw (begins_arg (push_args (suc (suc i)) args) args (ends_arg args (suc i)) a) refl)

-- The arguments that a program finds in the command line are those that it was built from, whatever
-- blanks, quotes and backslashes they have, and empty ones too.
pub argv-build_windows_command_line :
    (args : List Text) → argv (build_windows_command_line args) ≡ args
unfolding argv build_windows_command_line push_args
argv-build_windows_command_line [] = refl
argv-build_windows_command_line (a ∷ args) = begins_arg (push_args 1 args) args (ends_arg args 0) a
