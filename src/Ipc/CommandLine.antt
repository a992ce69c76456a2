-- ===== src/Ipc/CommandLine.antt =====
-- crates/pigtree-ipc/src/process.rs: the command line of a child process, from its arguments. A text
-- is a list of bytes; the characters that matter are ASCII.
pub mod Argv
pub mod Quoted
pub mod RoundTrip
use pig_tree.Base.{
  ℕ, zero, suc, ◌+◌, ◌*◌, Bool, true, false, ◌||◌, List, [], ◌∷◌, ◌++◌, ltb, ◌==◌, if◌then◌else◌,
}
use pig_tree.Base.Text.{Text, codes}

unfoldable pub slashes : ℕ → Text
slashes zero = []
slashes (suc n) = 92 ∷ slashes n

-- A space, a tab, a line feed, a vertical tab or a quote.
unfoldable pub is_special : ℕ → Bool
is_special c = (c == 32) || (c == 9) || (c == 10) || (c == 11) || (c == b'"')

unfoldable pub has_special : Text → Bool
unfolding is_special
has_special [] = false
has_special (c ∷ s) = is_special c || has_special s

-- The loop, with the count of backslashes that are not written yet, and what follows it.
unfoldable pub quote_chars : ℕ → Text → Text
unfolding slashes
quote_chars n [] = slashes (n * 2) ++ codes "\""
quote_chars n (c ∷ s) = elim (c == 92) [
  | true ↦ quote_chars (suc n) s
  | false ↦
      let fresh = quote_chars 0 s in
      if c == b'"' then slashes (n * 2 + 1) ++ (b'"' ∷ fresh) else slashes n ++ (c ∷ fresh)
]

unfoldable pub quote_windows_arg : Text → Text
unfolding quote_chars has_special
quote_windows_arg [] = codes "\"\""
quote_windows_arg (c ∷ s) = if has_special (c ∷ s) then b'"' ∷ quote_chars 0 (c ∷ s) else c ∷ s

-- The loop from the argument with index `i` on.
unfoldable pub push_args : ℕ → List Text → Text
unfolding quote_windows_arg
push_args i [] = []
push_args i (arg ∷ args) =
    (if ltb 0 i then codes " " else []) ++ (quote_windows_arg arg ++ push_args (suc i) args)

unfoldable pub build_windows_command_line : List Text → Text
unfolding push_args
build_windows_command_line args = push_args 0 args
