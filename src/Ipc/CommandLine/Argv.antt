-- ===== src/Ipc/CommandLine/Argv.antt =====
-- How a Windows program finds its arguments in a command line: the documented rules of the Microsoft
-- C runtime and of CommandLineToArgvW, for the arguments behind the program's name.
use pig_tree.Base.{
  ℕ, suc, ◌/◌, ◌%◌, Bool, false, not, ◌&&◌, ◌||◌, List, [], ◌∷◌, ◌++◌, ◌==◌, if◌then◌else◌,
}
use pig_tree.Base.Text.{Text}
use pig_tree.Ipc.CommandLine.{slashes}

-- Between two arguments; or within one, in quotes or not, behind a run of `n` backslashes and the
-- text `acc`.
pub data State : Type 0 where
  between : State
  inside : (quoted : Bool) → (n : ℕ) → (acc : Text) → State

pub data Move : Type 0 where
  go : State → Move
  finish : Text → Move

-- A blank ends an argument outside quotes. Before a quote, two backslashes are one, and a single one
-- makes the quote a character; elsewhere backslashes are plain.
unfoldable pub move : Bool → ℕ → Text → ℕ → Move
unfolding slashes
move quoted n acc c =
    if c == 92
    then go (inside quoted (suc n) acc)
    else if c == b'"'
    then (if n % 2 == 0
        then go (inside (not quoted) 0 (acc ++ slashes (n / 2)))
        else go (inside quoted 0 (acc ++ (slashes (n / 2) ++ (b'"' ∷ [])))))
    else if ((c == 32) || (c == 9)) && not quoted
    then finish (acc ++ slashes n)
    else go (inside quoted 0 (acc ++ (slashes n ++ (c ∷ []))))

unfoldable pub step : State → ℕ → Move
unfolding move
step between c = if (c == 32) || (c == 9) then go between else move false 0 [] c
step (inside quoted n acc) c = move quoted n acc c

unfoldable pub argv_from : State → Text → List Text
unfolding step
argv_from between [] = []
argv_from (inside quoted n acc) [] = (acc ++ slashes n) ∷ []
argv_from st (c ∷ s) = elim (step st c) [
  | go st' ↦ argv_from st' s
  | finish arg ↦ arg ∷ argv_from between s
]

unfoldable pub argv : Text → List Text
unfolding argv_from
argv s = argv_from between s
