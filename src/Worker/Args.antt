-- ===== src/Worker/Args.antt =====
-- `parse_worker_args` of crates/pigtree-scan-worker/src/lib.rs.
pub mod Launch
use pig_tree.Base.{
  ℕ, Bool, true, false, Option, none, some, List, [], ◌∷◌, if◌then◌else◌, Result, ok, err, ok_or,
  ◌>>=◌,
}
use pig_tree.Base.Text.{Text, codes, eq_text, starts_with, parse_usize}

pub record WorkerArgs : Type 0 where
  pub target : Text
  pub pipe_handle : ℕ
  pub cancel_event_handle : ℕ

pub data ArgsError : Type 0 where
  missing_argument : Text → ArgsError
  invalid_handle : Text → Text → ArgsError
  unexpected_argument : Text → ArgsError

-- The three variables of the loop.
pub record Found : Type 0 where
  pub target : Option Text
  pub pipe_handle : Option ℕ
  pub cancel_event_handle : Option ℕ

-- The arms of the `match` on an argument.
pub data Arm : Type 0 where
  target_arm pipe_arm cancel_arm flag_arm plain_arm : Arm

unfoldable pub arm : Text → Arm
arm arg =
    if eq_text arg (codes "--target")
    then target_arm
    else if eq_text arg (codes "--pipe-handle")
    then pipe_arm
    else if eq_text arg (codes "--cancel-event-handle")
    then cancel_arm
    else if starts_with arg (codes "--")
    then flag_arm
    else plain_arm

-- `val.parse::<usize>()` with its error.
unfoldable pub parse_handle : Text → Text → Result ArgsError ℕ
parse_handle flag val = ok_or (parse_usize val) (invalid_handle flag val)

unfoldable pub args_loop : Found → List Text → Result ArgsError Found
unfolding parse_handle
args_loop found [] = ok found
args_loop found (arg ∷ []) = elim (arm arg) [
  | target_arm ↦ err (missing_argument (codes "--target"))
  | pipe_arm ↦ err (missing_argument (codes "--pipe-handle"))
  | cancel_arm ↦ err (missing_argument (codes "--cancel-event-handle"))
  | flag_arm ↦ err (unexpected_argument arg)
  | plain_arm ↦ ok found
]
args_loop found (arg ∷ val ∷ rest) = elim (arm arg) [
  | target_arm ↦ args_loop (record found { target = some val }) rest
  | pipe_arm ↦ parse_handle (codes "--pipe-handle") val >>= λ handle.
      args_loop (record found { pipe_handle = some handle }) rest
  | cancel_arm ↦ parse_handle (codes "--cancel-event-handle") val >>= λ handle.
      args_loop (record found { cancel_event_handle = some handle }) rest
  | flag_arm ↦ err (unexpected_argument arg)
  | plain_arm ↦ args_loop found (val ∷ rest)
]

unfoldable pub complete : Found → Result ArgsError WorkerArgs
complete found = ok_or found.target (missing_argument (codes "--target")) >>= λ target.
    ok_or found.pipe_handle (missing_argument (codes "--pipe-handle")) >>= λ pipe_handle.
    ok_or found.cancel_event_handle (missing_argument (codes "--cancel-event-handle"))
    >>= λ cancel_event_handle. ok record {
      target = target;
      pipe_handle = pipe_handle;
      cancel_event_handle = cancel_event_handle;
    }

unfoldable pub parse_worker_args : List Text → Result ArgsError WorkerArgs
unfolding args_loop complete arm
parse_worker_args args =
    args_loop record { target = none; pipe_handle = none; cancel_event_handle = none } args
    >>= complete
