-- ===== src/Worker/Args/Launch.antt =====
-- How crates/pigtree-engine/src/runner.rs starts the worker of crates/pigtree-scan-worker/src/main.rs:
-- the command line that one builds, and the arguments that the other finds in it.
use pig_tree.Base.{◌^◌, ◌<◌, [], ◌∷◌, drop, ◌≡◌, refl, ok}
use pig_tree.Base.Text.{Text, codes, decimal, eq_text, starts_with, parse_usize-decimal}
use pig_tree.Ipc.CommandLine.{build_windows_command_line}
use pig_tree.Ipc.CommandLine.Argv.{argv}
use pig_tree.Ipc.CommandLine.RoundTrip.{argv-build_windows_command_line}
use pig_tree.Worker.Args.{WorkerArgs, parse_worker_args}

-- Step 3 of `run_scan`.
unfoldable pub worker_command_line : Text → WorkerArgs → Text
worker_command_line worker_exe args = build_windows_command_line (
    worker_exe
    ∷ codes "--target"
    ∷ args.target
    ∷ codes "--pipe-handle"
    ∷ decimal args.pipe_handle
    ∷ codes "--cancel-event-handle"
    ∷ decimal args.cancel_event_handle
    ∷ [])

-- The worker gets the target and the handles that the engine started it with, whatever path the
-- target is: one that begins with dashes is no flag, and blanks and quotes do not split it.
pub parse_worker_args-worker_command_line :
    (worker_exe : Text) (args : WorkerArgs)
    → args.pipe_handle < 2 ^ 64
    → args.cancel_event_handle < 2 ^ 64
    → parse_worker_args (drop 1 (argv (worker_command_line worker_exe args))) ≡ ok args
unfolding worker_command_line parse_worker_args eq_text starts_with
parse_worker_args-worker_command_line worker_exe args hp hc =
    rw (argv-build_windows_command_line _) (
      rw (parse_usize-decimal args.pipe_handle hp)
        (rw (parse_usize-decimal args.cancel_event_handle hc) refl))
