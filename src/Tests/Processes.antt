-- ===== src/Tests/Processes.antt =====
-- Command lines, scan targets, peeks and descriptors at concrete inputs.
use pig_tree.Base.{◌≡◌, ◌↔◌, refl, true, false, List, [], ◌∷◌, some, drop, ok, err, arith}
use pig_tree.Base.Text.{Text, codes, eq_ignore_ascii_case}
use pig_tree.Base.Trim.{trim}
use pig_tree.Protocol.Frame.{decode_frame}
use pig_tree.Ipc.CommandLine.{quote_windows_arg, build_windows_command_line}
use pig_tree.Ipc.CommandLine.Argv.{argv}
use pig_tree.Ipc.CommandLine.RoundTrip.{argv-build_windows_command_line}
use pig_tree.Worker.Args.{WorkerArgs, parse_worker_args}
use pig_tree.Worker.Args.Launch.{worker_command_line, parse_worker_args-worker_command_line}
use pig_tree.Ipc.Validator.{
  fixed, ntfs, from_raw, drive_is_supported, parse_file_system, file_system_is_supported,
}
use pig_tree.Ipc.Validator.Unc.{has_extended_unc, has_network_prefix, is_lexical_unc}
use pig_tree.Ipc.Validator.Network.{is_network}
use pig_tree.Ipc.Validator.Target.{
  Windows, ValidatedScanTarget, unc_path_not_supported, validate_file_system, validate_volume,
  validate_canonical, validate_scan_target,
}
use pig_tree.Ipc.Validator.Accepted.{
  IsAccepted, validate_scan_target-IsAccepted, network_path_refused,
}
use pig_tree.Ipc.Pipe.{peek_frame_readiness}
use pig_tree.Ipc.Pipe.Readiness.{peeked, Agrees, peek_frame_readiness-Agrees}
use pig_tree.Ipc.Security.{constant_time_eq}
use pig_tree.Ipc.Security.Compare.{constant_time_eq_iff}

-- Blanks, a quote behind a backslash, backslashes at the end, and nothing.
abbrev args : List Text
args = codes "a b" ∷ codes "c\\\"d" ∷ codes "e f\\\\" ∷ [] ∷ codes "plain\\" ∷ []

quoted : quote_windows_arg (codes "e f\\\\") ≡ codes "\"e f\\\\\\\\\""
unfolding quote_windows_arg
quoted = refl

argv-build_windows_command_line_example : argv (build_windows_command_line args) ≡ args
argv-build_windows_command_line_example = argv-build_windows_command_line args

abbrev worker : WorkerArgs
worker = record { target = codes "--pipe-handle \"x"; pipe_handle = 484; cancel_event_handle = 0 }

parse_worker_args-worker_command_line_example :
    parse_worker_args (drop 1 (argv (worker_command_line (codes "w.exe") worker))) ≡ ok worker
parse_worker_args-worker_command_line_example =
    parse_worker_args-worker_command_line (codes "w.exe") worker (omega arith) (omega arith)

abbrev os : Windows
os = record {
  exists = λ p. true;
  is_dir = λ p. true;
  canonicalize = λ p. ok (codes "\\\\?\\C:\\d");
  volume_path_name = λ p. ok (codes "C:\\");
  drive_type = λ p. 3;
  volume_information = λ p. ok (codes "ntfs", 77);
}

abbrev accepted : ValidatedScanTarget
accepted = record {
  display_path = codes " C:/d";
  canonical_path = codes "\\\\?\\C:\\d";
  extended_path = codes "\\\\?\\C:\\d";
  volume_root = codes "C:\\";
  drive_kind = fixed;
  filesystem_kind = ntfs;
  filesystem_name = codes "ntfs";
  volume_serial_number = some 77;
}

validated : validate_scan_target os (codes " C:/d") ≡ ok accepted
unfolding validate_scan_target trim is_lexical_unc has_extended_unc has_network_prefix
    validate_canonical eq_ignore_ascii_case validate_volume drive_is_supported from_raw
    validate_file_system file_system_is_supported parse_file_system
validated = refl

validate_scan_target-IsAccepted_example : IsAccepted os (codes " C:/d") accepted
validate_scan_target-IsAccepted_example =
    validate_scan_target-IsAccepted os (codes " C:/d") accepted validated

network : is_network (trim (codes " //server/share")) ≡ true
unfolding is_network trim
network = refl

-- A drive of this computer in the extended notation is no network path.
local : is_network (codes "\\\\?\\C:\\Users\\test") ≡ false
unfolding is_network
local = refl

network_path_refused_example :
    validate_scan_target os (codes " //server/share")
    ≡ err (unc_path_not_supported (codes " //server/share"))
network_path_refused_example = network_path_refused os (codes " //server/share") network

peek_frame_readiness-Agrees_example :
    Agrees (peek_frame_readiness (ok (peeked (0x50 ∷ 0x54 ∷ [])))) (decode_frame (0x50 ∷ 0x54 ∷ []))
peek_frame_readiness-Agrees_example = peek_frame_readiness-Agrees (0x50 ∷ 0x54 ∷ [])

constant_time_eq_iff_example :
    (constant_time_eq (codes "key1") (codes "key2") ≡ true) ↔ (codes "key1" ≡ codes "key2")
constant_time_eq_iff_example = constant_time_eq_iff (codes "key1") (codes "key2")

abbrev sids : List Text
sids = codes "S-1-1-0" ∷ codes " S-1-5-21-9 " ∷ codes "S-1-5-21-7" ∷ []
