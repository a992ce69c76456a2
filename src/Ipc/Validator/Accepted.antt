-- ===== src/Ipc/Validator/Accepted.antt =====
-- What `validate_scan_target` of crates/pigtree-ipc/src/validator.rs accepts.
use pig_tree.Base.{
  ℕ, Bool, true, false, not, some, [], ◌∷◌, length, ◌==◌, if◌then◌else◌, Result, ok, err, reject,
  reject-ok, bind-ok, ok-inj, ◌≡◌, ◌⊎◌, ◌≢◌, ◌++◌, ◌∙◌, sym, ap, Bool-cases, refl, subst, inl, inr,
  arith,
}
use pig_tree.Base.Text.{Text, codes, starts_with, eq_ignore_ascii_case}
use pig_tree.Base.Trim.{trim, trim-trim}
use pig_tree.Ipc.Validator.{
  FileSystemKind, ntfs, re_fs, fat32, ex_fat, unsupported, DriveKind, fixed, removable, from_raw,
  drive_is_supported, parse_file_system, file_system_is_supported,
}
use pig_tree.Ipc.Validator.Unc.{is_lexical_unc}
use pig_tree.Ipc.Validator.Network.{is_network, is_lexical_unc-eq}
use pig_tree.Ipc.Validator.Target.{
  TargetValidationError, unc_path_not_supported, volume_resolution_failed, unsupported_drive_type,
  volume_information_failed, unsupported_file_system, canonicalization_failed, ValidatedScanTarget,
  Windows, map_err, extend_path, validate_file_system, validate_volume, validate_canonical,
  validate_scan_target,
}

map_err-ok : {E F A : Type 0} (f : E → F) (m : Result E A) (a : A) → map_err f m ≡ ok a → m ≡ ok a
unfolding map_err
map_err-ok f (ok b) a h = ground arith
map_err-ok f (err e) a h = cc

-- The name of a file system of this kind, in any case and with white space around it.
unfoldable pub IsNamed : Text → FileSystemKind → Type 0
IsNamed name ntfs = eq_ignore_ascii_case (trim name) (codes "NTFS") ≡ true
IsNamed name re_fs = eq_ignore_ascii_case (trim name) (codes "ReFS") ≡ true
IsNamed name fat32 = eq_ignore_ascii_case (trim name) (codes "FAT32") ≡ true
IsNamed name ex_fat = eq_ignore_ascii_case (trim name) (codes "exFAT") ≡ true
IsNamed name (unsupported other) = ⊥

parse-IsNamed :
    (name : Text) (k : FileSystemKind)
    → parse_file_system name ≡ k
    → file_system_is_supported k ≡ true
    → IsNamed name k
unfolding IsNamed parse_file_system file_system_is_supported
parse-IsNamed name ntfs e h = ground arith
parse-IsNamed name re_fs e h = ground arith
parse-IsNamed name fat32 e h = ground arith
parse-IsNamed name ex_fat e h = ground arith
parse-IsNamed name (unsupported other) e h = cc

abbrev pub IsFileSystem : Windows → ValidatedScanTarget → Type 0
IsFileSystem os t =
    ((serial : ℕ) × (os.volume_information t.volume_root ≡ ok (t.filesystem_name, serial))
      × (t.volume_serial_number ≡ some serial))
    × IsNamed t.filesystem_name t.filesystem_kind

-- The kinds of drive that may be scanned, by the numbers of Windows.
unfoldable pub IsDrive : ℕ → DriveKind → Type 0
IsDrive raw k = ((raw ≡ 3) × (k ≡ fixed)) ⊎ ((raw ≡ 2) × (k ≡ removable))

-- A path with a prefix that keeps Windows from interpreting it: the one that it had, or `\\?\`.
unfoldable pub IsExtended : Text → Text → Type 0
IsExtended path extended =
    ((starts_with extended (codes "\\\\?\\") ≡ true)
      ⊎ (starts_with extended (codes "\\\\.\\") ≡ true))
    × ((extended ≡ path) ⊎ (extended ≡ codes "\\\\?\\" ++ path))

extend_path-IsExtended : (path : Text) → IsExtended path (extend_path path)
unfolding IsExtended extend_path starts_with
extend_path-IsExtended path = elim (Bool-cases (starts_with path (codes "\\\\?\\"))) [
  | inl first ↦ rw first (inl first, inl refl)
  | inr other ↦ elim (Bool-cases (starts_with path (codes "\\\\.\\"))) [
    | inl second ↦ rw (other, second) (inr second, inl refl)
    | inr neither ↦ rw (other, neither) (inl refl, inr refl)
  ]
]

-- All that is known of an accepted volume.
abbrev pub IsVolume : Windows → ValidatedScanTarget → Type 0
IsVolume os t =
    (os.volume_path_name t.extended_path ≡ ok t.volume_root)
    × IsDrive (os.drive_type t.volume_root) t.drive_kind
    × IsFileSystem os t

abbrev pub IsAccepted : Windows → Text → ValidatedScanTarget → Type 0
IsAccepted os p t =
    (t.display_path ≡ p)
    × (trim p ≢ [])
    × (is_network (trim p) ≡ false)
    × (os.exists (trim p) ≡ true)
    × (os.is_dir (trim p) ≡ true)
    × (os.canonicalize (trim p) ≡ ok t.canonical_path)
    × (is_network (trim t.canonical_path) ≡ false)
    × IsExtended t.canonical_path t.extended_path
    × IsVolume os t

kind_supported :
    (raw : ℕ) (k : DriveKind)
    → from_raw raw ≡ k
    → not (drive_is_supported k) ≡ false
    → IsDrive raw k
unfolding drive_is_supported IsDrive from_raw
kind_supported raw fixed e h = inl (ground arith, refl)
kind_supported raw removable e h = inr (ground arith, refl)
kind_supported raw DriveKind.unknown e h = cc
kind_supported raw DriveKind.no_root_dir e h = cc
kind_supported raw DriveKind.remote e h = cc
kind_supported raw DriveKind.cd_rom e h = cc
kind_supported raw DriveKind.ram_disk e h = cc
kind_supported raw (DriveKind.other n) e h = cc

not-false : (b : Bool) → not b ≡ false → b ≡ true
not-false true h = refl
not-false false h = cc

-- A target with these fields, on a volume with a supported file system.
abbrev HasFields : Windows → Text → Text → Text → Text → DriveKind → ValidatedScanTarget → Type 0
HasFields os p c x r k t =
    (t.display_path ≡ p)
    × (t.canonical_path ≡ c)
    × (t.extended_path ≡ x)
    × (t.volume_root ≡ r)
    × (t.drive_kind ≡ k)
    × IsFileSystem os t

validate_file_system-ok :
    (os : Windows) (p c x r : Text) (k : DriveKind) (t : ValidatedScanTarget)
    → validate_file_system os p c x r k ≡ ok t
    → HasFields os p c x r k t
unfolding validate_file_system
validate_file_system-ok os p c x r k t h =
    let (info, at_info, h1) =
      bind-ok (map_err (volume_information_failed p r) (os.volume_information r)) _ t h in
    let fs = parse_file_system info.0 in
    let (u, fs_ok, h2) =
      bind-ok (reject (not (file_system_is_supported fs)) (unsupported_file_system p r info.0)) _ t
        h1 in
    subst (HasFields os p c x r k) (ok-inj h2) (
      refl,
      refl,
      refl,
      refl,
      refl,
      (
        (info.1, map_err-ok _ _ info at_info, refl),
        parse-IsNamed info.0 fs refl (not-false _ (reject-ok _ _ u fs_ok)),
      ),
    )

validate_volume-ok :
    (os : Windows) (p c x : Text) (t : ValidatedScanTarget)
    → validate_volume os p c x ≡ ok t
    → (t.display_path ≡ p) × (t.canonical_path ≡ c) × (t.extended_path ≡ x) × IsVolume os t
unfolding validate_volume
validate_volume-ok os p c x t h =
    let (root, at_root, h1) =
      bind-ok (map_err (volume_resolution_failed p) (os.volume_path_name x)) _ t h in
    let kind = from_raw (os.drive_type root) in
    let (u, drive_ok, h2) =
      bind-ok (reject (not (drive_is_supported kind)) (unsupported_drive_type p root kind)) _ t
        h1 in
    let (ep, ec, ex, er, ek, fs) = validate_file_system-ok os p c x root kind t h2 in
    let answer = map_err-ok (volume_resolution_failed p) (os.volume_path_name x) root at_root in
    let good = kind_supported (os.drive_type root) kind refl (reject-ok _ _ u drive_ok) in
    (ep, ec, ex, (rw ex (rw er answer), rw (er, ek) good, fs))

validate_canonical-ok :
    (os : Windows) (p s : Text) (t : ValidatedScanTarget)
    → validate_canonical os p s ≡ ok t
    → (t.display_path ≡ p)
      × (os.canonicalize s ≡ ok t.canonical_path)
      × (is_lexical_unc t.canonical_path ≡ false)
      × (t.extended_path ≡ extend_path t.canonical_path)
      × IsVolume os t
unfolding validate_canonical
validate_canonical-ok os p s t h =
    let (c, at_c, h1) = bind-ok (map_err (canonicalization_failed p) (os.canonicalize s)) _ t h in
    let (u, local, h2) = bind-ok (reject (is_lexical_unc c) (unc_path_not_supported p)) _ t h1 in
    let (ep, ec, ex, volume) = validate_volume-ok os p c (extend_path c) t h2 in
    let answer = map_err-ok (canonicalization_failed p) (os.canonicalize s) c at_c in
    (ep, rw ec answer, rw ec (reject-ok _ _ u local), rw ec ex, volume)

-- The four tests that stand before the canonicalization.
guards :
    {A : Type 0} (empty unc exists is_dir : Bool) (e1 e2 e3 e4 : TargetValidationError)
    (r : Result TargetValidationError A) (a : A)
    → ◌≡◌ {A = Result TargetValidationError A}
        (if empty
          then err e1
          else if unc
          then err e2
          else if not exists
          then err e3
          else if not is_dir
          then err e4
          else r)
        (ok a)
    → (empty ≡ false) × (unc ≡ false) × (exists ≡ true) × (is_dir ≡ true) × (r ≡ ok a)
guards false false true true e1 e2 e3 e4 r a h = (refl, refl, refl, refl, h)
guards true unc exists is_dir e1 e2 e3 e4 r a h = cc
guards false true exists is_dir e1 e2 e3 e4 r a h = cc
guards false false false is_dir e1 e2 e3 e4 r a h = cc
guards false false true false e1 e2 e3 e4 r a h = cc

-- The test trims a path that is trimmed already.
once : (p : Text) → is_lexical_unc (trim p) ≡ is_network (trim p)
once p = is_lexical_unc-eq (trim p) ∙ ap is_network (trim-trim p)

filled_path : (s : Text) → (length s == 0) ≡ false → s ≢ []
filled_path [] h e = cc
filled_path (c ∷ s) h e = cc

-- An accepted target is a directory that exists, is not empty and no network path before or after
-- canonicalization, on a drive that Windows reports as fixed (3) or removable (2), with a file system
-- whose name is one of the four; and the report holds what the system answered.
pub validate_scan_target-IsAccepted :
    (os : Windows) (p : Text) (t : ValidatedScanTarget)
    → validate_scan_target os p ≡ ok t
    → IsAccepted os p t
unfolding validate_scan_target
validate_scan_target-IsAccepted os p t h =
    let s = trim p in
    let (filled, local, there, directory, rest) =
      guards (length s == 0) (is_lexical_unc s) (os.exists s) (os.is_dir s) _ _ _ _ _ t h in
    let (ep, answer, local', ex, volume) = validate_canonical-ok os p s t rest in
    (
      ep,
      filled_path s filled,
      sym (once p) ∙ local,
      there,
      directory,
      answer,
      sym (is_lexical_unc-eq t.canonical_path) ∙ local',
      rw ex (extend_path-IsExtended t.canonical_path),
      volume,
    )

refused :
    (os : Windows) (p : Text)
    → is_lexical_unc (trim p) ≡ true
    → (length (trim p) == 0) ≡ false
    → validate_scan_target os p ≡ err (unc_path_not_supported p)
unfolding validate_scan_target
refused os p unc filled = ground arith

network-filled : (s : Text) → is_network s ≡ true → (length s == 0) ≡ false
unfolding is_network
network-filled [] h = cc
network-filled (c ∷ s) h = ground arith

-- A path is refused as a network path, whatever the file system and Windows would answer, when,
-- without the white space at its ends, it begins with two slashes and not with a local drive in the
-- extended notation, or with the prefix of a network path in the notation of the kernel.
pub network_path_refused :
    (os : Windows) (p : Text)
    → is_network (trim p) ≡ true
    → validate_scan_target os p ≡ err (unc_path_not_supported p)
network_path_refused os p network =
    refused os p (once p ∙ network) (network-filled (trim p) network)
