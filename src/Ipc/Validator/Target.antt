-- ===== src/Ipc/Validator/Target.antt =====
-- `validate_scan_target` of crates/pigtree-ipc/src/validator.rs and its errors. What the file system
-- and Windows answer is a record of functions.
use pig_tree.Base.{
  ℕ, Bool, not, ◌||◌, Option, some, ◌++◌, length, ◌==◌, if◌then◌else◌, Result, ok, err, reject,
  ◌>>=◌, ◌>>◌,
}
use pig_tree.Base.Text.{Text, codes, decimal, starts_with}
use pig_tree.Base.Trim.{trim}
use pig_tree.Ipc.Validator.{
  DriveKind, from_raw, drive_is_supported, drive_as_str, FileSystemKind, parse_file_system,
  file_system_is_supported,
}
use pig_tree.Ipc.Validator.Unc.{is_lexical_unc}

pub data TargetValidationError : Type 0 where
  empty_path : TargetValidationError
  unc_path_not_supported not_found not_a_directory : (path : Text) → TargetValidationError
  canonicalization_failed : (path reason : Text) → TargetValidationError
  volume_resolution_failed : (path : Text) (win32_code : ℕ) → TargetValidationError
  unsupported_drive_type :
      (path volume_root : Text) (drive_kind : DriveKind) → TargetValidationError
  volume_information_failed : (path volume_root : Text) (win32_code : ℕ) → TargetValidationError
  unsupported_file_system : (path volume_root filesystem_name : Text) → TargetValidationError

-- `Display`.
unfoldable pub format_error : TargetValidationError → Text
format_error empty_path = codes "Target directory path cannot be empty"
format_error (unc_path_not_supported path) =
    codes "UNC and network paths are not supported: " ++ path
format_error (not_found path) = codes "Target directory does not exist: " ++ path
format_error (not_a_directory path) = codes "Target path is not a directory: " ++ path
format_error (canonicalization_failed path reason) =
    codes "Failed to resolve target path '" ++ (path ++ (codes "': " ++ reason))
format_error (volume_resolution_failed path win32_code) =
    codes "Failed to determine volume root for '"
    ++ (path ++ (codes "' (Win32 error " ++ (decimal win32_code ++ codes ")")))
format_error (unsupported_drive_type path volume_root drive_kind) =
    codes "Target volume '"
    ++ (volume_root
        ++ (codes "' has unsupported drive type '"
            ++ (drive_as_str drive_kind
                ++ codes "' (only fixed and removable local drives are supported)")))
format_error (volume_information_failed path volume_root win32_code) =
    codes "Failed to query volume information for '"
    ++ (volume_root ++ (codes "' (Win32 error " ++ (decimal win32_code ++ codes ")")))
format_error (unsupported_file_system path volume_root filesystem_name) =
    codes "Filesystem '"
    ++ (filesystem_name
        ++ (codes "' on volume '"
            ++ (volume_root
                ++ codes "' is not supported (supported filesystems: NTFS, ReFS, FAT32, exFAT)")))

pub record ValidatedScanTarget : Type 0 where
  pub display_path : Text
  pub canonical_path : Text
  pub extended_path : Text
  pub volume_root : Text
  pub drive_kind : DriveKind
  pub filesystem_kind : FileSystemKind
  pub filesystem_name : Text
  pub volume_serial_number : Option ℕ

-- `Path::exists`, `Path::is_dir`, `Path::canonicalize` with the text of its error, then
-- `GetVolumePathNameW`, `GetDriveTypeW` and `GetVolumeInformationW` (the file system's name and the
-- serial number), with the code of `GetLastError`.
pub record Windows : Type 0 where
  pub exists : Text → Bool
  pub is_dir : Text → Bool
  pub canonicalize : Text → Result Text Text
  pub volume_path_name : Text → Result ℕ Text
  pub drive_type : Text → ℕ
  pub volume_information : Text → Result ℕ (Text × ℕ)

unfoldable pub map_err : {E F A : Type 0} → (E → F) → Result E A → Result F A
map_err f (ok a) = ok a
map_err f (err e) = err (f e)

unfoldable pub extend_path : Text → Text
extend_path canonical_str =
    if starts_with canonical_str (codes "\\\\?\\") || starts_with canonical_str (codes "\\\\.\\")
    then canonical_str
    else codes "\\\\?\\" ++ canonical_str

-- From the call of `GetVolumeInformationW` on.
unfoldable pub validate_file_system :
    Windows
    → Text
    → Text
    → Text
    → Text
    → DriveKind
    → Result TargetValidationError ValidatedScanTarget
unfolding map_err
validate_file_system os display_path canonical_path extended_path volume_root drive_kind =
    map_err (volume_information_failed display_path volume_root) (os.volume_information volume_root)
    >>= λ (fs_name, serial_number).
        let fs_kind = parse_file_system fs_name in
        reject (not (file_system_is_supported fs_kind))
          (unsupported_file_system display_path volume_root fs_name)
        >> ok record {
          display_path = display_path;
          canonical_path = canonical_path;
          extended_path = extended_path;
          volume_root = volume_root;
          drive_kind = drive_kind;
          filesystem_kind = fs_kind;
          filesystem_name = fs_name;
          volume_serial_number = some serial_number;
        }

-- From the derivation of the volume root on.
unfoldable pub validate_volume :
    Windows → Text → Text → Text → Result TargetValidationError ValidatedScanTarget
unfolding map_err
validate_volume os display_path canonical_path extended_path =
    map_err (volume_resolution_failed display_path) (os.volume_path_name extended_path)
    >>= λ volume_root.
        let drive_kind = from_raw (os.drive_type volume_root) in
        reject (not (drive_is_supported drive_kind))
          (unsupported_drive_type display_path volume_root drive_kind)
        >> validate_file_system os display_path canonical_path extended_path volume_root drive_kind

-- From the canonicalization on.
unfoldable pub validate_canonical :
    Windows → Text → Text → Result TargetValidationError ValidatedScanTarget
unfolding map_err extend_path
validate_canonical os display_path trimmed =
    map_err (canonicalization_failed display_path) (os.canonicalize trimmed) >>= λ canonical_path.
    reject (is_lexical_unc canonical_path) (unc_path_not_supported display_path)
    >> validate_volume os display_path canonical_path (extend_path canonical_path)

unfoldable pub validate_scan_target :
    Windows → Text → Result TargetValidationError ValidatedScanTarget
validate_scan_target os display_path =
    let trimmed = trim display_path in
    if length trimmed == 0
    then err empty_path
    else if is_lexical_unc trimmed
    then err (unc_path_not_supported display_path)
    else if not (os.exists trimmed)
    then err (not_found display_path)
    else if not (os.is_dir trimmed)
    then err (not_a_directory display_path)
    else validate_canonical os display_path trimmed
