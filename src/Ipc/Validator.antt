-- ===== src/Ipc/Validator.antt =====
-- crates/pigtree-ipc/src/validator.rs: which paths may be scanned. Drives and file systems are here;
-- Unc has the test for network paths, Target the validation.
pub mod Unc
pub mod Network
pub mod Target
pub mod Accepted
use pig_tree.Base.{ℕ, Bool, true, false, not, ◌==◌, if◌then◌else◌}
use pig_tree.Base.Text.{Text, codes, eq_ignore_ascii_case}
use pig_tree.Base.Trim.{trim}

pub data DriveKind : Type 0 where
  unknown no_root_dir removable fixed remote cd_rom ram_disk : DriveKind
  other : ℕ → DriveKind

unfoldable pub from_raw : ℕ → DriveKind
from_raw raw =
    if raw == 0
    then unknown
    else if raw == 1
    then no_root_dir
    else if raw == 2
    then removable
    else if raw == 3
    then fixed
    else if raw == 4
    then remote
    else if raw == 5
    then cd_rom
    else if raw == 6
    then ram_disk
    else other raw

unfoldable pub drive_is_supported : DriveKind → Bool
drive_is_supported fixed = true
drive_is_supported removable = true
drive_is_supported _ = false

unfoldable pub drive_as_str : DriveKind → Text
drive_as_str unknown = codes "DRIVE_UNKNOWN"
drive_as_str no_root_dir = codes "DRIVE_NO_ROOT_DIR"
drive_as_str removable = codes "DRIVE_REMOVABLE"
drive_as_str fixed = codes "DRIVE_FIXED"
drive_as_str remote = codes "DRIVE_REMOTE"
drive_as_str cd_rom = codes "DRIVE_CDROM"
drive_as_str ram_disk = codes "DRIVE_RAMDISK"
drive_as_str (other raw) = codes "DRIVE_OTHER"

pub data FileSystemKind : Type 0 where
  ntfs re_fs fat32 ex_fat : FileSystemKind
  unsupported : Text → FileSystemKind

unfoldable pub parse_file_system : Text → FileSystemKind
parse_file_system name =
    let trimmed = trim name in
    if eq_ignore_ascii_case trimmed (codes "NTFS")
    then ntfs
    else if eq_ignore_ascii_case trimmed (codes "ReFS")
    then re_fs
    else if eq_ignore_ascii_case trimmed (codes "FAT32")
    then fat32
    else if eq_ignore_ascii_case trimmed (codes "exFAT")
    then ex_fat
    else unsupported trimmed

unfoldable pub file_system_is_supported : FileSystemKind → Bool
file_system_is_supported (unsupported name) = false
file_system_is_supported _ = true

unfoldable pub file_system_as_str : FileSystemKind → Text
file_system_as_str ntfs = codes "NTFS"
file_system_as_str re_fs = codes "ReFS"
file_system_as_str fat32 = codes "FAT32"
file_system_as_str ex_fat = codes "exFAT"
file_system_as_str (unsupported name) = name
