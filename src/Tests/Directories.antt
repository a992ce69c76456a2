-- ===== src/Tests/Directories.antt =====
-- The buffers of a directory at concrete inputs.
use pig_tree.Base.{
  ℕ, ◌≡◌, ◌≢◌, true, List, [], ◌∷◌, Option, some, map, All, length, ◌^◌, ◌<◌, arith,
}
use pig_tree.Worker.Entries.{VolumeContext, EntryFacts, parse_extd_entries}
use pig_tree.Worker.Entries.Bounds.{parse_extd_entries_returns}
use pig_tree.Worker.Entries.Layout.{DirInfo, IsDirInfo, IsBuffer, encode, facts_of}
use pig_tree.Worker.FindData.{find_data_to_facts}
use pig_tree.Worker.FindData.Agreement.{IsPlain, find_data_of, without_record, enumerations_agree}
use pig_tree.Worker.Entries.RoundTrip.{parse_extd_entries-encode}

abbrev volume : VolumeContext
volume = record { guid = some (1 ∷ 2 ∷ []); hardlink_capable = true }

-- A file with this name, whose timestamps are 100 ns after 1970 and whose allocation is unknown.
abbrev info : List ℕ → ℕ → List ℕ → DirInfo
info name attributes slack = record {
  file_index = 0;
  creation_time = 116444736000010000;
  last_access_time = 0;
  last_write_time = 116444736000020000;
  change_time = 0;
  end_of_file = 300;
  allocation_size = 2 ^ 63;
  file_attributes = attributes;
  ea_size = 0;
  reparse_point_tag = 7;
  file_id = 99;
  name = name;
  slack = slack;
}

abbrev wide : List ℕ
wide = 0 ∷ 0 ∷ 0 ∷ 0 ∷ 1 ∷ 2 ∷ 3 ∷ 4 ∷ 5 ∷ 6 ∷ 7 ∷ 8 ∷ []

abbrev odd : List ℕ
odd = 0 ∷ 0 ∷ 9 ∷ []

-- A name of two units, one of them a surrogate alone, and one with a pair; more bytes than the names
-- need behind both.
abbrev directory : List DirInfo
directory = info (b'a' ∷ 0xd800 ∷ []) 0x400 wide ∷ info (0xd83d ∷ 0xdc37 ∷ b'b' ∷ []) 32 odd ∷ []

info-IsDirInfo :
    (name : List ℕ) (attributes : ℕ) (slack : List ℕ)
    → name ≢ []
    → length name < 1000
    → All (λ u. u < 65536) name
    → attributes < 256 ^ 4
    → IsDirInfo (info name attributes slack)
info-IsDirInfo name attributes slack filled short units small = (
  omega arith,
  omega arith,
  omega arith,
  omega arith,
  omega arith,
  small,
  omega arith,
  omega arith,
  filled,
  omega arith,
  units,
)

directory-IsBuffer : IsBuffer directory
directory-IsBuffer = (
  info-IsDirInfo _ _ wide (λ e. cc) (omega arith) (omega arith, (omega arith, tt)) (omega arith),
  (omega arith, omega arith),
  info-IsDirInfo _ _ odd (λ e. cc) (omega arith) (omega arith, (omega arith, (omega arith, tt)))
      (omega arith),
)

small_enough : length (encode directory) < 2 ^ 64
small_enough = omega arith

parse_extd_entries-encode_example :
    parse_extd_entries (encode directory) volume ≡ some (some (map (facts_of volume) directory))
parse_extd_entries-encode_example =
    parse_extd_entries-encode directory volume directory-IsBuffer small_enough

parse_extd_entries_returns_example :
    (r : Option (List EntryFacts)) × (parse_extd_entries (encode directory) volume ≡ some r)
parse_extd_entries_returns_example = parse_extd_entries_returns (encode directory) volume

plain : All IsPlain directory
plain = (
  (omega arith, omega arith, omega arith, omega arith, (omega arith, (omega arith, tt))),
  (
    (
      omega arith,
      omega arith,
      omega arith,
      omega arith,
      (omega arith, (omega arith, (omega arith, tt))),
    ),
    tt,
  ),
)

enumerations_agree_example :
    (facts : List EntryFacts) × (parse_extd_entries (encode directory) volume ≡ some (some facts))
    × (map without_record facts
        ≡ map (λ r. find_data_to_facts (find_data_of (1 ∷ 0 ∷ []) r) volume) directory)
enumerations_agree_example =
    enumerations_agree directory volume (1 ∷ 0 ∷ []) directory-IsBuffer plain small_enough
