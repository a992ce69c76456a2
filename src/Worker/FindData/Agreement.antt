-- ===== src/Worker/FindData/Agreement.antt =====
-- The two enumerations of a directory, of `FILE_ID_EXTD_DIR_INFO` records and of `WIN32_FIND_DATAW`
-- values, on the same entries.
use pig_tree.Base.{
  ℕ, ◌/◌, ◌%◌, ◌^◌, ◌<◌, List, [], ◌∷◌, ◌++◌, length, map, All, ◌≡◌, ◌≢◌, refl, ap₂, ◌∙◌, arith,
  some, none, if◌then◌else◌,
}
use pig_tree.Base.Bits.{or_fields}
use pig_tree.Worker.Entries.{
  VolumeContext, EntryFacts, filetime_i64_to_unix_ms, is_negative, parse_extd_entries,
}
use pig_tree.Worker.Entries.Layout.{DirInfo, IsBuffer, encode, facts_of}
use pig_tree.Worker.Entries.RoundTrip.{parse_extd_entries-encode}
use pig_tree.Worker.FindData.{
  FileTime, FindData, from_words, filetime_to_unix_ms, before_nul, wide_slice_to_string,
  find_data_to_facts,
}

abbrev pub file_time : ℕ → FileTime
file_time t = record { low_date_time = t % 2 ^ 32; high_date_time = t / 2 ^ 32 }

-- The entry of a record as `WIN32_FIND_DATAW` has it: a zero ends the name, and anything follows.
abbrev pub find_data_of : List ℕ → DirInfo → FindData
find_data_of behind r = record {
  file_attributes = r.file_attributes;
  creation_time = file_time r.creation_time;
  last_access_time = file_time r.last_access_time;
  last_write_time = file_time r.last_write_time;
  file_size_high = r.end_of_file / 2 ^ 32;
  file_size_low = r.end_of_file % 2 ^ 32;
  reserved0 = r.reparse_point_tag;
  file_name = r.name ++ (0 ∷ behind);
}

-- The times and the size are not negative, and the name has no zero.
abbrev pub IsPlain : DirInfo → Type 0
IsPlain r =
    (r.creation_time < 2 ^ 63)
    × (r.last_access_time < 2 ^ 63)
    × (r.last_write_time < 2 ^ 63)
    × (r.end_of_file < 2 ^ 63)
    × All (λ u. u ≢ 0) r.name

-- The facts without those that only the records have.
abbrev pub without_record : EntryFacts → EntryFacts
without_record f = record {
  name = f.name;
  file_attributes = f.file_attributes;
  reparse_tag = f.reparse_tag;
  creation_time_utc_ms = f.creation_time_utc_ms;
  last_write_time_utc_ms = f.last_write_time_utc_ms;
  last_access_time_utc_ms = f.last_access_time_utc_ms;
  logical_size = f.logical_size;
  allocated_size = none;
  object_id = none;
  total_link_count = f.total_link_count;
}

from_words-split : (v : ℕ) → from_words (v / 2 ^ 32) (v % 2 ^ 32) ≡ v
unfolding from_words
from_words-split v = or_fields 32 (v / 2 ^ 32) (v % 2 ^ 32) (omega arith) ∙ omega arith

filetime-eq : (t : ℕ) → t < 2 ^ 63 → filetime_to_unix_ms (file_time t) ≡ filetime_i64_to_unix_ms t
unfolding filetime_to_unix_ms filetime_i64_to_unix_ms is_negative
filetime-eq t small = rw (from_words-split t) (ground arith)

before_nul-append :
    (us behind : List ℕ) → All (λ u. u ≢ 0) us → before_nul (us ++ (0 ∷ behind)) ≡ us
unfolding before_nul
before_nul-append [] behind h = refl
before_nul-append (u ∷ us) behind (hu, hs) =
    let rest = before_nul-append us behind hs in ground arith

size-eq :
    (v : ℕ) → v < 2 ^ 63 → from_words (v / 2 ^ 32) (v % 2 ^ 32) ≡ (if is_negative v then 0 else v)
unfolding is_negative
size-eq v small = from_words-split v ∙ ground arith

facts-eq :
    (volume : VolumeContext) (behind : List ℕ) (r : DirInfo)
    → IsPlain r
    → without_record (facts_of volume r) ≡ find_data_to_facts (find_data_of behind r) volume
unfolding find_data_to_facts wide_slice_to_string
facts-eq volume behind r (created, accessed, written, size, named) =
    rw
      (
        filetime-eq r.creation_time created,
        filetime-eq r.last_access_time accessed,
        filetime-eq r.last_write_time written,
        size-eq r.end_of_file size,
        before_nul-append r.name behind named,
      )
      refl

all-eq :
    (volume : VolumeContext) (behind : List ℕ) (rs : List DirInfo)
    → All IsPlain rs
    → map without_record (map (facts_of volume) rs)
      ≡ map (λ r. find_data_to_facts (find_data_of behind r) volume) rs
all-eq volume behind [] h = refl
all-eq volume behind (r ∷ rs) (hr, hs) =
    ap₂ ◌∷◌ (facts-eq volume behind r hr) (all-eq volume behind rs hs)

-- The two enumerations agree. When Windows reports the same entries in a buffer of records and one
-- by one as `WIN32_FIND_DATAW` values, the buffer is read without an error, and its facts are
-- those of the values, in the same order, but for the allocated size and the object identity,
-- which the values leave out. The records are well formed, their times and sizes are not negative,
-- no name has a zero, and the buffer is shorter than 2^64 bytes.
pub enumerations_agree :
    (rs : List DirInfo) (volume : VolumeContext) (behind : List ℕ)
    → IsBuffer rs
    → All IsPlain rs
    → length (encode rs) < 2 ^ 64
    → (facts : List EntryFacts) × (parse_extd_entries (encode rs) volume ≡ some (some facts))
      × (map without_record facts ≡ map (λ r. find_data_to_facts (find_data_of behind r) volume) rs)
enumerations_agree rs volume behind formed plain short = (
  map (facts_of volume) rs,
  parse_extd_entries-encode rs volume formed short,
  all-eq volume behind rs plain,
)
