-- ===== src/Worker/FindData.antt =====
-- `find_data_to_facts` of crates/pigtree-scan-worker/src/lib.rs: the facts of an entry that the
-- fallback enumeration reads from a `WIN32_FIND_DATAW`.
pub mod Agreement
use pig_tree.Base.{
  ℕ, ◌+◌, ◌-◌, ◌*◌, ◌/◌, ◌^◌, Option, none, List, [], ◌∷◌, ltb, ◌==◌, if◌then◌else◌, bit_and,
  bit_or,
}
use pig_tree.Base.Text.{Text}
use pig_tree.Worker.Entries.{
  VolumeContext, EntryFacts, link_knowledge, file_attribute_reparse_point, windows_epoch_difference,
}
use pig_tree.Worker.Entries.Utf16.{from_utf16_lossy}

pub record FileTime : Type 0 where
  pub low_date_time : ℕ
  pub high_date_time : ℕ

-- A 64-bit number from its two words of 32 bits.
unfoldable pub from_words : ℕ → ℕ → ℕ
from_words high low = bit_or (high * 2 ^ 32) low

unfoldable pub filetime_to_unix_ms : FileTime → ℕ
unfolding from_words
filetime_to_unix_ms ft =
    let ft_u64 = from_words ft.high_date_time ft.low_date_time in
    if ltb windows_epoch_difference ft_u64 then (ft_u64 - windows_epoch_difference) / 10000 else 0

-- The units before the first zero, or all of them.
unfoldable pub before_nul : List ℕ → List ℕ
before_nul [] = []
before_nul (u ∷ us) = let rest = before_nul us in if u == 0 then [] else u ∷ rest

unfoldable pub wide_slice_to_string : List ℕ → Text
unfolding before_nul
wide_slice_to_string slice = from_utf16_lossy (before_nul slice)

-- The fields that the worker reads.
pub record FindData : Type 0 where
  pub file_attributes : ℕ
  pub creation_time : FileTime
  pub last_access_time : FileTime
  pub last_write_time : FileTime
  pub file_size_high : ℕ
  pub file_size_low : ℕ
  pub reserved0 : ℕ
  pub file_name : List ℕ

unfoldable pub find_data_to_facts : FindData → VolumeContext → EntryFacts
find_data_to_facts find_data volume = record {
  name = wide_slice_to_string find_data.file_name;
  file_attributes = find_data.file_attributes;
  reparse_tag =
      if bit_and find_data.file_attributes file_attribute_reparse_point == 0
      then 0
      else find_data.reserved0;
  creation_time_utc_ms = filetime_to_unix_ms find_data.creation_time;
  last_write_time_utc_ms = filetime_to_unix_ms find_data.last_write_time;
  last_access_time_utc_ms = filetime_to_unix_ms find_data.last_access_time;
  logical_size = from_words find_data.file_size_high find_data.file_size_low;
  allocated_size = none;
  object_id = none;
  total_link_count = link_knowledge volume;
}
