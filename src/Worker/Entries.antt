-- ===== src/Worker/Entries.antt =====
-- `parse_extd_entries` of crates/pigtree-scan-worker/src/lib.rs: what the worker makes of a buffer
-- that Windows fills with `FILE_ID_EXTD_DIR_INFO` records. An `i64` is its 64 bits.
pub mod Utf16
pub mod Bounds
pub mod Layout
pub mod Record
pub mod RoundTrip
use pig_tree.Base.{
  ℕ, zero, suc, ◌+◌, ◌-◌, ◌*◌, ◌/◌, ◌%◌, ◌^◌, Bool, true, false, not, ◌||◌, Option, none, some,
  List, [], ◌∷◌, ◌++◌, length, take, drop, ltb, leb, ◌==◌, if◌then◌else◌, bit_and,
}
use pig_tree.Base.Bytes.{from_le_bytes}
use pig_tree.Base.Text.{Text}
use pig_tree.Base.Chain.{◌>>=◌}
use pig_tree.Protocol.Observation.{ObjectIdentity, ValueKnowledge, not_observed, not_applicable}
use pig_tree.Worker.Entries.Utf16.{from_utf16_lossy}

-- `read_u32_le`, `read_u64_le` and `read_u128_le` at 4, 8 and 16 bytes.
unfoldable pub read_le : ℕ → List ℕ → ℕ → Option ℕ
read_le k buf off =
    if ltb (length buf) (off + k) then none else some (from_le_bytes (take k (drop off buf)))

unfoldable pub read_i64_le : List ℕ → ℕ → Option ℕ
read_i64_le buf off = read_le 8 buf off

unfoldable pub checked_add : ℕ → ℕ → Option ℕ
checked_add a b = if ltb (a + b) (2 ^ 64) then some (a + b) else none

unfoldable pub is_negative : ℕ → Bool
is_negative v = leb (2 ^ 63) v

abbrev pub windows_epoch_difference : ℕ
windows_epoch_difference = 116444736000000000

unfoldable pub filetime_i64_to_unix_ms : ℕ → ℕ
unfolding is_negative
filetime_i64_to_unix_ms ft =
    if is_negative ft
    then 0
    else if ltb windows_epoch_difference ft
    then (ft - windows_epoch_difference) / 10000
    else 0

pub record VolumeContext : Type 0 where
  pub guid : Option (List ℕ)
  pub hardlink_capable : Bool

unfoldable pub identity : VolumeContext → ℕ → Option ObjectIdentity
identity volume file_id =
    volume.guid >>= λ guid. some record { volume_guid = guid; file_id = file_id }

unfoldable pub link_knowledge : VolumeContext → ValueKnowledge ℕ
link_knowledge volume = if volume.hardlink_capable then not_observed else not_applicable

pub record EntryFacts : Type 0 where
  pub name : Text
  pub file_attributes : ℕ
  pub reparse_tag : ℕ
  pub creation_time_utc_ms : ℕ
  pub last_write_time_utc_ms : ℕ
  pub last_access_time_utc_ms : ℕ
  pub logical_size : ℕ
  pub allocated_size : Option ℕ
  pub object_id : Option ObjectIdentity
  pub total_link_count : ValueKnowledge ℕ

abbrev pub file_attribute_reparse_point : ℕ
file_attribute_reparse_point = 0x400

abbrev pub extd_min_record : ℕ
extd_min_record = 88

-- `as_chunks::<2>`, and `u16::from_le_bytes` of a chunk; an odd byte at the end is dropped.
unfoldable pub u16_units : List ℕ → List ℕ
u16_units [] = []
u16_units (b ∷ []) = []
u16_units (b ∷ c ∷ bs) = (b + 256 * c) ∷ u16_units bs

-- The end of the record at `off`, whose `NextEntryOffset` is `next`.
unfoldable pub record_end : List ℕ → ℕ → ℕ → Option ℕ
unfolding checked_add
record_end buf off next =
    if next == 0
    then some (length buf)
    else if ltb next extd_min_record || not (next % 8 == 0)
    then none
    else checked_add off next >>= λ end. if ltb (length buf) end then none else some end

-- The bounds of the name within the record.
unfoldable pub name_range : ℕ → ℕ → ℕ → Option (ℕ × ℕ)
unfolding checked_add
name_range off end name_len =
    if (name_len == 0) || not (name_len % 2 == 0)
    then none
    else checked_add off 88 >>= λ name_start. checked_add name_start name_len >>= λ name_end.
        if ltb end name_end then none else some (name_start, name_end)

unfoldable pub read_reparse_tag : List ℕ → ℕ → ℕ → Option ℕ
unfolding read_le
read_reparse_tag buf off attrs =
    if bit_and attrs file_attribute_reparse_point == 0 then some 0 else read_le 4 buf (off + 68)

-- The facts of the record at `off` that ends at `end`.
unfoldable pub read_facts : List ℕ → VolumeContext → ℕ → ℕ → Option EntryFacts
read_facts buf volume off end = read_le 4 buf (off + 56) >>= λ attrs.
    read_reparse_tag buf off attrs >>= λ reparse_tag. read_le 4 buf (off + 60) >>= λ name_len.
    name_range off end name_len >>= λ (name_start, name_end).
    read_i64_le buf (off + 8) >>= λ creation. read_i64_le buf (off + 16) >>= λ last_access.
    read_i64_le buf (off + 24) >>= λ last_write. read_i64_le buf (off + 48) >>= λ alloc_raw.
    read_i64_le buf (off + 40) >>= λ eof_raw. read_le 16 buf (off + 72) >>= λ file_id. some record {
      name = from_utf16_lossy (u16_units (take (name_end - name_start) (drop name_start buf)));
      file_attributes = attrs;
      reparse_tag = reparse_tag;
      creation_time_utc_ms = filetime_i64_to_unix_ms creation;
      last_write_time_utc_ms = filetime_i64_to_unix_ms last_write;
      last_access_time_utc_ms = filetime_i64_to_unix_ms last_access;
      logical_size = if is_negative eof_raw then 0 else eof_raw;
      allocated_size = if is_negative alloc_raw then none else some alloc_raw;
      object_id = identity volume file_id;
      total_link_count = link_knowledge volume;
    }

-- The body of the loop behind the test of the record's length: the facts, `next`, and the record's
-- end.
unfoldable pub read_record : List ℕ → VolumeContext → ℕ → Option (EntryFacts × ℕ × ℕ)
read_record buf volume off = read_le 4 buf off >>= λ next. record_end buf off next >>= λ end.
    read_facts buf volume off end >>= λ fact. some (fact, next, end)

-- A turn of the loop that ends it, or one that goes on at an offset.
pub data Turn : Type 0 where
  return : Option (List EntryFacts) → Turn
  next_record : EntryFacts → ℕ → Turn

unfoldable pub turn : List ℕ → VolumeContext → ℕ → List EntryFacts → Turn
unfolding checked_add
turn buf volume off facts = elim (checked_add off extd_min_record) [
  | none ↦ return none
  | some record_header_end ↦
      if ltb (length buf) record_header_end
      then return (if off == 0 then some facts else none)
      else elim (read_record buf volume off) [
        | none ↦ return none
        | some (fact, next, end) ↦
            if next == 0 then return (some (facts ++ (fact ∷ []))) else next_record fact end
      ]
]

-- `none` if the fuel is out.
unfoldable pub extd_loop :
    ℕ → List ℕ → VolumeContext → ℕ → List EntryFacts → Option (Option (List EntryFacts))
extd_loop zero buf volume off facts = none
extd_loop (suc fuel) buf volume off facts = elim (turn buf volume off facts) [
  | return result ↦ some result
  | next_record fact end ↦ extd_loop fuel buf volume end (facts ++ (fact ∷ []))
]

-- A record has 88 bytes or more, so a unit of fuel for a byte, and one, are enough
-- (`Bounds.parse_extd_entries_returns`).
unfoldable pub parse_extd_entries : List ℕ → VolumeContext → Option (Option (List EntryFacts))
parse_extd_entries buf volume = extd_loop (suc (length buf)) buf volume 0 []
