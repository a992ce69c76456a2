-- ===== src/Worker/Entries/Layout.antt =====
-- The buffer that Windows documents for `FILE_ID_EXTD_DIR_INFO`: records of 88 bytes and a name in
-- UTF-16, each at a multiple of eight bytes, linked by the offset of the next one. Any bytes may stand
-- between a name and the next record, and behind the last name, where the buffer is not filled.
use pig_tree.Base.{
  ℕ, ◌+◌, ◌*◌, ◌/◌, ◌%◌, ◌^◌, ◌≤◌, ◌<◌, List, [], ◌∷◌, ◌++◌, length, length-append, take, drop, All,
  ◌≡◌, ◌≢◌, refl, ap, ap₂, arith, some, bit_and, ◌==◌, if◌then◌else◌, none, le→ltb,
}
use native.Mathlib.Nat.{suc-add}
use pig_tree.Base.Bytes.{to_le_bytes, from_le_bytes-to_le_bytes}
use pig_tree.Worker.Entries.{
  read_le, u16_units, VolumeContext, EntryFacts, filetime_i64_to_unix_ms, is_negative, identity,
  link_knowledge, file_attribute_reparse_point,
}
use pig_tree.Worker.Entries.Utf16.{from_utf16_lossy}

-- The fields of a record in their order, then the name, and what lies behind it up to the next record
-- or the end of the buffer.
pub record DirInfo : Type 0 where
  pub file_index : ℕ
  pub creation_time : ℕ
  pub last_access_time : ℕ
  pub last_write_time : ℕ
  pub change_time : ℕ
  pub end_of_file : ℕ
  pub allocation_size : ℕ
  pub file_attributes : ℕ
  pub ea_size : ℕ
  pub reparse_point_tag : ℕ
  pub file_id : ℕ
  pub name : List ℕ
  pub slack : List ℕ

-- What the fields must be for a record to be one.
abbrev pub IsDirInfo : DirInfo → Type 0
IsDirInfo r =
    (r.creation_time < 256 ^ 8)
    × (r.last_access_time < 256 ^ 8)
    × (r.last_write_time < 256 ^ 8)
    × (r.end_of_file < 256 ^ 8)
    × (r.allocation_size < 256 ^ 8)
    × (r.file_attributes < 256 ^ 4)
    × (r.reparse_point_tag < 256 ^ 4)
    × (r.file_id < 256 ^ 16)
    × (r.name ≢ [])
    × (length r.name * 2 < 256 ^ 4)
    × All (λ u. u < 65536) r.name

abbrev pub name_bytes : List ℕ → List ℕ
name_bytes [] = []
name_bytes (u ∷ us) = (u % 256) ∷ (u / 256) ∷ name_bytes us

-- The fixed part, before the name.
abbrev pub fixed : ℕ → DirInfo → List ℕ → List ℕ
fixed next r tail =
    to_le_bytes 4 next
    ++ (to_le_bytes 4 r.file_index
        ++ (to_le_bytes 8 r.creation_time
            ++ (to_le_bytes 8 r.last_access_time
                ++ (to_le_bytes 8 r.last_write_time
                    ++ (to_le_bytes 8 r.change_time
                        ++ (to_le_bytes 8 r.end_of_file
                            ++ (to_le_bytes 8 r.allocation_size
                                ++ (to_le_bytes 4 r.file_attributes
                                    ++ (to_le_bytes 4 (length r.name * 2)
                                        ++ (to_le_bytes 4 r.ea_size
                                            ++ (to_le_bytes 4 r.reparse_point_tag
                                                ++ (to_le_bytes 16 r.file_id ++ tail))))))))))))

abbrev pub record_size : DirInfo → ℕ
record_size r = 88 + length r.name * 2 + length r.slack

-- The next record stands at a multiple of eight bytes, and its offset fits the field.
abbrev pub IsLinked : DirInfo → Type 0
IsLinked r = (record_size r % 8 ≡ 0) × (record_size r < 256 ^ 4)

-- Records that make up a buffer; the last one is not linked to another.
abbrev pub IsBuffer : List DirInfo → Type 0
IsBuffer [] = Unit
IsBuffer (r ∷ []) = IsDirInfo r
IsBuffer (r ∷ q ∷ rs) = IsDirInfo r × IsLinked r × IsBuffer (q ∷ rs)

abbrev pub encode : List DirInfo → List ℕ
encode [] = []
encode (r ∷ []) = fixed 0 r (name_bytes r.name ++ r.slack)
encode (r ∷ q ∷ rs) = fixed (record_size r) r (name_bytes r.name ++ (r.slack ++ encode (q ∷ rs)))

-- The facts of a record.
abbrev pub facts_of : VolumeContext → DirInfo → EntryFacts
facts_of volume r = record {
  name = from_utf16_lossy r.name;
  file_attributes = r.file_attributes;
  reparse_tag =
      if bit_and r.file_attributes file_attribute_reparse_point == 0
      then 0
      else r.reparse_point_tag;
  creation_time_utc_ms = filetime_i64_to_unix_ms r.creation_time;
  last_write_time_utc_ms = filetime_i64_to_unix_ms r.last_write_time;
  last_access_time_utc_ms = filetime_i64_to_unix_ms r.last_access_time;
  logical_size = if is_negative r.end_of_file then 0 else r.end_of_file;
  allocated_size = if is_negative r.allocation_size then none else some r.allocation_size;
  object_id = identity volume r.file_id;
  total_link_count = link_knowledge volume;
}

pub length-name_bytes : (us : List ℕ) → length (name_bytes us) ≡ length us * 2
length-name_bytes [] = refl
length-name_bytes (u ∷ us) = omega (arith, length-name_bytes us)

pub u16_units-name_bytes : (us : List ℕ) → All (λ u. u < 65536) us → u16_units (name_bytes us) ≡ us
unfolding u16_units
u16_units-name_bytes [] h = refl
u16_units-name_bytes (u ∷ us) (hu, hs) = ap₂ ◌∷◌ (omega arith) (u16_units-name_bytes us hs)

pub drop-beyond : (p b : List ℕ) (o : ℕ) → drop (length p + o) (p ++ b) ≡ drop o b
drop-beyond [] b o = ap (λ (k : ℕ). drop k b) (omega arith)
drop-beyond (x ∷ p) b o = rw suc-add (drop-beyond p b o)

-- A field at `o` of a record behind `p`.
pub read_le-field :
    (k o v : ℕ) (p b : List ℕ)
    → take k (drop o b) ≡ to_le_bytes k v
    → o + k ≤ length b
    → v < 256 ^ k
    → read_le k (p ++ b) (length p + o) ≡ some v
unfolding read_le
read_le-field k o v p b e fits small =
    rw
      (
        le→ltb (length (p ++ b)) (length p + o + k) (omega (arith, length-append p b)),
        drop-beyond p b o,
        e,
      )
      (ap some (from_le_bytes-to_le_bytes k v small))
