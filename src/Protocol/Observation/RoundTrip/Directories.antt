-- ===== src/Protocol/Observation/RoundTrip/Directories.antt =====
-- Directory records and the records of special objects.
use pig_tree.Base.{ℕ, ◌≡◌, List, ◌∷◌, ◌++◌, append_assoc}
use pig_tree.Base.{Option, ok}
use pig_tree.Base.Bytes.{to_le_bytes, from_le_bytes-to_le_bytes}
use pig_tree.Protocol.Observation.{
  worker_stream_version_v2, ObjectIdentity, ValueKnowledge, DirectoryObservation,
  SpecialObservation, directory_record, special_record,
}
use pig_tree.Protocol.Observation.Write.{write_directory, write_special, ◌>>◌}
use pig_tree.Protocol.Observation.Read.{read_directory, read_directory_details, read_special, ◌>>=◌}
use pig_tree.Protocol.Observation.Parts.{
  IsU32, IsU64, IsShort, str_bytes, IsIdentity, identity_bytes, IsLinks, link_bytes, IsSize,
  size_bytes, size_value, write_u16_str-eq, write_object_identity-eq, write_link_knowledge-eq,
  write_allocated-eq, Reads, read_u16_str-str_bytes, read_object_identity-identity_bytes,
  read_link_knowledge-link_bytes, size_value-lt, allocated-eq,
}

-- The ranges of the fields of a directory record, and a name that fits.
pub record IsDirectory (dir : DirectoryObservation) : Type 0 where
  pub entry_id : IsU32 dir.entry_id
  pub parent_id : IsU32 dir.parent_id
  pub name : IsShort dir.name
  pub file_attributes : IsU32 dir.file_attributes
  pub reparse_tag : IsU32 dir.reparse_tag
  pub creation_time_utc_ms : IsU64 dir.creation_time_utc_ms
  pub last_write_time_utc_ms : IsU64 dir.last_write_time_utc_ms
  pub last_access_time_utc_ms : IsU64 dir.last_access_time_utc_ms
  pub object_id : IsIdentity dir.object_id
  pub allocated_size : IsSize dir.allocated_size
  pub total_link_count : IsLinks dir.total_link_count

abbrev directory_fixed : DirectoryObservation → List ℕ
directory_fixed dir =
    to_le_bytes 4 dir.entry_id
    ++ (to_le_bytes 4 dir.parent_id
        ++ (to_le_bytes 4 dir.file_attributes
            ++ (to_le_bytes 4 dir.reparse_tag
                ++ (to_le_bytes 8 dir.creation_time_utc_ms
                    ++ (to_le_bytes 8 dir.last_write_time_utc_ms
                        ++ to_le_bytes 8 dir.last_access_time_utc_ms)))))

abbrev details_bytes : Option ℕ → Option ObjectIdentity → ValueKnowledge ℕ → List ℕ
details_bytes size id links = size_bytes size ++ (identity_bytes id ++ link_bytes links)

abbrev pub directory_bytes : DirectoryObservation → List ℕ
directory_bytes dir =
    directory_fixed dir
    ++ (details_bytes dir.allocated_size dir.object_id dir.total_link_count ++ str_bytes dir.name)

pub write_directory-eq :
    (dir : DirectoryObservation) (out : List ℕ)
    → IsDirectory dir
    → write_directory dir out ≡ (ok tt, out ++ (0x01 ∷ directory_bytes dir))
unfolding write_directory
write_directory-eq dir out h =
    rw
      (
        ◌>>◌,
        write_allocated-eq dir.allocated_size,
        write_object_identity-eq dir.object_id,
        write_link_knowledge-eq dir.total_link_count,
        write_u16_str-eq dir.name _ h.name,
      )
      (simp append_assoc)

read_directory_details-eq :
    (size : Option ℕ) (id : Option ObjectIdentity) (links : ValueKnowledge ℕ)
    → IsSize size
    → IsIdentity id
    → IsLinks links
    → Reads read_directory_details (details_bytes size id links) (size, id, links)
unfolding read_directory_details
read_directory_details-eq size id links hs hi hl rest end = rw (
  from_le_bytes-to_le_bytes 8 (size_value size) (size_value-lt size hs),
  allocated-eq size,
  ◌>>=◌,
  append_assoc (identity_bytes id) (link_bytes links) rest,
  read_object_identity-identity_bytes id hi (link_bytes links ++ rest) end,
  read_link_knowledge-link_bytes links hl rest end,
)

pub read_directory-directory_bytes :
    (dir : DirectoryObservation)
    → IsDirectory dir
    → Reads (read_directory worker_stream_version_v2) (directory_bytes dir) (directory_record dir)
unfolding read_directory
read_directory-directory_bytes dir h rest end = rw (
  ◌>>=◌,
  append_assoc (details_bytes dir.allocated_size dir.object_id dir.total_link_count)
      (str_bytes dir.name) rest,
  read_directory_details-eq dir.allocated_size dir.object_id dir.total_link_count h.allocated_size
      h.object_id h.total_link_count (str_bytes dir.name ++ rest) end,
  read_u16_str-str_bytes dir.name h.name rest end,
  from_le_bytes-to_le_bytes 4 dir.entry_id h.entry_id,
  from_le_bytes-to_le_bytes 4 dir.parent_id h.parent_id,
  from_le_bytes-to_le_bytes 4 dir.file_attributes h.file_attributes,
  from_le_bytes-to_le_bytes 4 dir.reparse_tag h.reparse_tag,
  from_le_bytes-to_le_bytes 8 dir.creation_time_utc_ms h.creation_time_utc_ms,
  from_le_bytes-to_le_bytes 8 dir.last_write_time_utc_ms h.last_write_time_utc_ms,
  from_le_bytes-to_le_bytes 8 dir.last_access_time_utc_ms h.last_access_time_utc_ms,
)

-- The ranges of the fields of a special object's record, and a name that fits.
pub record IsSpecial (special : SpecialObservation) : Type 0 where
  pub entry_id : IsU32 special.entry_id
  pub parent_id : IsU32 special.parent_id
  pub name : IsShort special.name
  pub file_attributes : IsU32 special.file_attributes
  pub reparse_tag : IsU32 special.reparse_tag
  pub creation_time_utc_ms : IsU64 special.creation_time_utc_ms
  pub last_write_time_utc_ms : IsU64 special.last_write_time_utc_ms
  pub last_access_time_utc_ms : IsU64 special.last_access_time_utc_ms
  pub object_id : IsIdentity special.object_id

abbrev special_fixed : SpecialObservation → List ℕ
special_fixed special =
    to_le_bytes 4 special.entry_id
    ++ (to_le_bytes 4 special.parent_id
        ++ (to_le_bytes 4 special.file_attributes
            ++ (to_le_bytes 4 special.reparse_tag
                ++ (to_le_bytes 8 special.creation_time_utc_ms
                    ++ (to_le_bytes 8 special.last_write_time_utc_ms
                        ++ to_le_bytes 8 special.last_access_time_utc_ms)))))

abbrev pub special_bytes : SpecialObservation → List ℕ
special_bytes special =
    special_fixed special ++ (identity_bytes special.object_id ++ str_bytes special.name)

pub write_special-eq :
    (special : SpecialObservation) (out : List ℕ)
    → IsSpecial special
    → write_special special out ≡ (ok tt, out ++ (0x03 ∷ special_bytes special))
unfolding write_special
write_special-eq special out h =
    rw (◌>>◌, write_object_identity-eq special.object_id, write_u16_str-eq special.name _ h.name)
      (simp append_assoc)

pub read_special-special_bytes :
    (special : SpecialObservation)
    → IsSpecial special
    → Reads (read_special worker_stream_version_v2) (special_bytes special) (special_record special)
unfolding read_special
read_special-special_bytes special h rest end = rw (
  ◌>>=◌,
  append_assoc (identity_bytes special.object_id) (str_bytes special.name) rest,
  read_object_identity-identity_bytes special.object_id h.object_id (str_bytes special.name ++ rest)
      end,
  read_u16_str-str_bytes special.name h.name rest end,
  from_le_bytes-to_le_bytes 4 special.entry_id h.entry_id,
  from_le_bytes-to_le_bytes 4 special.parent_id h.parent_id,
  from_le_bytes-to_le_bytes 4 special.file_attributes h.file_attributes,
  from_le_bytes-to_le_bytes 4 special.reparse_tag h.reparse_tag,
  from_le_bytes-to_le_bytes 8 special.creation_time_utc_ms h.creation_time_utc_ms,
  from_le_bytes-to_le_bytes 8 special.last_write_time_utc_ms h.last_write_time_utc_ms,
  from_le_bytes-to_le_bytes 8 special.last_access_time_utc_ms h.last_access_time_utc_ms,
)
