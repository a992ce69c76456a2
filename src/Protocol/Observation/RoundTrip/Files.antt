-- ===== src/Protocol/Observation/RoundTrip/Files.antt =====
-- File records.
use pig_tree.Base.{ℕ, ◌≡◌, List, ◌∷◌, ◌++◌, append_assoc}
use pig_tree.Base.{Option, ok}
use pig_tree.Base.Bytes.{to_le_bytes, from_le_bytes-to_le_bytes}
use pig_tree.Protocol.Observation.{
  worker_stream_version_v2, ObjectIdentity, ValueKnowledge, FileObservation, file_record,
}
use pig_tree.Protocol.Observation.Write.{write_file, ◌>>◌}
use pig_tree.Protocol.Observation.Read.{read_file, read_file_details, ◌>>=◌}
use pig_tree.Protocol.Observation.Parts.{
  IsU32, IsU64, IsShort, str_bytes, IsIdentity, identity_bytes, IsLinks, link_bytes, IsSize,
  size_bytes, size_value, write_u16_str-eq, write_object_identity-eq, write_link_knowledge-eq,
  write_allocated-eq, Reads, read_u16_str-str_bytes, read_object_identity-identity_bytes,
  read_link_knowledge-link_bytes, size_value-lt, allocated-eq,
}

-- The ranges of the fields of a file record, and a name that fits.
pub record IsFile (f : FileObservation) : Type 0 where
  pub entry_id : IsU32 f.entry_id
  pub parent_id : IsU32 f.parent_id
  pub name : IsShort f.name
  pub logical_size : IsU64 f.logical_size
  pub allocated_size : IsSize f.allocated_size
  pub file_attributes : IsU32 f.file_attributes
  pub reparse_tag : IsU32 f.reparse_tag
  pub creation_time_utc_ms : IsU64 f.creation_time_utc_ms
  pub last_write_time_utc_ms : IsU64 f.last_write_time_utc_ms
  pub last_access_time_utc_ms : IsU64 f.last_access_time_utc_ms
  pub object_id : IsIdentity f.object_id
  pub total_link_count : IsLinks f.total_link_count

abbrev file_fixed : FileObservation → List ℕ
file_fixed f =
    to_le_bytes 4 f.entry_id
    ++ (to_le_bytes 4 f.parent_id
        ++ (to_le_bytes 8 f.logical_size
            ++ (size_bytes f.allocated_size
                ++ (to_le_bytes 4 f.file_attributes
                    ++ (to_le_bytes 4 f.reparse_tag
                        ++ (to_le_bytes 8 f.creation_time_utc_ms
                            ++ (to_le_bytes 8 f.last_write_time_utc_ms
                                ++ to_le_bytes 8 f.last_access_time_utc_ms)))))))

abbrev pub file_bytes : FileObservation → List ℕ
file_bytes f =
    file_fixed f
    ++ ((identity_bytes f.object_id ++ link_bytes f.total_link_count) ++ str_bytes f.name)

pub write_file-eq :
    (f : FileObservation) (out : List ℕ)
    → IsFile f
    → write_file f out ≡ (ok tt, out ++ (0x02 ∷ file_bytes f))
unfolding write_file
write_file-eq f out h =
    rw
      (
        ◌>>◌,
        write_allocated-eq f.allocated_size,
        write_object_identity-eq f.object_id,
        write_link_knowledge-eq f.total_link_count,
        write_u16_str-eq f.name _ h.name,
      )
      (simp append_assoc)

read_file_details-eq :
    (id : Option ObjectIdentity) (links : ValueKnowledge ℕ)
    → IsIdentity id
    → IsLinks links
    → Reads read_file_details (identity_bytes id ++ link_bytes links) (id, links)
unfolding read_file_details
read_file_details-eq id links hi hl rest end = rw (
  append_assoc,
  read_object_identity-identity_bytes id hi (link_bytes links ++ rest) end,
  ◌>>=◌,
  read_link_knowledge-link_bytes links hl rest end,
)

pub read_file-file_bytes :
    (f : FileObservation)
    → IsFile f
    → Reads (read_file worker_stream_version_v2) (file_bytes f) (file_record f)
unfolding read_file
read_file-file_bytes f h rest end = rw (
  from_le_bytes-to_le_bytes 8 (size_value f.allocated_size)
      (size_value-lt f.allocated_size h.allocated_size),
  allocated-eq f.allocated_size,
  ◌>>=◌,
  append_assoc (identity_bytes f.object_id ++ link_bytes f.total_link_count) (str_bytes f.name)
      rest,
  read_file_details-eq f.object_id f.total_link_count h.object_id h.total_link_count
      (str_bytes f.name ++ rest) end,
  read_u16_str-str_bytes f.name h.name rest end,
  from_le_bytes-to_le_bytes 4 f.entry_id h.entry_id,
  from_le_bytes-to_le_bytes 4 f.parent_id h.parent_id,
  from_le_bytes-to_le_bytes 8 f.logical_size h.logical_size,
  from_le_bytes-to_le_bytes 4 f.file_attributes h.file_attributes,
  from_le_bytes-to_le_bytes 4 f.reparse_tag h.reparse_tag,
  from_le_bytes-to_le_bytes 8 f.creation_time_utc_ms h.creation_time_utc_ms,
  from_le_bytes-to_le_bytes 8 f.last_write_time_utc_ms h.last_write_time_utc_ms,
  from_le_bytes-to_le_bytes 8 f.last_access_time_utc_ms h.last_access_time_utc_ms,
)
