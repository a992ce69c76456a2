-- ===== src/Protocol/Observation/Read.antt =====
-- `ObservationReader` of crates/pigtree-protocol/src/observation.rs.
use pig_tree.Base.{
  ℕ, List, Option, none, some, not, ◌&&◌, Result, ok, err, take, drop, get_or, ◌==◌, if◌then◌else◌,
  Bool,
}
use pig_tree.Base.Bytes.{from_le_bytes}
use pig_tree.Protocol.Utf8.{is_utf8}
use pig_tree.Protocol.Io.{ErrorKind, Source, read_byte, read_exact, unexpected_eof}
use pig_tree.Protocol.Observation.{
  worker_stream_version_v1, worker_stream_version_v2, ObjectIdentity, ValueKnowledge, known,
  not_observed, unavailable, RecordTag, directory, file, special_object, coverage_gap, terminal,
  content_stream, ObservationRecord, directory_record, file_record, special_record, stream_record,
  gap_record, terminal_record, ObservationDecodeError, invalid_utf8, invalid_magic,
  unsupported_version, invalid_value_knowledge_tag, invalid_boolean_tag, io, from_io_error,
  record_tag_from_u8, outcome_from_u8,
}

abbrev pub Read : Type 0 → Type 0
Read A = Source → Result ObservationDecodeError (A × Source)

infixl 5 ◌>>=◌ ◌>>◌
abbrev pub ◌>>=◌ : {A B : Type 0} → Read A → (A → Read B) → Read B
◌>>=◌ m f s = elim (m s) [ ok (a, s') ↦ f a s' | err e ↦ err e ]

abbrev pub ◌>>◌ : {B : Type 0} → Read (Unit {0}) → Read B → Read B
m >> k = m >>= λ _. k

abbrev pub pure : {A : Type 0} → A → Read A
pure a s = ok (a, s)

abbrev pub lift : {A : Type 0} → Result ObservationDecodeError A → Read A
lift (ok a) s = ok (a, s)
lift (err e) s = err e

abbrev pub reject : Bool → ObservationDecodeError → Read (Unit {0})
reject test e s = if test then err e else ok (tt, s)

-- `read_exact` into a buffer of `n` bytes, with `?`.
abbrev pub read_bytes : ℕ → Read (List ℕ)
read_bytes n s = from_io_error (read_exact n s)

-- The integer in the `n` bytes of a buffer from `i` on.
abbrev pub int_at : List ℕ → ℕ → ℕ → ℕ
int_at buf i n = from_le_bytes (take n (drop i buf))

abbrev pub byte_at : List ℕ → ℕ → ℕ
byte_at buf i = get_or buf i 0

unfoldable pub read_u16_str : Read (List ℕ)
read_u16_str = do
  len_buf ← read_bytes 2
  buf ← read_bytes (from_le_bytes len_buf)
  reject (not (is_utf8 buf)) invalid_utf8
  pure buf

-- The identity behind the flag of `read_object_identity`.
unfoldable pub read_identity_fields : Read (Option ObjectIdentity)
read_identity_fields = do
  guid ← read_bytes 16
  file_id_buf ← read_bytes 16
  pure (some (record { volume_guid = guid; file_id = from_le_bytes file_id_buf }))

unfoldable pub read_object_identity : Read (Option ObjectIdentity)
read_object_identity = do
  flag ← read_bytes 1
  if byte_at flag 0 == 0
      then pure none
      else if byte_at flag 0 == 1
      then read_identity_fields
      else lift (err (invalid_boolean_tag (byte_at flag 0)))

unfoldable pub link_knowledge : ℕ → ℕ → Result ObservationDecodeError (ValueKnowledge ℕ)
link_knowledge tag val =
    if tag == 0
    then ok not_observed
    else if tag == 1
    then ok (known val)
    else if tag == 2
    then ok unavailable
    else if tag == 3
    then ok ValueKnowledge.not_applicable
    else err (invalid_value_knowledge_tag tag)

unfoldable pub read_link_knowledge : Read (ValueKnowledge ℕ)
read_link_knowledge = do
  tag_buf ← read_bytes 1
  val_buf ← read_bytes 4
  lift (link_knowledge (byte_at tag_buf 0) (from_le_bytes val_buf))

-- The `match` on the flag before an allocated size that is always there.
unfoldable pub allocated : ℕ → ℕ → Result ObservationDecodeError (Option ℕ)
allocated flag raw =
    if flag == 0
    then ok none
    else if flag == 1
    then ok (some raw)
    else err (invalid_boolean_tag flag)

unfoldable pub read_directory_details : Read (Option ℕ × Option ObjectIdentity × ValueKnowledge ℕ)
read_directory_details = do
  alloc_flag ← read_bytes 1
  raw_alloc ← read_bytes 8
  alloc ← lift (allocated (byte_at alloc_flag 0) (from_le_bytes raw_alloc))
  oid ← read_object_identity
  links ← read_link_knowledge
  pure (alloc, oid, links)

unfoldable pub read_directory : ℕ → Read ObservationRecord
read_directory version = do
  fixed ← read_bytes 40
  details ←
      if version == worker_stream_version_v1
      then pure (none, none, not_observed)
      else read_directory_details
  name ← read_u16_str
  pure (
      directory_record (record {
        entry_id = int_at fixed 0 4;
        parent_id = int_at fixed 4 4;
        name = name;
        file_attributes = int_at fixed 8 4;
        reparse_tag = int_at fixed 12 4;
        creation_time_utc_ms = int_at fixed 16 8;
        last_write_time_utc_ms = int_at fixed 24 8;
        last_access_time_utc_ms = int_at fixed 32 8;
        object_id = details.1;
        allocated_size = details.0;
        total_link_count = details.2;
      }))

unfoldable pub read_file_details : Read (Option ObjectIdentity × ValueKnowledge ℕ)
read_file_details = do oid ← read_object_identity; links ← read_link_knowledge; pure (oid, links)

unfoldable pub read_file : ℕ → Read ObservationRecord
read_file version = do
  fixed ← read_bytes 57
  alloc ← lift (allocated (byte_at fixed 16) (int_at fixed 17 8))
  details ←
      if version == worker_stream_version_v1 then pure (none, not_observed) else read_file_details
  name ← read_u16_str
  pure (
      file_record (record {
        entry_id = int_at fixed 0 4;
        parent_id = int_at fixed 4 4;
        name = name;
        logical_size = int_at fixed 8 8;
        allocated_size = alloc;
        file_attributes = int_at fixed 25 4;
        reparse_tag = int_at fixed 29 4;
        creation_time_utc_ms = int_at fixed 33 8;
        last_write_time_utc_ms = int_at fixed 41 8;
        last_access_time_utc_ms = int_at fixed 49 8;
        object_id = details.0;
        total_link_count = details.1;
      }))

unfoldable pub read_special : ℕ → Read ObservationRecord
read_special version = do
  fixed ← read_bytes 40
  oid ← if version == worker_stream_version_v1 then pure none else read_object_identity
  name ← read_u16_str
  pure (
      special_record (record {
        entry_id = int_at fixed 0 4;
        parent_id = int_at fixed 4 4;
        name = name;
        file_attributes = int_at fixed 8 4;
        reparse_tag = int_at fixed 12 4;
        creation_time_utc_ms = int_at fixed 16 8;
        last_write_time_utc_ms = int_at fixed 24 8;
        last_access_time_utc_ms = int_at fixed 32 8;
        object_id = oid;
      }))

unfoldable pub read_coverage_gap : Read ObservationRecord
read_coverage_gap = do
  err_buf ← read_bytes 4
  path ← read_u16_str
  error_message ← read_u16_str
  pure (
      gap_record
        (record { path = path; error_code = from_le_bytes err_buf; error_message = error_message }))

-- The `match` on the flag of a content stream, whose size is there only behind a 1.
unfoldable pub read_stream_allocated : ℕ → Read (Option ℕ)
read_stream_allocated flag =
    if flag == 0
    then pure none
    else if flag == 1
    then (do raw ← read_bytes 8; pure (some (from_le_bytes raw)))
    else lift (err (invalid_boolean_tag flag))

unfoldable pub read_stream : Read ObservationRecord
read_stream = do
  fixed ← read_bytes 13
  allocated_size ← read_stream_allocated (byte_at fixed 12)
  name ← read_u16_str
  pure (
      stream_record (record {
        parent_entry_id = int_at fixed 0 4;
        name = name;
        logical_size = int_at fixed 4 8;
        allocated_size = allocated_size;
      }))

unfoldable pub read_terminal : Read ObservationRecord
read_terminal = do
  fixed ← read_bytes 45
  outcome ← lift (outcome_from_u8 (byte_at fixed 0))
  pure (
      terminal_record (record {
        outcome = outcome;
        total_directories = int_at fixed 1 8;
        total_files = int_at fixed 9 8;
        total_logical_bytes = int_at fixed 17 8;
        total_allocated_bytes = int_at fixed 25 8;
        coverage_gap_count = int_at fixed 33 4;
        duration_ms = int_at fixed 37 8;
      }))

abbrev pub read_tagged : ℕ → RecordTag → Read ObservationRecord
read_tagged version directory = read_directory version
read_tagged version file = read_file version
read_tagged version special_object = read_special version
read_tagged version coverage_gap = read_coverage_gap
read_tagged version content_stream = read_stream
read_tagged version terminal = read_terminal

-- `ObservationReader`, with what is left of its stream.
pub record ObservationReader : Type 0 where
  pub reader : Source
  pub target_path : List ℕ
  pub stream_version : ℕ

abbrev new_fields : Read (List ℕ × ℕ)
new_fields = do
  magic ← read_bytes 4
  reject
      (not (
        byte_at magic 0 == 0x50
        && byte_at magic 1 == 0x54
        && byte_at magic 2 == 0x57
        && byte_at magic 3 == 0x4F))
      (invalid_magic magic)
  ver_buf ← read_bytes 2
  let version = from_le_bytes ver_buf
  reject (not (version == worker_stream_version_v1) && not (version == worker_stream_version_v2))
      (unsupported_version version)
  target_path ← read_u16_str
  pure (target_path, version)

-- `ObservationReader::new`.
unfoldable pub new : Source → Result ObservationDecodeError ObservationReader
new s = elim (new_fields s) [
  | ok ((target_path, version), rest) ↦
      ok (record { reader = rest; target_path = target_path; stream_version = version })
  | err e ↦ err e
]

abbrev pub Outcome : Type 0
Outcome = Result ObservationDecodeError (Option ObservationRecord × ObservationReader)

abbrev put_back :
    ObservationReader → Result ObservationDecodeError (ObservationRecord × Source) → Outcome
put_back r (ok (rec, rest)) = ok (some rec, record r { reader = rest })
put_back r (err e) = err e

-- What follows the byte of the tag, or the end of the stream in its place.
abbrev after_tag : ObservationReader → Result ErrorKind (Option ℕ × Source) → Outcome
after_tag r (ok (none, s)) = ok (none, record r { reader = s })
after_tag r (ok (some b, s)) =
    put_back r ((do tag ← lift (record_tag_from_u8 b); read_tagged r.stream_version tag) s)
after_tag r (err unexpected_eof) = ok (none, r)
after_tag r (err e) = err (io e)

unfoldable pub read_record : ObservationReader → Outcome
read_record r = after_tag r (read_byte r.reader)
