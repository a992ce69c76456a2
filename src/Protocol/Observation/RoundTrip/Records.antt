-- ===== src/Protocol/Observation/RoundTrip/Records.antt =====
-- `read_record` on what the writer's methods append, for every kind of record, and the stream's header.
use pig_tree.Base.{ℕ, ◌≡◌, refl, List, [], ◌∷◌, ◌++◌, some, ok}
use pig_tree.Protocol.Io.{End}
use pig_tree.Protocol.Observation.{
  worker_stream_version_v2, ObservationRecord, RecordTag, directory_record, file_record,
  special_record, stream_record, gap_record, terminal_record, record_tag_byte, record_tag_from_u8,
  directory, file, special_object, coverage_gap, terminal, content_stream,
}
use pig_tree.Protocol.Observation.Write
use pig_tree.Protocol.Observation.Write.{
  Write, write_directory, write_file, write_special, write_stream, write_coverage_gap,
  write_terminal, ◌>>◌,
}
use pig_tree.Protocol.Observation.Read
use pig_tree.Protocol.Observation.Read.{ObservationReader, read_record, read_tagged, ◌>>=◌}
use pig_tree.Protocol.Observation.Parts.{
  IsShort, str_bytes, write_u16_str-eq, read_u16_str-str_bytes, Reads,
}
use pig_tree.Protocol.Observation.RoundTrip.Files.{
  IsFile, file_bytes, write_file-eq, read_file-file_bytes,
}
use pig_tree.Protocol.Observation.RoundTrip.Directories.{
  IsDirectory, directory_bytes, write_directory-eq, read_directory-directory_bytes, IsSpecial,
  special_bytes, write_special-eq, read_special-special_bytes,
}
use pig_tree.Protocol.Observation.RoundTrip.Marks.{
  IsStream, stream_bytes, write_stream-eq, read_stream-stream_bytes, IsGap, gap_bytes,
  write_coverage_gap-eq, read_coverage_gap-gap_bytes, IsTerminal, terminal_bytes, write_terminal-eq,
  read_terminal-terminal_bytes,
}

-- Every integer in the range of its type, every identity of sixteen bytes, every string at most
-- 65535 bytes of UTF-8.
abbrev pub IsRecord : ObservationRecord → Type 0
IsRecord (directory_record dir) = IsDirectory dir
IsRecord (file_record f) = IsFile f
IsRecord (special_record special) = IsSpecial special
IsRecord (stream_record stream) = IsStream stream
IsRecord (gap_record gap) = IsGap gap
IsRecord (terminal_record term) = IsTerminal term

-- The method of the writer for a record.
abbrev pub write_record : ObservationRecord → Write
write_record (directory_record dir) = write_directory dir
write_record (file_record f) = write_file f
write_record (special_record special) = write_special special
write_record (stream_record stream) = write_stream stream
write_record (gap_record gap) = write_coverage_gap gap
write_record (terminal_record term) = write_terminal term

abbrev tag_of : ObservationRecord → RecordTag
tag_of (directory_record dir) = directory
tag_of (file_record f) = file
tag_of (special_record special) = special_object
tag_of (stream_record stream) = content_stream
tag_of (gap_record gap) = coverage_gap
tag_of (terminal_record term) = terminal

abbrev body_bytes : ObservationRecord → List ℕ
body_bytes (directory_record dir) = directory_bytes dir
body_bytes (file_record f) = file_bytes f
body_bytes (special_record special) = special_bytes special
body_bytes (stream_record stream) = stream_bytes stream
body_bytes (gap_record gap) = gap_bytes gap
body_bytes (terminal_record term) = terminal_bytes term

pub record_bytes : ObservationRecord → List ℕ
record_bytes rec = record_tag_byte (tag_of rec) ∷ body_bytes rec

pub write_record-record_bytes :
    (rec : ObservationRecord) (out : List ℕ)
    → IsRecord rec
    → write_record rec out ≡ (ok tt, out ++ record_bytes rec)
unfolding record_bytes
write_record-record_bytes (directory_record dir) out h = write_directory-eq dir out h
write_record-record_bytes (file_record f) out h = write_file-eq f out h
write_record-record_bytes (special_record special) out h = write_special-eq special out h
write_record-record_bytes (stream_record stream) out h = write_stream-eq stream out h
write_record-record_bytes (gap_record gap) out h = write_coverage_gap-eq gap out h
write_record-record_bytes (terminal_record term) out h = write_terminal-eq term out

record_tag-eq : (t : RecordTag) → record_tag_from_u8 (record_tag_byte t) ≡ ok t
unfolding record_tag_from_u8
record_tag-eq directory = refl
record_tag-eq file = refl
record_tag-eq special_object = refl
record_tag-eq coverage_gap = refl
record_tag-eq terminal = refl
record_tag-eq content_stream = refl

read_tagged-body_bytes :
    (rec : ObservationRecord)
    → IsRecord rec
    → Reads (read_tagged worker_stream_version_v2 (tag_of rec)) (body_bytes rec) rec
read_tagged-body_bytes (directory_record dir) h = read_directory-directory_bytes dir h
read_tagged-body_bytes (file_record f) h = read_file-file_bytes f h
read_tagged-body_bytes (special_record special) h = read_special-special_bytes special h
read_tagged-body_bytes (stream_record stream) h = read_stream-stream_bytes stream h
read_tagged-body_bytes (gap_record gap) h = read_coverage_gap-gap_bytes gap h
read_tagged-body_bytes (terminal_record term) h = read_terminal-terminal_bytes term h

-- A reader of a stream of version 2 with these bytes left.
abbrev pub reader_at : List ℕ → List ℕ → End → ObservationReader
reader_at target_path bytes end = record {
  reader = record { bytes = bytes; end = end };
  target_path = target_path;
  stream_version = worker_stream_version_v2;
}

pub read_record-record_bytes :
    (rec : ObservationRecord) (path rest : List ℕ) (end : End)
    → IsRecord rec
    → read_record (reader_at path (record_bytes rec ++ rest) end)
      ≡ ok (some rec, reader_at path rest end)
unfolding read_record record_bytes
read_record-record_bytes rec path rest end h =
    rw (record_tag-eq (tag_of rec), ◌>>=◌, read_tagged-body_bytes rec h rest end)

-- The writer's method for a record appends bytes that `read_record` turns back into the record,
-- whatever follows them in the stream and however the stream ends.
pub read_record-write_record :
    (rec : ObservationRecord) (out path rest : List ℕ) (end : End)
    → IsRecord rec
    → (bytes : List ℕ) × (write_record rec out ≡ (ok tt, out ++ bytes))
      × (read_record (reader_at path (bytes ++ rest) end) ≡ ok (some rec, reader_at path rest end))
read_record-write_record rec out path rest end h = (
  record_bytes rec,
  write_record-record_bytes rec out h,
  read_record-record_bytes rec path rest end h,
)

-- `ObservationReader::new` accepts the header that `ObservationWriter::new` writes, with its path.
pub new-new :
    (path rest : List ℕ) (end : End)
    → IsShort path
    → (bytes : List ℕ) × (Write.new path [] ≡ (ok tt, bytes))
      × (Read.new (record { bytes = bytes ++ rest; end = end }) ≡ ok (reader_at path rest end))
unfolding Write.new Read.new
new-new path rest end h = (
  0x50 ∷ (0x54 ∷ (0x57 ∷ (0x4F ∷ (2 ∷ (0 ∷ str_bytes path))))),
  rw (◌>>◌, write_u16_str-eq path _ h),
  rw (Read.new, ◌>>=◌, read_u16_str-str_bytes path h rest end),
)
