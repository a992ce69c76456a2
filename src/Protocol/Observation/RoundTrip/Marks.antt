-- ===== src/Protocol/Observation/RoundTrip/Marks.antt =====
-- Records of content streams, coverage gaps and the end of the scan.
use pig_tree.Base.{ℕ, ◌≡◌, refl, List, [], ◌∷◌, ◌++◌, append_assoc}
use pig_tree.Base.{Option, none, some, ok}
use pig_tree.Base.Bytes.{to_le_bytes, from_le_bytes-to_le_bytes}
use pig_tree.Protocol.Observation.{
  RunOutcome, finished, cancelled, failed, CoverageGapObservation, StreamObservation,
  TerminalObservation, stream_record, gap_record, terminal_record, outcome_byte, outcome_from_u8,
}
use pig_tree.Protocol.Observation.Write.{write_stream, write_coverage_gap, write_terminal, ◌>>◌}
use pig_tree.Protocol.Observation.Read.{
  read_coverage_gap, read_stream, read_terminal, read_stream_allocated, ◌>>=◌,
}
use pig_tree.Protocol.Observation.Parts.{
  IsU32, IsU64, IsShort, str_bytes, IsSize, stream_size_bytes, size_flag, write_u16_str-eq,
  write_stream_allocated-eq, Reads, read_u16_str-str_bytes,
}

pub record IsStream (stream : StreamObservation) : Type 0 where
  pub parent_entry_id : IsU32 stream.parent_entry_id
  pub name : IsShort stream.name
  pub logical_size : IsU64 stream.logical_size
  pub allocated_size : IsSize stream.allocated_size

abbrev stream_size_rest : Option ℕ → List ℕ
stream_size_rest none = []
stream_size_rest (some n) = to_le_bytes 8 n

stream_allocated-flag :
    (size : Option ℕ) (tail : List ℕ)
    → stream_size_bytes size ++ tail ≡ size_flag size ∷ (stream_size_rest size ++ tail)
stream_allocated-flag none tail = refl
stream_allocated-flag (some n) tail = refl

abbrev pub stream_bytes : StreamObservation → List ℕ
stream_bytes stream =
    to_le_bytes 4 stream.parent_entry_id
    ++ (to_le_bytes 8 stream.logical_size
        ++ (size_flag stream.allocated_size
            ∷ (stream_size_rest stream.allocated_size ++ str_bytes stream.name)))

pub write_stream-eq :
    (stream : StreamObservation) (out : List ℕ)
    → IsStream stream
    → write_stream stream out ≡ (ok tt, out ++ (0x06 ∷ stream_bytes stream))
unfolding write_stream
write_stream-eq stream out h =
    rw
      (◌>>◌, write_stream_allocated-eq stream.allocated_size, write_u16_str-eq stream.name _ h.name)
      (simp (append_assoc, stream_allocated-flag))

read_stream_allocated-eq :
    (size : Option ℕ)
    → IsSize size
    → Reads (read_stream_allocated (size_flag size)) (stream_size_rest size) size
unfolding read_stream_allocated
read_stream_allocated-eq none h rest end = refl
read_stream_allocated-eq (some n) h rest end = rw (from_le_bytes-to_le_bytes 8 n h)

pub read_stream-stream_bytes :
    (stream : StreamObservation)
    → IsStream stream
    → Reads read_stream (stream_bytes stream) (stream_record stream)
unfolding read_stream
read_stream-stream_bytes stream h rest end = rw (
  ◌>>=◌,
  append_assoc (stream_size_rest stream.allocated_size) (str_bytes stream.name) rest,
  read_stream_allocated-eq stream.allocated_size h.allocated_size (str_bytes stream.name ++ rest)
      end,
  read_u16_str-str_bytes stream.name h.name rest end,
  from_le_bytes-to_le_bytes 4 stream.parent_entry_id h.parent_entry_id,
  from_le_bytes-to_le_bytes 8 stream.logical_size h.logical_size,
)

pub record IsGap (gap : CoverageGapObservation) : Type 0 where
  pub path : IsShort gap.path
  pub error_code : IsU32 gap.error_code
  pub error_message : IsShort gap.error_message

abbrev pub gap_bytes : CoverageGapObservation → List ℕ
gap_bytes gap = to_le_bytes 4 gap.error_code ++ (str_bytes gap.path ++ str_bytes gap.error_message)

pub write_coverage_gap-eq :
    (gap : CoverageGapObservation) (out : List ℕ)
    → IsGap gap
    → write_coverage_gap gap out ≡ (ok tt, out ++ (0x04 ∷ gap_bytes gap))
unfolding write_coverage_gap
write_coverage_gap-eq gap out h =
    rw
      (
        ◌>>◌,
        write_u16_str-eq gap.path _ h.path,
        write_u16_str-eq gap.error_message _ h.error_message,
      )
      (simp append_assoc)

pub read_coverage_gap-gap_bytes :
    (gap : CoverageGapObservation)
    → IsGap gap
    → Reads read_coverage_gap (gap_bytes gap) (gap_record gap)
unfolding read_coverage_gap
read_coverage_gap-gap_bytes gap h rest end = rw (
  ◌>>=◌,
  append_assoc (str_bytes gap.path) (str_bytes gap.error_message) rest,
  read_u16_str-str_bytes gap.path h.path (str_bytes gap.error_message ++ rest) end,
  read_u16_str-str_bytes gap.error_message h.error_message rest end,
  from_le_bytes-to_le_bytes 4 gap.error_code h.error_code,
)

pub record IsTerminal (term : TerminalObservation) : Type 0 where
  pub total_directories : IsU64 term.total_directories
  pub total_files : IsU64 term.total_files
  pub total_logical_bytes : IsU64 term.total_logical_bytes
  pub total_allocated_bytes : IsU64 term.total_allocated_bytes
  pub coverage_gap_count : IsU32 term.coverage_gap_count
  pub duration_ms : IsU64 term.duration_ms

abbrev pub terminal_bytes : TerminalObservation → List ℕ
terminal_bytes term =
    outcome_byte term.outcome
    ∷ (to_le_bytes 8 term.total_directories
        ++ (to_le_bytes 8 term.total_files
            ++ (to_le_bytes 8 term.total_logical_bytes
                ++ (to_le_bytes 8 term.total_allocated_bytes
                    ++ (to_le_bytes 4 term.coverage_gap_count ++ to_le_bytes 8 term.duration_ms)))))

pub write_terminal-eq :
    (term : TerminalObservation) (out : List ℕ)
    → write_terminal term out ≡ (ok tt, out ++ (0x05 ∷ terminal_bytes term))
unfolding write_terminal
write_terminal-eq term out = simp append_assoc

outcome_from_u8-outcome_byte : (o : RunOutcome) → outcome_from_u8 (outcome_byte o) ≡ ok o
unfolding outcome_from_u8
outcome_from_u8-outcome_byte finished = refl
outcome_from_u8-outcome_byte cancelled = refl
outcome_from_u8-outcome_byte failed = refl

pub read_terminal-terminal_bytes :
    (term : TerminalObservation)
    → IsTerminal term
    → Reads read_terminal (terminal_bytes term) (terminal_record term)
unfolding read_terminal
read_terminal-terminal_bytes term h rest end = rw (
  outcome_from_u8-outcome_byte term.outcome,
  from_le_bytes-to_le_bytes 8 term.total_directories h.total_directories,
  from_le_bytes-to_le_bytes 8 term.total_files h.total_files,
  from_le_bytes-to_le_bytes 8 term.total_logical_bytes h.total_logical_bytes,
  from_le_bytes-to_le_bytes 8 term.total_allocated_bytes h.total_allocated_bytes,
  from_le_bytes-to_le_bytes 4 term.coverage_gap_count h.coverage_gap_count,
  from_le_bytes-to_le_bytes 8 term.duration_ms h.duration_ms,
)
