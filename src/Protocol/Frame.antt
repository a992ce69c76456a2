-- ===== src/Protocol/Frame.antt =====
-- The frames of crates/pigtree-protocol/src/frame.rs: a header of 20 bytes, the payload, and the
-- checksum of both.
pub mod Layout
pub mod RoundTrip
pub mod Stream
use pig_tree.Base.{ℕ, ◌+◌, ◌*◌, Option, none, some, List, [], ◌∷◌, ◌++◌, not, ◌&&◌, bit_and}
use pig_tree.Base.{Bool, length, get_or, take, drop, ltb, ◌==◌, if◌then◌else◌}
use pig_tree.Base.{Result, ok, err, reject, ◌>>=◌, ◌>>◌}
use pig_tree.Base.Bytes.{to_le_bytes, from_le_bytes}
use pig_tree.Protocol.Crc32c.{compute_crc32c}
use pig_tree.Protocol.Io.{ErrorKind, unexpected_eof, Source, read_byte, read_exact}

abbrev pub magic : List ℕ
magic = 0x50 ∷ 0x54 ∷ []

abbrev pub schema_version : ℕ
schema_version = 0x0001

abbrev pub header_size : ℕ
header_size = 20

abbrev pub crc_size : ℕ
crc_size = 4

abbrev pub max_payload_size : ℕ
max_payload_size = 4 * 1024 * 1024

pub data ChannelTag : Type 0 where
  command lossless_domain progress_pulse cancellation_heartbeat : ChannelTag

-- `channel_tag as u8`.
abbrev pub tag_byte : ChannelTag → ℕ
tag_byte command = 0x01
tag_byte lossless_domain = 0x02
tag_byte progress_pulse = 0x03
tag_byte cancellation_heartbeat = 0x04

pub record FrameFlags : Type 0 where
  pub bits : ℕ

abbrev pub end_of_stream : FrameFlags
end_of_stream = record { bits = 0x01 }

abbrev pub challenge_required : FrameFlags
challenge_required = record { bits = 0x02 }

abbrev pub empty : FrameFlags
empty = record { bits = 0 }

unfoldable pub contains : FrameFlags → FrameFlags → Bool
contains flags other = bit_and flags.bits other.bits == other.bits

pub record FrameHeader : Type 0 where
  pub channel_tag : ChannelTag
  pub flags : FrameFlags
  pub sequence_number : ℕ

pub record Frame : Type 0 where
  pub header : FrameHeader
  pub payload : List ℕ

pub data FrameParseError : Type 0 where
  premature_eof : FrameParseError
  invalid_magic : List ℕ → FrameParseError
  unsupported_version invalid_channel_tag invalid_reserved payload_too_large : ℕ → FrameParseError
  checksum_mismatch : ℕ → ℕ → FrameParseError
  io : ErrorKind → FrameParseError

-- `ChannelTag::from_u8`.
unfoldable pub tag_from_u8 : ℕ → Result FrameParseError ChannelTag
tag_from_u8 val =
    if val == 0x01
    then ok command
    else if val == 0x02
    then ok lossless_domain
    else if val == 0x03
    then ok progress_pulse
    else if val == 0x04
    then ok cancellation_heartbeat
    else err (invalid_channel_tag val)

-- `From<io::Error>`, and what the reads of `read_frame` behind its first byte do with an error.
abbrev pub from_io_error : {A : Type 0} → Result ErrorKind A → Result FrameParseError A
from_io_error (ok a) = ok a
from_io_error (err unexpected_eof) = err premature_eof
from_io_error (err e) = err (io e)

abbrev pub header_bytes : FrameHeader → ℕ → List ℕ
header_bytes header payload_len =
    magic
    ++ (to_le_bytes 2 schema_version
        ++ (tag_byte header.channel_tag
            ∷ (header.flags.bits
                ∷ (to_le_bytes 2 0
                    ++ (to_le_bytes 8 header.sequence_number ++ to_le_bytes 4 payload_len)))))

unfoldable pub encode_frame : FrameHeader → List ℕ → Result FrameParseError (List ℕ)
encode_frame header payload = do
  reject (ltb max_payload_size (length payload)) (payload_too_large (length payload))
  let buffer = header_bytes header (length payload) ++ payload
  ok (buffer ++ to_le_bytes crc_size (compute_crc32c buffer))

abbrev pub written : List ℕ → Result FrameParseError (List ℕ) → Result FrameParseError (List ℕ)
written out (ok encoded) = ok (out ++ encoded)
written out (err e) = err e

-- `write_frame` onto an in-memory writer, whose writes do not fail: the bytes written then.
abbrev pub write_frame : FrameHeader → List ℕ → List ℕ → Result FrameParseError (List ℕ)
write_frame header payload out = written out (encode_frame header payload)

-- A read at an index that a test on the length has shown to be in range.
abbrev pub byte_at : List ℕ → ℕ → ℕ
byte_at buffer i = get_or buffer i 0

-- Some bytes in a row, as the array literals under `from_le_bytes` read them.
abbrev pub bytes_at : List ℕ → ℕ → ℕ → List ℕ
bytes_at buffer i n = take n (drop i buffer)

-- The checks of the fixed header, which both decoders and the peek at a pipe make in the same order.
unfoldable pub parse_header : List ℕ → Result FrameParseError (FrameHeader × ℕ)
parse_header buffer = do
  let found = bytes_at buffer 0 2
  reject (not (byte_at found 0 == 0x50 && byte_at found 1 == 0x54)) (invalid_magic found)
  let version = from_le_bytes (bytes_at buffer 2 2)
  reject (not (version == schema_version)) (unsupported_version version)
  channel_tag ← tag_from_u8 (byte_at buffer 4)
  let reserved = from_le_bytes (bytes_at buffer 6 2)
  reject (not (reserved == 0)) (invalid_reserved reserved)
  let payload_len = from_le_bytes (bytes_at buffer 16 4)
  reject (ltb max_payload_size payload_len) (payload_too_large payload_len)
  ok (
    record {
      channel_tag = channel_tag;
      flags = record { bits = byte_at buffer 5 };
      sequence_number = from_le_bytes (bytes_at buffer 8 8);
    },
    payload_len,
  )

unfoldable pub decode_frame : List ℕ → Result FrameParseError (FrameHeader × List ℕ)
decode_frame buffer = do
  reject (ltb (length buffer) header_size) premature_eof
  (header, payload_len) ← parse_header buffer
  reject (ltb (length buffer) (header_size + payload_len + crc_size)) premature_eof
  let expected = from_le_bytes (bytes_at buffer (header_size + payload_len) crc_size)
  let calculated = compute_crc32c (take (header_size + payload_len) buffer)
  reject (not (expected == calculated)) (checksum_mismatch expected calculated)
  ok (header, bytes_at buffer header_size payload_len)

-- What follows the first byte. (`read_exact` of an empty payload reads nothing, as the code, which
-- skips it, does.)
unfoldable pub read_frame_rest : ℕ → Source → Result FrameParseError (Option Frame × Source)
read_frame_rest first_byte s = do
  (others, s1) ← from_io_error (read_exact 19 s)
  let header_buf = first_byte ∷ others
  (header, payload_len) ← parse_header header_buf
  (payload, s2) ← from_io_error (read_exact payload_len s1)
  (crc_buf, s3) ← from_io_error (read_exact crc_size s2)
  let expected = from_le_bytes crc_buf
  let calculated = compute_crc32c (header_buf ++ payload)
  reject (not (expected == calculated)) (checksum_mismatch expected calculated)
  ok (some (record { header = header; payload = payload }), s3)

abbrev pub after_first :
    Result ErrorKind (Option ℕ × Source) → Result FrameParseError (Option Frame × Source)
after_first (ok (none, s)) = ok (none, s)
after_first (ok (some b, s)) = read_frame_rest b s
after_first (err e) = err (io e)

unfoldable pub read_frame : Source → Result FrameParseError (Option Frame × Source)
read_frame s = after_first (read_byte s)
