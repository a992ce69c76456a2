-- ===== src/Protocol/Frame/Layout.antt =====
-- Both decoders on input that is cut into header, payload, checksum and rest.
use pig_tree.Base.{ℕ, ◌+◌, ◌^◌, ◌≤◌, ◌<◌, ◌≡◌, refl, sym, ap, ◌∙◌, List, ◌++◌}
use pig_tree.Base.{
  append_assoc, not, length, length-append, take_exactly, drop_exactly, take, drop, arith,
}
use pig_tree.Base.{Result, ok, err, reject, ◌>>◌, ◌==◌, if◌then◌else◌, le→ltb}
use pig_tree.Base.Bytes.{from_le_bytes, from_le_bytes-to_le_bytes}
use pig_tree.Protocol.Crc32c.{compute_crc32c}
use pig_tree.Protocol.Frame.{
  header_size, crc_size, max_payload_size, ChannelTag, command, lossless_domain, progress_pulse,
  cancellation_heartbeat, tag_byte, FrameHeader, FrameParseError, checksum_mismatch, tag_from_u8,
  header_bytes, parse_header, decode_frame, bytes_at,
}

-- The flags are a byte and the sequence number a u64.
pub record IsHeader (header : FrameHeader) : Type 0 where
  pub flags_byte : header.flags.bits < 256
  pub sequence_u64 : header.sequence_number < 256 ^ 8

pub tag_from_u8-tag_byte : (t : ChannelTag) → tag_from_u8 (tag_byte t) ≡ ok t
unfolding tag_from_u8
tag_from_u8-tag_byte command = refl
tag_from_u8-tag_byte lossless_domain = refl
tag_from_u8-tag_byte progress_pulse = refl
tag_from_u8-tag_byte cancellation_heartbeat = refl

pub parse_header-header_bytes :
    (header : FrameHeader) (n : ℕ) (tail : List ℕ)
    → IsHeader header
    → n ≤ max_payload_size
    → parse_header (header_bytes header n ++ tail) ≡ ok (header, n)
unfolding parse_header
parse_header-header_bytes header n tail h hn = rw (
  tag_from_u8-tag_byte header.channel_tag,
  from_le_bytes-to_le_bytes 4 n (omega arith),
  from_le_bytes-to_le_bytes 8 header.sequence_number h.sequence_u64,
  le→ltb max_payload_size n hn,
)

-- What the decoders answer once the checksum in the input and the one of the bytes are known.
abbrev pub check : FrameHeader → List ℕ → ℕ → ℕ → Result FrameParseError (FrameHeader × List ℕ)
check header payload expected calculated =
    if expected == calculated
    then ok (header, payload)
    else err (checksum_mismatch expected calculated)

check-eq :
    (header : FrameHeader) (payload : List ℕ) (expected calculated : ℕ)
    → (reject (not (expected == calculated)) (checksum_mismatch expected calculated)
        >> ok (header, payload))
      ≡ check header payload expected calculated
check-eq header payload expected calculated = ground arith

module _ (hb body crc rest : List ℕ) (header : FrameHeader) (header_20 : length hb ≡ header_size)
    (crc_4 : length crc ≡ crc_size) where
  abbrev whole : List ℕ
  whole = hb ++ (body ++ (crc ++ rest))

  whole-length : length whole ≡ header_size + length body + crc_size + length rest
  whole-length = rw (length-append, length-append, length-append, header_20, crc_4) (omega arith)

  front-length : length (hb ++ body) ≡ header_size + length body
  front-length = rw (length-append, header_20)

  front-take : take (header_size + length body) whole ≡ hb ++ body
  front-take =
      ap (take (header_size + length body)) (sym (append_assoc hb body (crc ++ rest)))
      ∙ take_exactly _ (hb ++ body) (crc ++ rest) front-length

  crc-bytes_at : bytes_at whole (header_size + length body) crc_size ≡ crc
  crc-bytes_at =
      ap (λ (t : List ℕ). take crc_size (drop (header_size + length body) t))
        (sym (append_assoc hb body (crc ++ rest)))
      ∙ ap (take crc_size) (drop_exactly _ (hb ++ body) (crc ++ rest) front-length)
      ∙ take_exactly crc_size crc rest crc_4

  body-bytes_at : bytes_at whole header_size (length body) ≡ body
  body-bytes_at =
      ap (take (length body)) (drop_exactly header_size hb (body ++ (crc ++ rest)) header_20)
      ∙ take_exactly _ body (crc ++ rest) refl

  pub decode_frame-parts :
      parse_header whole ≡ ok (header, length body)
      → decode_frame whole ≡ check header body (from_le_bytes crc) (compute_crc32c (hb ++ body))
  unfolding decode_frame
  decode_frame-parts parsed =
      rw
        (
          le→ltb (length whole) header_size (omega (arith, whole-length)),
          parsed,
          le→ltb (length whole) (header_size + length body + crc_size)
              (omega (arith, whole-length)),
          crc-bytes_at,
          front-take,
          body-bytes_at,
        )
        (check-eq header body (from_le_bytes crc) (compute_crc32c (hb ++ body)))
