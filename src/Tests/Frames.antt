-- ===== src/Tests/Frames.antt =====
-- Frames and checksums at concrete inputs.
use pig_tree.Base.{
  ℕ, ◌+◌, ◌-◌, ◌≡◌, ◌≢◌, refl, List, [], ◌∷◌, ◌++◌, length, set, some, ok, err, arith,
}
use pig_tree.Base.Bytes.{to_le_bytes}
use pig_tree.Protocol.Io.{eof}
use pig_tree.Protocol.Crc32c.{
  compute_crc32c, max_u32, update, update_all, crc32c_table, table_from, shift_bits, shift_bit,
}
use pig_tree.Protocol.Crc32c.Reference.{divide, compute_crc32c-eq-divide}
use pig_tree.Protocol.Crc32c.Detection.{compute_crc32c-detects}
use pig_tree.Protocol.Frame.{
  lossless_domain, FrameHeader, header_size, checksum_mismatch, encode_frame, decode_frame,
  read_frame,
}
use pig_tree.Protocol.Frame.Layout.{IsHeader}
use pig_tree.Protocol.Frame.RoundTrip.{
  front, encode_frame-fits, decode_frame-encode_frame, decode_frame-corrupted,
}
use pig_tree.Protocol.Frame.Stream.{as_read, read_frame-encode_frame, read_frame-eq-decode_frame}

abbrev header : FrameHeader
header = record { channel_tag = lossless_domain; flags = record { bits = 1 }; sequence_number = 7 }

header-IsHeader : IsHeader header
header-IsHeader = record { flags_byte = omega arith; sequence_u64 = omega arith }

abbrev payload : List ℕ
payload = 1 ∷ 2 ∷ []

abbrev sent : List ℕ
sent = front header payload ++ to_le_bytes 4 (compute_crc32c (front header payload))

encoded : encode_frame header payload ≡ ok sent
encoded = encode_frame-fits header payload (omega arith)

decode_frame-encode_frame_example :
    (decode_frame (sent ++ (9 ∷ [])) ≡ ok (header, payload)) × (length sent ≡ length payload + 24)
decode_frame-encode_frame_example =
    decode_frame-encode_frame header payload (9 ∷ []) header-IsHeader encoded

decode_frame-corrupted_example :
    decode_frame (set sent (header_size + 1) 3)
    ≡ err (
        checksum_mismatch
          (compute_crc32c (front header (1 ∷ 2 ∷ [])))
          (compute_crc32c (front header (1 ∷ 3 ∷ []))))
decode_frame-corrupted_example =
    decode_frame-corrupted header (1 ∷ []) [] 2 3 header-IsHeader (omega arith, tt) tt (omega arith)
      (omega arith) (λ e. omega arith) encoded

read_frame-encode_frame_example :
    read_frame (record { bytes = sent ++ (9 ∷ []); end = eof })
    ≡ ok
        (some (record { header = header; payload = payload }), record { bytes = 9 ∷ []; end = eof })
read_frame-encode_frame_example =
    read_frame-encode_frame header payload (9 ∷ []) eof header-IsHeader encoded

read_frame-eq-decode_frame_example :
    read_frame (record { bytes = 0x50 ∷ 0x54 ∷ []; end = eof })
    ≡ as_read (0x50 ∷ 0x54 ∷ []) (decode_frame (0x50 ∷ 0x54 ∷ []))
read_frame-eq-decode_frame_example = read_frame-eq-decode_frame 0x50 (0x54 ∷ [])

compute_crc32c-eq-divide_example :
    compute_crc32c (1 ∷ 255 ∷ []) ≡ max_u32 - divide max_u32 (1 ∷ 255 ∷ [])
compute_crc32c-eq-divide_example =
    compute_crc32c-eq-divide (1 ∷ 255 ∷ []) (omega arith, (omega arith, tt))

compute_crc32c-detects_example : compute_crc32c (1 ∷ 2 ∷ 3 ∷ []) ≢ compute_crc32c (1 ∷ 4 ∷ 3 ∷ [])
compute_crc32c-detects_example =
    compute_crc32c-detects (1 ∷ []) (3 ∷ []) 2 4 (omega arith, tt) (omega arith, tt) (omega arith)
      (omega arith) (λ e. omega arith)

-- The checksum of the nine digits, the check value of CRC-32C.
check_value : compute_crc32c (49 ∷ 50 ∷ 51 ∷ 52 ∷ 53 ∷ 54 ∷ 55 ∷ 56 ∷ 57 ∷ []) ≡ 0xe306_9283
unfolding compute_crc32c update_all update crc32c_table table_from shift_bits shift_bit
check_value = refl
