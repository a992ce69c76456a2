-- ===== src/Protocol/Frame/Stream.antt =====
-- The stream reader against the decoder of a buffer.
use pig_tree.Base.{
  ℕ, zero, suc, ◌+◌, ◌≤◌, ◌<◌, ◌≡◌, refl, sym, ap, ◌∙◌, Option, none, some, List, [], ◌∷◌, ◌++◌,
}
use pig_tree.Base.{
  append_assoc, not, length-take, length-drop, take-append-drop, reject, ◌>>=◌, ◌>>◌, Result-cases,
  subst, length, length-append, drop_exactly, take, drop, arith,
}
use pig_tree.Base.{
  Result, ok, err, ltb, ◌==◌, if◌then◌else◌, le→ltb, lt→ltb, ==_refl, Bool-cases, inl, inr,
}
use pig_tree.Base.Bytes.{to_le_bytes, from_le_bytes, from_le_bytes-to_le_bytes}
use pig_tree.Protocol.Crc32c.{compute_crc32c}
use pig_tree.Protocol.Crc32c.Detection.{compute_crc32c-lt}
use pig_tree.Protocol.Io.{
  read_exact, End, Source, eof, unexpected_eof, read_exact_from, read_exact_from-append,
}
use pig_tree.Protocol.Frame.{
  header_size, crc_size, FrameHeader, Frame, FrameParseError, checksum_mismatch, premature_eof,
  parse_header, encode_frame, decode_frame, read_frame, read_frame_rest, from_io_error,
}
use pig_tree.Protocol.Frame.Layout.{IsHeader, check, parse_header-header_bytes, decode_frame-parts}
use pig_tree.Protocol.Frame.RoundTrip.{front, encode_frame-ok, encode_frame-parts}

-- The decoders look at the first twenty bytes alone.
pub parse_header-append :
    (hb tail : List ℕ) → length hb ≡ header_size → parse_header (hb ++ tail) ≡ parse_header hb
unfolding parse_header
parse_header-append
      (a ∷ b ∷ c ∷ d ∷ e ∷ f ∷ g ∷ h ∷ i ∷ j ∷ k ∷ l ∷ m ∷ n ∷ o ∷ p ∷ q ∷ r ∷ s ∷ t ∷ []) tail
      len =
    refl
parse_header-append _ tail len = absurd (omega arith)

read_exact_from-eof :
    (n : ℕ) (bs : List ℕ)
    → read_exact_from eof n bs ≡ (
        if ltb (length bs) n
        then err unexpected_eof
        else ok (take n bs, record { bytes = drop n bs; end = eof }))
read_exact_from-eof zero bs = ground arith
read_exact_from-eof (suc n) [] = ground arith
read_exact_from-eof (suc n) (b ∷ bs) = ground (arith, read_exact_from-eof n bs)

-- `read_frame` takes exactly the frame that `encode_frame` wrote off the front of a stream, and leaves
-- what follows it.
pub read_frame-encode_frame :
    (header : FrameHeader) (payload rest : List ℕ) (end : End) {buffer : List ℕ}
    → IsHeader header
    → encode_frame header payload ≡ ok buffer
    → read_frame (record { bytes = buffer ++ rest; end = end })
      ≡ ok
          (some (record { header = header; payload = payload }), record { bytes = rest; end = end })
unfolding read_frame read_frame_rest
read_frame-encode_frame header payload rest end {buffer} h e =
    let small = encode_frame-ok header payload e in
    let crc = compute_crc32c (front header payload) in
    rw (
      encode_frame-parts header payload rest small e,
      parse_header-header_bytes header (length payload) [] h small,
      read_exact_from-append end payload (to_le_bytes 4 crc ++ rest),
      from_le_bytes-to_le_bytes 4 crc (compute_crc32c-lt (front header payload)),
      ==_refl crc,
    )

-- At a clean end of the stream, before any byte of a frame, there is no frame and no error.
read_frame-eof :
    read_frame (record { bytes = []; end = eof }) ≡ ok (none, record { bytes = []; end = eof })
unfolding read_frame
read_frame-eof = refl

-- A decoded buffer as the stream reader reports it.
abbrev pub as_read :
    List ℕ
    → Result FrameParseError (FrameHeader × List ℕ)
    → Result FrameParseError (Option Frame × Source)
as_read buffer (ok (header, payload)) = ok (
  some (record { header = header; payload = payload }),
  record { bytes = drop (header_size + length payload + crc_size) buffer; end = eof },
)
as_read buffer (err e) = err e

decode_frame-tiny :
    (buffer : List ℕ) → length buffer < header_size → decode_frame buffer ≡ err premature_eof
unfolding decode_frame
decode_frame-tiny buffer h = rw (lt→ltb (length buffer) header_size h)

pub decode_frame-refused :
    (buffer : List ℕ) (e : FrameParseError)
    → header_size ≤ length buffer
    → parse_header buffer ≡ err e
    → decode_frame buffer ≡ err e
unfolding decode_frame
decode_frame-refused buffer e h refused = rw (le→ltb (length buffer) header_size h, refused)

pub decode_frame-short :
    (buffer : List ℕ) (header : FrameHeader) (n : ℕ)
    → header_size ≤ length buffer
    → parse_header buffer ≡ ok (header, n)
    → length buffer < header_size + n + crc_size
    → decode_frame buffer ≡ err premature_eof
unfolding decode_frame
decode_frame-short buffer header n h parsed short = rw (
  le→ltb (length buffer) header_size h,
  parsed,
  lt→ltb (length buffer) (header_size + n + crc_size) short,
)

-- The rest of `read_frame` once the header is known, on a stream that ends with its bytes.
module _ (hb tail : List ℕ) (header : FrameHeader) (n : ℕ) (header_20 : length hb ≡ header_size)
    (parsed : parse_header hb ≡ ok (header, n)) where
  abbrev remaining : Result FrameParseError (Option Frame × Source)
  remaining = do
    (payload, s2) ← from_io_error (read_exact_from eof n tail)
    (crc_buf, s3) ← from_io_error (read_exact crc_size s2)
    let expected = from_le_bytes crc_buf
    let calculated = compute_crc32c (hb ++ payload)
    reject (not (expected == calculated)) (checksum_mismatch expected calculated)
    ok (some (record { header = header; payload = payload }), s3)

  parsed_whole : parse_header (hb ++ tail) ≡ ok (header, n)
  parsed_whole = parse_header-append hb tail header_20 ∙ parsed

  whole-length : length (hb ++ tail) ≡ header_size + length tail
  whole-length = length-append hb tail ∙ ap (λ (k : ℕ). k + length tail) header_20

  short_of : length tail < n + crc_size → decode_frame (hb ++ tail) ≡ err premature_eof
  short_of h =
      decode_frame-short (hb ++ tail) header n (omega (arith, whole-length)) parsed_whole
        (omega (arith, whole-length))

  abbrev body : List ℕ
  body = take n tail

  abbrev crc : List ℕ
  crc = take crc_size (drop n tail)

  abbrev rest : List ℕ
  rest = drop crc_size (drop n tail)

  cut : hb ++ (body ++ (crc ++ rest)) ≡ hb ++ tail
  cut =
      ap (λ (t : List ℕ). hb ++ t)
        (ap (λ (t : List ℕ). body ++ t) (take-append-drop crc_size (drop n tail))
          ∙ take-append-drop n tail)

  module _ (payload_fits : n ≤ length tail) (crc_fits : crc_size ≤ length (drop n tail)) where
    length-body : length body ≡ n
    length-body = omega (arith, length-take n tail)

    length-crc : length crc ≡ crc_size
    length-crc = omega (arith, length-take crc_size (drop n tail))

    left_over : drop (header_size + length body + crc_size) (hb ++ tail) ≡ rest
    left_over =
        ap (drop (header_size + length body + crc_size)) (
          sym cut
          ∙ sym (append_assoc hb body (crc ++ rest))
          ∙ sym (append_assoc (hb ++ body) crc rest))
        ∙ drop_exactly _ ((hb ++ body) ++ crc) rest (
            omega
              (arith, length-append (hb ++ body) crc, length-append hb body, length-crc, header_20))

    decoded :
        decode_frame (hb ++ tail)
        ≡ check header body (from_le_bytes crc) (compute_crc32c (hb ++ body))
    decoded =
        ap decode_frame (sym cut)
        ∙ decode_frame-parts hb body crc rest header header_20 length-crc
            (ap parse_header cut ∙ parsed_whole ∙ ap (λ (k : ℕ). ok (header, k)) (sym length-body))

    as_read-check :
        (expected calculated : ℕ)
        → (reject (not (expected == calculated)) (checksum_mismatch expected calculated)
            >> ok (
              some (record { header = header; payload = body }),
              record { bytes = rest; end = eof },
            ))
          ≡ as_read (hb ++ tail) (check header body expected calculated)
    as_read-check expected calculated = elim (Bool-cases (expected == calculated)) [
      | inl same ↦ rw (same, left_over)
      | inr differ ↦ rw differ
    ]

    complete : remaining ≡ as_read (hb ++ tail) (decode_frame (hb ++ tail))
    complete =
        rw
          (
            read_exact_from-eof n tail,
            le→ltb (length tail) n payload_fits,
            read_exact_from-eof crc_size (drop n tail),
            le→ltb (length (drop n tail)) crc_size crc_fits,
            decoded,
          )
          (as_read-check (from_le_bytes crc) (compute_crc32c (hb ++ body)))

  remaining-eq-decode_frame : remaining ≡ as_read (hb ++ tail) (decode_frame (hb ++ tail))
  remaining-eq-decode_frame = elim (Bool-cases (ltb (length tail) n)) [
    | inl no_payload ↦ rw (read_exact_from-eof n tail, no_payload, short_of (ground arith))
    | inr payload_fits ↦ elim (Bool-cases (ltb (length (drop n tail)) crc_size)) [
      | inl no_crc ↦ rw (
        read_exact_from-eof n tail,
        payload_fits,
        read_exact_from-eof crc_size (drop n tail),
        no_crc,
        short_of (ground (arith, length-drop n tail)),
      )
      | inr crc_fits ↦ complete (ground arith) (ground arith)
    ]
  ]

read_exact-cut :
    (k : ℕ) (front tail : List ℕ)
    → length front ≡ k
    → read_exact_from eof k (front ++ tail) ≡ ok (front, record { bytes = tail; end = eof })
read_exact-cut k front tail e = rw (← e) (read_exact_from-append eof front tail)

rest-short :
    (b : ℕ) (bs : List ℕ)
    → length bs < 19
    → read_frame_rest b (record { bytes = bs; end = eof }) ≡ err premature_eof
unfolding read_frame_rest
rest-short b bs h = rw (read_exact_from-eof 19 bs, lt→ltb (length bs) 19 h)

module _ (b : ℕ) (others tail : List ℕ) (len : length others ≡ 19) where
  abbrev rest_of_frame : Result FrameParseError (Option Frame × Source)
  rest_of_frame = read_frame_rest b (record { bytes = others ++ tail; end = eof })

  rest-refused : (e : FrameParseError) → parse_header (b ∷ others) ≡ err e → rest_of_frame ≡ err e
  unfolding read_frame_rest
  rest-refused e refused = rw (read_exact-cut 19 others tail len, refused)

  rest-parsed :
      (header : FrameHeader) (n : ℕ) (parsed : parse_header (b ∷ others) ≡ ok (header, n))
      → rest_of_frame ≡ remaining (b ∷ others) tail header n (ap suc len) parsed
  unfolding read_frame_rest
  rest-parsed header n parsed = rw (read_exact-cut 19 others tail len, parsed)

  rest-eq-decode_frame :
      rest_of_frame ≡ as_read (b ∷ (others ++ tail)) (decode_frame (b ∷ (others ++ tail)))
  rest-eq-decode_frame = elim (Result-cases (parse_header (b ∷ others))) [
    | inl ((header, n), parsed) ↦
        rest-parsed header n parsed
        ∙ remaining-eq-decode_frame (b ∷ others) tail header n (ap suc len) parsed
    | inr (e, refused) ↦
        rest-refused e refused
        ∙ ap (as_read (b ∷ (others ++ tail))) (
            sym (
              decode_frame-refused (b ∷ (others ++ tail)) e
                (omega (arith, length-append others tail))
                (parse_header-append (b ∷ others) tail (ap suc len) ∙ refused)))
  ]

-- On every input but the empty one, the stream reader answers what the decoder of a buffer answers,
-- errors included, and takes exactly the frame off the stream.
pub read_frame-eq-decode_frame :
    (b : ℕ) (bs : List ℕ)
    → read_frame (record { bytes = b ∷ bs; end = eof }) ≡ as_read (b ∷ bs) (decode_frame (b ∷ bs))
unfolding read_frame
read_frame-eq-decode_frame b bs = elim (Bool-cases (ltb (length bs) 19)) [
  | inl short ↦
      rest-short b bs (ground arith)
      ∙ ap (as_read (b ∷ bs)) (sym (decode_frame-tiny (b ∷ bs) (ground arith)))
  | inr enough ↦
      subst
        (λ (t : List ℕ).
          read_frame_rest b (record { bytes = t; end = eof })
          ≡ as_read (b ∷ t) (decode_frame (b ∷ t)))
        (take-append-drop 19 bs)
        (rest-eq-decode_frame b (take 19 bs) (drop 19 bs) (ground (arith, length-take 19 bs)))
]
