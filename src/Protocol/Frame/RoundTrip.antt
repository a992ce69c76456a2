-- ===== src/Protocol/Frame/RoundTrip.antt =====
-- What `encode_frame` writes, both decoders read back; a corrupted payload is refused.
use pig_tree.Base.{ℕ, ◌+◌, ◌^◌, ◌≤◌, ◌<◌, ◌≡◌, ◌≢◌, refl, sym, ap, ◌∙◌, List, [], ◌∷◌, ◌++◌}
use pig_tree.Base.{
  append_assoc, append-nil, subst, set, set-append, All-append, length, length-append, arith, All,
}
use pig_tree.Base.{Result, ok, err, ltb, le→ltb, ==_refl, Bool-cases, inl, inr}
use pig_tree.Base.Bytes.{IsByte, to_le_bytes, from_le_bytes, from_le_bytes-to_le_bytes}
use pig_tree.Protocol.Crc32c.{compute_crc32c}
use pig_tree.Protocol.Crc32c.Detection.{compute_crc32c-lt, compute_crc32c-detects}
use pig_tree.Protocol.Frame.{
  header_size, max_payload_size, FrameHeader, FrameParseError, checksum_mismatch, header_bytes,
  encode_frame, decode_frame,
}
use pig_tree.Protocol.Frame.Layout.{IsHeader, check, parse_header-header_bytes, decode_frame-parts}

abbrev pub front : FrameHeader → List ℕ → List ℕ
front header payload = header_bytes header (length payload) ++ payload

-- The frame that `encode_frame` builds, bracketed as the decoders cut it.
abbrev pub frame_bytes : FrameHeader → List ℕ → List ℕ → List ℕ
frame_bytes header payload rest =
    header_bytes header (length payload)
    ++ (payload ++ (to_le_bytes 4 (compute_crc32c (front header payload)) ++ rest))

pub encode_frame-fits :
    (header : FrameHeader) (payload : List ℕ)
    → length payload ≤ max_payload_size
    → encode_frame header payload
      ≡ ok (front header payload ++ to_le_bytes 4 (compute_crc32c (front header payload)))
unfolding encode_frame
encode_frame-fits header payload h = rw (le→ltb max_payload_size (length payload) h)

pub encode_frame-parts :
    (header : FrameHeader) (payload rest : List ℕ) {buffer : List ℕ}
    → length payload ≤ max_payload_size
    → encode_frame header payload ≡ ok buffer
    → buffer ++ rest ≡ frame_bytes header payload rest
encode_frame-parts header payload rest h e =
    ap (λ (t : List ℕ). t ++ rest) (ok_eq (sym e ∙ encode_frame-fits header payload h))
    ∙ append_assoc (front header payload) (to_le_bytes 4 (compute_crc32c (front header payload)))
        rest
    ∙ append_assoc (header_bytes header (length payload)) payload _
  where
    ok_eq : {a b : List ℕ} → ◌≡◌ {A = Result FrameParseError (List ℕ)} (ok a) (ok b) → a ≡ b
    ok_eq e = cc

-- `encode_frame` succeeds exactly on a payload within the limit.
pub encode_frame-ok :
    (header : FrameHeader) (payload : List ℕ) {buffer : List ℕ}
    → encode_frame header payload ≡ ok buffer
    → length payload ≤ max_payload_size
unfolding encode_frame
encode_frame-ok header payload e = elim (Bool-cases (ltb max_payload_size (length payload))) [
  | inl large ↦ cc (rw large at e)
  | inr small ↦ ground arith
]

crc_back :
    (input : List ℕ) → from_le_bytes (to_le_bytes 4 (compute_crc32c input)) ≡ compute_crc32c input
crc_back input = from_le_bytes-to_le_bytes 4 _ (compute_crc32c-lt input)

-- What `encode_frame` returns, `decode_frame` reads back, whatever stands behind it in the buffer;
-- the frame is 24 bytes longer than the payload.
pub decode_frame-encode_frame :
    (header : FrameHeader) (payload rest : List ℕ) {buffer : List ℕ}
    → IsHeader header
    → encode_frame header payload ≡ ok buffer
    → (decode_frame (buffer ++ rest) ≡ ok (header, payload)) × (length buffer ≡ length payload + 24)
decode_frame-encode_frame header payload rest {buffer} h e =
    let small = encode_frame-ok header payload e in
    let parsed =
      parse_header-header_bytes header (length payload)
        (payload ++ (to_le_bytes 4 (compute_crc32c (front header payload)) ++ rest)) h small in
    (
      rw (encode_frame-parts header payload rest small e) (
          decode_frame-parts (header_bytes header (length payload)) payload
            (to_le_bytes 4 (compute_crc32c (front header payload))) rest header refl refl parsed
          ∙ rw (crc_back (front header payload), ==_refl (compute_crc32c (front header payload)))),
      omega (
        arith,
        ap length (encode_frame-parts header payload rest small e),
        length-append buffer rest,
        length-append payload (to_le_bytes 4 (compute_crc32c (front header payload)) ++ rest),
      ),
    )

header_bytes-IsByte :
    (header : FrameHeader) (n : ℕ) → IsHeader header → All IsByte (header_bytes header n)
header_bytes-IsByte header n h = ground arith

pub decode_frame-tampered :
    (header : FrameHeader) (body : List ℕ) (crc : ℕ)
    → IsHeader header
    → length body ≤ max_payload_size
    → crc < 256 ^ 4
    → crc ≢ compute_crc32c (front header body)
    → decode_frame (header_bytes header (length body) ++ (body ++ (to_le_bytes 4 crc ++ [])))
      ≡ err (checksum_mismatch crc (compute_crc32c (front header body)))
decode_frame-tampered header body crc h small fits ne =
    let tail = to_le_bytes 4 crc ++ [] in
    decode_frame-parts (header_bytes header (length body)) body (to_le_bytes 4 crc) [] header refl
      refl (parse_header-header_bytes header (length body) (body ++ tail) h small)
    ∙ rw (from_le_bytes-to_le_bytes 4 crc fits)
        (differs crc (compute_crc32c (front header body)) ne)
  where
    differs : (a b : ℕ) → a ≢ b → check header body a b ≡ err (checksum_mismatch a b)
    differs a b ne = ground arith

fronts_differ :
    (header : FrameHeader) (before after : List ℕ) (x y : ℕ)
    → IsHeader header
    → All IsByte before
    → All IsByte after
    → IsByte x
    → IsByte y
    → x ≢ y
    → compute_crc32c (front header (before ++ (x ∷ after)))
      ≢ compute_crc32c (front header (before ++ (y ∷ after)))
fronts_differ header before after x y h hb ha hx hy ne e =
    let n = length (before ++ (x ∷ after)) in
    let head = header_bytes header n in
    let same : length (before ++ (y ∷ after)) ≡ n =
      length-append before (y ∷ after) ∙ sym (length-append before (x ∷ after)) in
    let got : front header (before ++ (y ∷ after)) ≡ (head ++ before) ++ (y ∷ after) =
      ap (λ (t : ℕ). header_bytes header t ++ (before ++ (y ∷ after))) same
      ∙ sym (append_assoc head before (y ∷ after)) in
    compute_crc32c-detects (head ++ before) after x y
      (All-append IsByte head before (header_bytes-IsByte header n h) hb) ha hx hy ne
      (ap compute_crc32c (append_assoc head before (x ∷ after)) ∙ e ∙ ap compute_crc32c got)

-- A byte of the payload that is changed on the way is noticed: `decode_frame` answers that the
-- checksum does not match.
pub decode_frame-corrupted :
    (header : FrameHeader) (before after : List ℕ) (x y : ℕ) {buffer : List ℕ}
    → IsHeader header
    → All IsByte before
    → All IsByte after
    → IsByte x
    → IsByte y
    → x ≢ y
    → encode_frame header (before ++ (x ∷ after)) ≡ ok buffer
    → decode_frame (set buffer (header_size + length before) y)
      ≡ err (
          checksum_mismatch
            (compute_crc32c (front header (before ++ (x ∷ after))))
            (compute_crc32c (front header (before ++ (y ∷ after)))))
decode_frame-corrupted header before after x y {buffer} h hb ha hx hy ne e =
    let sent = before ++ (x ∷ after) in
    let got = before ++ (y ∷ after) in
    let small = encode_frame-ok header sent e in
    let same : length sent ≡ length got =
      length-append before (x ∷ after) ∙ sym (length-append before (y ∷ after)) in
    let crc = compute_crc32c (front header sent) in
    let head = header_bytes header (length sent) in
    let tail = to_le_bytes 4 crc ++ [] in
    let whole : buffer ≡ (head ++ before) ++ (x ∷ (after ++ tail)) =
      sym (append-nil buffer)
      ∙ encode_frame-parts header sent [] small e
      ∙ ap (λ (t : List ℕ). head ++ t) (append_assoc before (x ∷ after) tail) in
    let changed : set buffer (header_size + length before) y
        ≡ header_bytes header (length got) ++ (got ++ tail) =
      ap (λ (t : List ℕ). set t (header_size + length before) y) whole
      ∙ set-append (header_size + length before) (head ++ before) (after ++ tail) x y (omega arith)
      ∙ append_assoc head before (y ∷ (after ++ tail))
      ∙ ap (λ (t : List ℕ). head ++ t) (sym (append_assoc before (y ∷ after) tail))
      ∙ ap (λ (t : ℕ). header_bytes header t ++ (got ++ tail)) same in
    ap decode_frame changed
    ∙ decode_frame-tampered header got crc h (subst (λ (t : ℕ). t ≤ max_payload_size) same small)
        (compute_crc32c-lt (front header sent))
        (fronts_differ header before after x y h hb ha hx hy ne)
