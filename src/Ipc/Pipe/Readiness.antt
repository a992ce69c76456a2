-- ===== src/Ipc/Pipe/Readiness.antt =====
-- What `peek_frame_readiness` of crates/pigtree-ipc/src/pipe.rs says of the bytes in the pipe is what
-- the decoder of frames would find.
use pig_tree.Base.{
  Bool, true, false, if◌then◌else◌, ℕ, zero, suc, ◌+◌, ◌-◌, ◌≤◌, ◌<◌, min, List, [], ◌∷◌, ◌++◌,
  length, take, drop, take-append-drop, length-take, ◌==◌, ◌≡◌, ◌≢◌, refl, sym, ap, ◌∙◌, arith, inl,
  inr, Result, ok, err, Result-cases, le→ltb, lt→ltb, dec_lt,
}
use pig_tree.Protocol.Frame.{
  FrameParseError, premature_eof, FrameHeader, header_size, crc_size, parse_header, decode_frame,
}
use pig_tree.Protocol.Frame.Stream.{parse_header-append, decode_frame-refused, decode_frame-short}
use pig_tree.Ipc.Session.{IpcError, protocol}
use pig_tree.Ipc.Pipe.{
  Peeked, FrameReadiness, nothing, partial, complete, readiness, peek_frame_readiness,
}

abbrev zeros : ℕ → List ℕ
zeros zero = []
zeros (suc n) = 0 ∷ zeros n

-- The documented answer of `PeekNamedPipe` on the bytes that wait in the pipe: the first of them, in
-- a buffer that was filled with zeros, and both counts.
abbrev pub peeked : List ℕ → Peeked
peeked q = record {
  header_buf = take header_size q ++ zeros (header_size - length q);
  bytes_read = min header_size (length q);
  bytes_avail = length q;
}

-- What each answer says of the decoder on the same bytes.
abbrev pub Agrees :
    Result IpcError FrameReadiness → Result FrameParseError (FrameHeader × List ℕ) → Type 0
Agrees (ok nothing) decoded = decoded ≡ err premature_eof
Agrees (ok partial) decoded = decoded ≡ err premature_eof
Agrees (ok complete) decoded = decoded ≢ err premature_eof
Agrees (err (protocol e)) decoded = decoded ≡ err e
Agrees (err _) decoded = ⊥

same_header :
    (q : List ℕ) → header_size ≤ length q → parse_header (peeked q).header_buf ≡ parse_header q
same_header q h =
    let full : length (take header_size q) ≡ header_size =
      omega (arith, length-take header_size q) in
    parse_header-append (take header_size q) (zeros (header_size - length q)) full
    ∙ sym (parse_header-append (take header_size q) (drop header_size q) full)
    ∙ ap parse_header (take-append-drop header_size q)

decode_frame-tiny : (q : List ℕ) → length q < header_size → decode_frame q ≡ err premature_eof
unfolding decode_frame
decode_frame-tiny q h = rw (lt→ltb (length q) header_size h) refl

decode_frame_complete :
    (q : List ℕ) (header : FrameHeader) (n : ℕ)
    → header_size + n + crc_size ≤ length q
    → parse_header q ≡ ok (header, n)
    → decode_frame q ≢ err premature_eof
unfolding decode_frame
decode_frame_complete q header n h parsed =
    rw
      (
        le→ltb (length q) header_size (omega arith),
        parsed,
        le→ltb (length q) (header_size + n + crc_size) h,
      )
      (λ e. ground arith)

-- By what the header says.
readiness-Agrees :
    (q : List ℕ)
    → header_size ≤ length q
    → Agrees (readiness (length q) (parse_header q)) (decode_frame q)
unfolding readiness
readiness-Agrees q h = elim (Result-cases (parse_header q)) [
  | inr (e, refused) ↦ rw refused (decode_frame-refused q e h refused)
  | inl ((header, n), parsed) ↦ elim (dec_lt (length q) (header_size + n + crc_size)) [
    | yes short ↦
        rw (parsed, lt→ltb (length q) (header_size + n + crc_size) short)
          (decode_frame-short q header n h parsed short)
    | no long ↦
        rw (parsed, le→ltb (length q) (header_size + n + crc_size) (omega arith))
          (decode_frame_complete q header n (omega arith) parsed)
  ]
]

tiny-Agrees : (b : Bool) → Agrees (if b then ok nothing else ok partial) (err premature_eof)
tiny-Agrees true = refl
tiny-Agrees false = refl

-- A peek at the bytes in the pipe says `complete` only if the decoder does not run out of them,
-- `nothing` or `partial` only if it does, and reports a malformed header with the decoder's error.
pub peek_frame_readiness-Agrees :
    (q : List ℕ) → Agrees (peek_frame_readiness (ok (peeked q))) (decode_frame q)
unfolding peek_frame_readiness
peek_frame_readiness-Agrees q = elim (dec_lt (length q) header_size) [
  | yes tiny ↦
      rw (lt→ltb (length q) header_size tiny, decode_frame-tiny q tiny)
        (tiny-Agrees (length q == 0))
  | no full ↦
      let filled : (length q == 0) ≡ false = ground arith in
      rw
        (
          filled,
          le→ltb (length q) header_size (omega arith),
          le→ltb (min header_size (length q)) header_size (omega arith),
          same_header q (omega arith),
        )
        (readiness-Agrees q (omega arith))
]
