-- ===== src/Ipc/Session/Order.antt =====
-- Messages that one end sends and the other end receives.
use pig_tree.Base.{
  ℕ, ◌+◌, ◌^◌, ◌<◌, ◌≡◌, ◌≢◌, refl, sym, ap, Option, some, List, ◌++◌, Result, ok, err,
}
use pig_tree.Protocol.Io.{End}
use pig_tree.Protocol.Frame.{
  ChannelTag, FrameFlags, FrameHeader, FrameParseError, encode_frame, written,
}
use pig_tree.Protocol.Frame.Layout.{IsHeader}
use pig_tree.Protocol.Frame.Stream.{read_frame-encode_frame}
use pig_tree.Ipc.Session.{
  IpcError, protocol, FramedSession, next_seq, sent, send_message, recv_message,
}

ok-ne : (e : IpcError) (n : ℕ) → Result.err e ≢ ok n
ok-ne e n h = cc

number_of : {a b : ℕ} → ◌≡◌ {A = Result IpcError ℕ} (ok a) (ok b) → b ≡ a
number_of h = cc

-- What `send_message` leaves when the frame is encoded, or not.
sent-ok :
    (seq n : ℕ) (s t : FramedSession) (out : List ℕ) (r : Result FrameParseError (List ℕ))
    → sent n s (written out r) ≡ (ok seq, t)
    → (seq ≡ n)
      × (t.sequence_number ≡ s.sequence_number)
      × ((bytes : List ℕ) × (r ≡ ok bytes) × (t.outgoing ≡ out ++ bytes))
sent-ok seq n s t out (err e) run =
    absurd (ok-ne (protocol e) seq (ap (λ (p : Result IpcError ℕ × FramedSession). p.0) run))
sent-ok seq n s t out (ok bytes) run = (
  number_of (ap (λ (p : Result IpcError ℕ × FramedSession). p.0) run),
  ap (λ (p : Result IpcError ℕ × FramedSession). p.1.sequence_number) (sym run),
  (bytes, refl, ap (λ (p : Result IpcError ℕ × FramedSession). p.1.outgoing) (sym run)),
)

module _ {M : Type 0} (encode_to_vec : M → List ℕ) (decode : List ℕ → Option M)
    (decode-encode : (m : M) → decode (encode_to_vec m) ≡ some m) where
  -- A frame of a message, at the front of the stream of the peer, is received as the message.
  recv-frame :
      (header : FrameHeader) (msg : M) (peer : FramedSession) (bytes rest : List ℕ) (end : End)
      → IsHeader header
      → encode_frame header (encode_to_vec msg) ≡ ok bytes
      → recv_message encode_to_vec decode
          (record peer { incoming = record { bytes = bytes ++ rest; end = end } })
        ≡ ok (some (header, msg), record peer { incoming = record { bytes = rest; end = end } })
  unfolding recv_message
  recv-frame header msg peer bytes rest end h e =
      rw (read_frame-encode_frame header (encode_to_vec msg) rest end h e, decode-encode msg)

  -- When a message is sent, under a number that fits a `u64` and with a byte of flags, it takes the
  -- next number and appends bytes; a peer whose stream starts with those bytes receives the message
  -- with its channel, flags and number, and is left with the rest. (`decode` undoes `encode_to_vec`.)
  pub recv_message-send_message :
      (channel : ChannelTag) (flags : FrameFlags) (msg : M) (s t peer : FramedSession)
      (rest : List ℕ) (end : End) (seq : ℕ)
      → flags.bits < 256
      → s.sequence_number + 1 < 256 ^ 8
      → send_message encode_to_vec decode channel flags msg s ≡ (ok seq, t)
      → (seq ≡ s.sequence_number + 1)
        × (t.sequence_number ≡ s.sequence_number + 1)
        × ((bytes : List ℕ) × (t.outgoing ≡ s.outgoing ++ bytes)
            × (recv_message encode_to_vec decode
                  (record peer { incoming = record { bytes = bytes ++ rest; end = end } })
                ≡ ok (
                  some (
                    record {
                      channel_tag = channel;
                      flags = flags;
                      sequence_number = s.sequence_number + 1;
                    },
                    msg,
                  ),
                  record peer { incoming = record { bytes = rest; end = end } },
                )))
  unfolding send_message next_seq
  recv_message-send_message channel flags msg s t peer rest end seq byte room run =
      let n = s.sequence_number + 1 in
      let header : FrameHeader = record {
        channel_tag = channel;
        flags = flags;
        sequence_number = n;
      } in
      let (same, number, (bytes, encoded, appended)) =
        sent-ok seq n (record s { sequence_number = n }) t s.outgoing
          (encode_frame header (encode_to_vec msg)) run in
      (
        same,
        number,
        (
          bytes,
          appended,
          recv-frame header msg peer bytes rest end
              (record { flags_byte = byte; sequence_u64 = room }) encoded,
        ),
      )
