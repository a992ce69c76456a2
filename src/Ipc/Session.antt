-- ===== src/Ipc/Session.antt =====
-- `FramedSession` of crates/pigtree-ipc/src/transport.rs and the errors of
-- crates/pigtree-ipc/src/error.rs. The stream is a duplex stream in memory: what the peer has sent,
-- and what is written to the peer, whose writes do not fail.
pub mod Order
use pig_tree.Base.{ℕ, ◌+◌, Option, none, some, List, [], ◌++◌, Result, ok, err}
use pig_tree.Protocol.Io.{ErrorKind, Source}
use pig_tree.Protocol.Frame.{
  ChannelTag, FrameFlags, FrameHeader, Frame, FrameParseError, write_frame, read_frame,
}

-- A prost `DecodeError` is left without its contents.
pub data IpcError : Type 0 where
  io : ErrorKind → IpcError
  protocol : FrameParseError → IpcError
  protobuf : IpcError
  win32 : ℕ → List ℕ → IpcError
  authentication_failed : List ℕ → IpcError
  command_error identity_mismatch : List ℕ → List ℕ → IpcError
  session_not_found timeout cancelled : IpcError
  process_exited : ℕ → IpcError
  server_not_found : IpcError

pub record FramedSession : Type 0 where
  pub incoming : Source
  pub outgoing : List ℕ
  pub sequence_number : ℕ

unfoldable pub new : Source → FramedSession
new incoming = record { incoming = incoming; outgoing = []; sequence_number = 0 }

unfoldable pub next_seq : FramedSession → ℕ × FramedSession
next_seq s = let seq = s.sequence_number + 1 in (seq, record s { sequence_number = seq })

-- The end of `send_message`, by what `write_frame` answers.
abbrev pub sent :
    ℕ → FramedSession → Result FrameParseError (List ℕ) → Result IpcError ℕ × FramedSession
sent seq s (err e) = (err (protocol e), s)
sent seq s (ok out) = (ok seq, record s { outgoing = out })

-- `encode_to_vec` and `decode` are those of the message's type.
module _ {M : Type 0} (encode_to_vec : M → List ℕ) (decode : List ℕ → Option M) where
  unfoldable pub send_message :
      ChannelTag → FrameFlags → M → FramedSession → Result IpcError ℕ × FramedSession
  send_message channel flags msg s =
      let (seq, t) = next_seq s in
      let header : FrameHeader = record {
        channel_tag = channel;
        flags = flags;
        sequence_number = seq;
      } in
      sent seq t (write_frame header (encode_to_vec msg) t.outgoing)

  -- A frame whose payload is decoded or not.
  abbrev pub decoded :
      FrameHeader
      → Option M
      → FramedSession
      → Result IpcError (Option (FrameHeader × M) × FramedSession)
  decoded header none s = err protobuf
  decoded header (some msg) s = ok (some (header, msg), s)

  abbrev pub received :
      FramedSession
      → Result FrameParseError (Option Frame × Source)
      → Result IpcError (Option (FrameHeader × M) × FramedSession)
  received s (err e) = err (protocol e)
  received s (ok (none, source)) = ok (none, record s { incoming = source })
  received s (ok (some frame, source)) =
      decoded frame.header (decode frame.payload) (record s { incoming = source })

  unfoldable pub recv_message :
      FramedSession → Result IpcError (Option (FrameHeader × M) × FramedSession)
  recv_message s = received s (read_frame s.incoming)
