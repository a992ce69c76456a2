-- ===== src/Ipc/Pipe.antt =====
-- The named pipes of crates/pigtree-ipc/src/pipe.rs: their name, and what a peek at the pending bytes
-- tells. The call of `PeekNamedPipe` is an argument: its answer, or the code of `GetLastError`.
pub mod Readiness
use pig_tree.Base.{
  ℕ, ◌+◌, Bool, false, ◌||◌, List, [], ◌++◌, ltb, ◌==◌, if◌then◌else◌, Result, ok, err,
}
use pig_tree.Base.Text.{Text, codes}
use pig_tree.Protocol.Io.{broken_pipe}
use pig_tree.Protocol.Frame.{FrameParseError, FrameHeader, header_size, crc_size, parse_header}
use pig_tree.Ipc.Session.{IpcError, io, protocol, win32}

unfoldable pub format_pipe_name : Text → Text
format_pipe_name session_id = codes "\\\\.\\pipe\\pigtree-engine-" ++ session_id

-- What `PeekNamedPipe` fills in: the buffer of twenty bytes, how many bytes it read into it, and how
-- many there are to read.
pub record Peeked : Type 0 where
  pub header_buf : List ℕ
  pub bytes_read : ℕ
  pub bytes_avail : ℕ

unfoldable pub is_broken : ℕ → Bool
is_broken code = (code == 109) || (code == 233)

unfoldable pub has_incoming_data : Result ℕ Peeked → Result IpcError Bool
unfolding is_broken
has_incoming_data (err code) =
    if is_broken code then ok false else err (win32 code (codes "PeekNamedPipe failed"))
has_incoming_data (ok peeked) = ok (ltb 0 peeked.bytes_avail)

pub data FrameReadiness : Type 0 where
  nothing partial complete : FrameReadiness

-- Of the header only the length is used once its checks have passed.
unfoldable pub readiness :
    ℕ → Result FrameParseError (FrameHeader × ℕ) → Result IpcError FrameReadiness
readiness bytes_avail (err e) = err (protocol e)
readiness bytes_avail (ok (header, payload_len)) =
    if ltb bytes_avail (header_size + payload_len + crc_size) then ok partial else ok complete

unfoldable pub peek_frame_readiness : Result ℕ Peeked → Result IpcError FrameReadiness
unfolding readiness is_broken
peek_frame_readiness (err code) =
    if is_broken code then err (io broken_pipe) else err (win32 code (codes "PeekNamedPipe failed"))
peek_frame_readiness (ok peeked) =
    if peeked.bytes_avail == 0
    then ok nothing
    else if ltb peeked.bytes_avail header_size
    then ok partial
    else if ltb peeked.bytes_read header_size
    then ok partial
    else readiness peeked.bytes_avail (parse_header peeked.header_buf)
