-- ===== src/Tests/Sessions.antt =====
-- The framed session at concrete inputs.
use pig_tree.Base.{ℕ, ◌+◌, ◌≡◌, refl, List, [], ◌∷◌, ◌++◌, Option, some, none, ok, arith}
use pig_tree.Protocol.Io.{eof}
use pig_tree.Protocol.Frame.{command, encode_frame}
use pig_tree.Ipc.Session.{FramedSession, new, next_seq, send_message, recv_message}
use pig_tree.Ipc.Session.Order.{recv_message-send_message}

-- A message of one byte.
abbrev encode_byte : ℕ → List ℕ
encode_byte b = b ∷ []

abbrev decode_byte : List ℕ → Option ℕ
decode_byte (b ∷ []) = some b
decode_byte _ = none

abbrev client : FramedSession
client = new (record { bytes = []; end = eof })

abbrev after : FramedSession
after = (send_message encode_byte decode_byte command (record { bits = 0 }) 42 client).1

sent_first :
    send_message encode_byte decode_byte command (record { bits = 0 }) 42 client ≡ (ok 1, after)
unfolding send_message next_seq new encode_frame
sent_first = refl

recv_message-send_message_example :
    (1 ≡ client.sequence_number + 1)
    × (after.sequence_number ≡ client.sequence_number + 1)
    × ((bytes : List ℕ) × (after.outgoing ≡ client.outgoing ++ bytes)
        × (recv_message encode_byte decode_byte
              (record client { incoming = record { bytes = bytes ++ (7 ∷ []); end = eof } })
            ≡ ok (
              some (
                record {
                  channel_tag = command;
                  flags = record { bits = 0 };
                  sequence_number = client.sequence_number + 1;
                },
                42,
              ),
              record client { incoming = record { bytes = 7 ∷ []; end = eof } },
            )))
unfolding new
recv_message-send_message_example =
    recv_message-send_message encode_byte decode_byte (λ b. refl) command (record { bits = 0 }) 42
      client after client (7 ∷ []) eof 1 (omega arith) (omega arith) sent_first
