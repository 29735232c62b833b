-- ===== src/Protocol/Command.antt =====
-- shared/src/tcp_command.rs and received_tcp_command.rs: writing a command to a stream and reading
-- one. A stream that is read is the bytes that are still to come before its end; the reader returns
-- those that it leaves. A stream that is written to holds the bytes written; its peer may be gone,
-- and then a write fails.
use facetime_v.Base.{
  Bool, Bytes, List, Result, [], bytes_too_large, drop, err, guard, if◌then◌else◌, leb, length, ltb,
  ok, string_in_list_too_large, string_list_too_large, string_too_large, suc, take, true,
  unexpected_eof, write_failed, zero, ℕ, ◌++◌, ◌>>=◌, ◌>>◌, ◌∷◌,
}
use facetime_v.Protocol.Id.{
  TcpCommandId, TcpCommandPayloadType, to_byte, from_byte, get_payload_type,
}
use facetime_v.Protocol.Utf8.{from_utf8}

pub data TcpCommand : Type 0 where
  simple : TcpCommandId → TcpCommand
  string : TcpCommandId → Bytes → TcpCommand
  bytes : TcpCommandId → Bytes → TcpCommand
  string_list : TcpCommandId → List Bytes → TcpCommand

pub data ReceivedTcpCommand : Type 0 where
  eof : ReceivedTcpCommand
  command : TcpCommand → ReceivedTcpCommand

abbrev pub u8_max : ℕ
u8_max = 255

-- The loop over the strings of a list.
unfoldable pub encode_strings : List Bytes → Result Bytes
encode_strings [] = ok []
encode_strings (str ∷ rest) = do
  guard (leb (length str) u8_max) string_in_list_too_large
  tail ← encode_strings rest
  ok (length str ∷ str ++ tail)

-- The bytes that `write_to_stream` hands to `write_all`, or its own error.
unfoldable pub encode : TcpCommand → Result Bytes
unfolding encode_strings to_byte
encode (simple id) = ok (to_byte id ∷ [])
encode (string id payload) =
    if ltb u8_max (length payload)
    then err string_too_large
    else ok (to_byte id ∷ length payload ∷ payload)
encode (bytes id payload) =
    if ltb u8_max (length payload)
    then err bytes_too_large
    else ok (to_byte id ∷ length payload ∷ payload)
encode (string_list id payload) =
    if ltb u8_max (length payload)
    then err string_list_too_large
    else do strings ← encode_strings payload; ok (to_byte id ∷ length payload ∷ strings)

-- A peer that takes all that is written.
abbrev pub all_read : Bytes → Bool
all_read content = true

-- What has been written, and how much the peer takes: a write succeeds if the peer takes all that has
-- then been written, so one may fail after others have succeeded.
pub record Stream : Type 0 where
  pub written : Bytes
  pub peer_reads : Bytes → Bool

unfoldable pub write_all : Bytes → Stream → Result Stream
write_all buf stream =
    if stream.peer_reads (stream.written ++ buf)
    then ok (record stream { written = stream.written ++ buf })
    else err write_failed

unfoldable pub write_to_stream : TcpCommand → Stream → Result Stream
unfolding encode write_all
write_to_stream cmd stream = do buf ← encode cmd; write_all buf stream

-- `stream.read_exact` into a buffer of `n` bytes.
unfoldable pub read_exact : ℕ → Bytes → Result (Bytes × Bytes)
read_exact n stream =
    if leb n (length stream) then ok (take n stream, drop n stream) else err unexpected_eof

-- The length byte, and as many bytes behind it.
unfoldable pub read_block : Bytes → Result (Bytes × Bytes)
unfolding read_exact
read_block [] = err unexpected_eof
read_block (len ∷ rest) = read_exact len rest

unfoldable pub read_string : Bytes → Result (Bytes × Bytes)
unfolding read_block from_utf8
read_string stream = do (buf, rest) ← read_block stream; s ← from_utf8 buf; ok (s, rest)

-- `for _ in 0..list_len`.
unfoldable pub read_strings : ℕ → Bytes → Result (List Bytes × Bytes)
unfolding read_string
read_strings zero stream = ok ([], stream)
read_strings (suc n) stream = do
  (s, rest) ← read_string stream
  (ss, rest') ← read_strings n rest
  ok (s ∷ ss, rest')

unfoldable pub read_string_list : Bytes → Result (List Bytes × Bytes)
unfolding read_strings
read_string_list [] = err unexpected_eof
read_string_list (list_len ∷ rest) = read_strings list_len rest

-- The match on the payload type.
unfoldable pub read_payload :
    TcpCommandPayloadType → TcpCommandId → Bytes → Result (TcpCommand × Bytes)
unfolding read_string read_block read_string_list
read_payload TcpCommandPayloadType.simple id stream = ok (simple id, stream)
read_payload TcpCommandPayloadType.string id stream = do
  (payload, rest) ← read_string stream
  ok (string id payload, rest)
read_payload TcpCommandPayloadType.bytes id stream = do
  (payload, rest) ← read_block stream
  ok (bytes id payload, rest)
read_payload TcpCommandPayloadType.string_list id stream = do
  (payload, rest) ← read_string_list stream
  ok (string_list id payload, rest)

unfoldable pub read_from_stream : Bytes → Result (ReceivedTcpCommand × Bytes)
unfolding read_payload from_byte get_payload_type
read_from_stream [] = ok (eof, [])
read_from_stream (first_byte ∷ rest) = do
  id ← from_byte first_byte
  (cmd, rest') ← read_payload (get_payload_type id) id rest
  ok (command cmd, rest')
