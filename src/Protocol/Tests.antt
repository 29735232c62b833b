-- ===== src/Protocol/Tests.antt =====
-- The control protocol at concrete commands.
use facetime_v.Base.{Bytes, [], arith, ok, refl, text, ◌++◌, ◌↔◌, ◌∷◌, ◌≡◌, ◌≤◌}
use facetime_v.Protocol.Id.{
  to_byte, from_byte, get_payload_type, create_room, room_list, join_room_success,
}
use facetime_v.Protocol.Utf8.{from_utf8}
use facetime_v.Protocol.Bytes.{from_byte-to_byte, from_byte-eq-ok}
use facetime_v.Protocol.RoundTrip.{Fits, read-encode, encode-Fits}
use facetime_v.Protocol.Reader.{Consumed, encode-read}
use facetime_v.Protocol.Command.{TcpCommand, string_list, command, encode, read_from_stream}

-- The rooms "den" and "lab".
abbrev two_rooms : TcpCommand
two_rooms = string_list room_list (text "den" ∷ text "lab" ∷ [])

abbrev two_rooms_bytes : Bytes
two_rooms_bytes = 75 ∷ 2 ∷ 3 ∷ 100 ∷ 101 ∷ 110 ∷ 3 ∷ 108 ∷ 97 ∷ 98 ∷ []

encode-two_rooms : encode two_rooms ≡ ok two_rooms_bytes
unfolding encode
encode-two_rooms = refl

read_from_stream-two_rooms :
    read_from_stream (two_rooms_bytes ++ (9 ∷ [])) ≡ ok (command two_rooms, 9 ∷ [])
unfolding read_from_stream
read_from_stream-two_rooms = refl

read-encode_example :
    read_from_stream (two_rooms_bytes ++ (9 ∷ [])) ≡ ok (command two_rooms, 9 ∷ [])
read-encode_example =
    read-encode two_rooms two_rooms_bytes (9 ∷ [])
      (unfold get_payload_type from_utf8 in (refl, (refl, (refl, tt)))) encode-two_rooms

encode-Fits_example : ((b : Bytes) × (encode two_rooms ≡ ok b)) ↔ Fits two_rooms
encode-Fits_example = encode-Fits two_rooms

encode-read_example : Consumed two_rooms (two_rooms_bytes ++ (9 ∷ [])) (9 ∷ [])
encode-read_example =
    encode-read (two_rooms_bytes ++ (9 ∷ [])) two_rooms (9 ∷ []) (ground arith)
      read_from_stream-two_rooms

from_byte-to_byte_example :
    (from_byte (to_byte create_room) ≡ ok create_room)
    × (69 ≤ to_byte create_room)
    × (to_byte create_room ≤ 84)
from_byte-to_byte_example = from_byte-to_byte create_room

from_byte-eq-ok_example : to_byte join_room_success ≡ 81
from_byte-eq-ok_example =
    from_byte-eq-ok 81 join_room_success (omega arith) (unfold from_byte in refl)
