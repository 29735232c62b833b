-- ===== src/Protocol/Id.antt =====
-- shared/src/tcp_command_id.rs and tcp_command_payload_type.rs: the commands, the byte that stands
-- for each on the wire, and the kind of payload that follows it.
use facetime_v.Base.{ℕ, ◌+◌, ◌-◌, ◌%◌, if◌then◌else◌, ◌==◌, Result, ok, err, invalid_command_id}

pub data TcpCommandId : Type 0 where
  hello_from_client hello_from_server error_response get_user_list : TcpCommandId
  user_list get_room_list room_list create_room create_room_success : TcpCommandId
  delete_room delete_room_success join_room join_room_success : TcpCommandId
  leave_room other_user_joined_room other_user_left_room : TcpCommandId

pub data TcpCommandPayloadType : Type 0 where
  simple string bytes string_list : TcpCommandPayloadType

abbrev pub command_byte_offset : ℕ
command_byte_offset = 69

-- `*self as u8`: the variants are numbered in the order of their declaration.
unfoldable pub discriminant : TcpCommandId → ℕ
discriminant hello_from_client = 0
discriminant hello_from_server = 1
discriminant error_response = 2
discriminant get_user_list = 3
discriminant user_list = 4
discriminant get_room_list = 5
discriminant room_list = 6
discriminant create_room = 7
discriminant create_room_success = 8
discriminant delete_room = 9
discriminant delete_room_success = 10
discriminant join_room = 11
discriminant join_room_success = 12
discriminant leave_room = 13
discriminant other_user_joined_room = 14
discriminant other_user_left_room = 15

unfoldable pub to_byte : TcpCommandId → ℕ
unfolding discriminant
to_byte id = discriminant id + command_byte_offset

-- The arms `x if x == $name::$variant as u8 => Ok($name::$variant)` that the macro writes, in order.
unfoldable pub of_discriminant : ℕ → Result TcpCommandId
of_discriminant x =
    if x == 0
    then ok hello_from_client
    else if x == 1
    then ok hello_from_server
    else if x == 2
    then ok error_response
    else if x == 3
    then ok get_user_list
    else if x == 4
    then ok user_list
    else if x == 5
    then ok get_room_list
    else if x == 6
    then ok room_list
    else if x == 7
    then ok create_room
    else if x == 8
    then ok create_room_success
    else if x == 9
    then ok delete_room
    else if x == 10
    then ok delete_room_success
    else if x == 11
    then ok join_room
    else if x == 12
    then ok join_room_success
    else if x == 13
    then ok leave_room
    else if x == 14
    then ok other_user_joined_room
    else if x == 15
    then ok other_user_left_room
    else err invalid_command_id

-- `byte.wrapping_sub(COMMAND_BYTE_OFFSET)`.
unfoldable pub from_byte : ℕ → Result TcpCommandId
unfolding of_discriminant
from_byte byte = of_discriminant ((byte + 256 - command_byte_offset) % 256)

unfoldable pub get_payload_type : TcpCommandId → TcpCommandPayloadType
get_payload_type hello_from_server = simple
get_payload_type get_user_list = simple
get_payload_type get_room_list = simple
get_payload_type create_room_success = simple
get_payload_type create_room = string
get_payload_type delete_room_success = simple
get_payload_type leave_room = simple
get_payload_type hello_from_client = string
get_payload_type error_response = string
get_payload_type delete_room = string
get_payload_type join_room = string
get_payload_type user_list = string_list
get_payload_type room_list = string_list
get_payload_type join_room_success = bytes
get_payload_type other_user_joined_room = bytes
get_payload_type other_user_left_room = bytes
