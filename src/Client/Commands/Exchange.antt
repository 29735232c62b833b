-- ===== src/Client/Commands/Exchange.antt =====
-- pre_call_interface.rs and the handshake of client.rs: the requests that a client makes before a
-- call, and the loop over the typed lines. Each takes the bytes that are still to come from the
-- server, and keeps what it prints. A read that fails ends the program, so what it leaves in the
-- stream does not matter.
use facetime_v.Base.{
  Bool, Bytes, List, Option, [], bytes_instance, custom, err, if◌then◌else◌, length, map,
  nat_instance, none, not, ok, same, some, text, ℕ, ◌++◌, ◌+◌, ◌==◌, ◌∷◌,
}
use facetime_v.Base.Exec.{Exec, pure, fail, gets, ◌>>=◌, ◌>>◌}
use facetime_v.Protocol.Id.{
  hello_from_client, hello_from_server, error_response, get_user_list, user_list, get_room_list,
  room_list, create_room_success, delete_room_success, join_room_success,
}
use facetime_v.Protocol.Id.{TcpCommandId}
use facetime_v.Protocol.Names.{id_len}
use facetime_v.Protocol.Command.{
  TcpCommand, ReceivedTcpCommand, eof, command, simple, string, bytes, string_list, Stream,
  write_to_stream, read_from_stream,
}
use facetime_v.Client.Camera.{ℤ, parse_i32, list_available_cameras, is_valid_camera_name, i32_text}
use facetime_v.Client.Display.{
  print_user_list, print_room_list, print_camera_list, print_command_help,
}
use facetime_v.Client.Commands.Typed.{
  Typed, nothing, help, list_users, list_rooms, list_cameras, unknown, usage, create, delete, join,
  switch, typed, trim,
}

-- A line on the standard output, one on the standard error, and the prompt.
pub data Shown : Type 0 where
  out note : Bytes → Shown
  prompt : Shown

pub record Client : Type 0 where
  pub tcp : Stream
  pub incoming : Bytes
  pub camera_index : ℤ
  pub shown : List Shown

abbrev pub ClientAction : Type 0 → Type 0
ClientAction A = Exec Client A

unfoldable pub write_command : TcpCommand → ClientAction Unit
unfolding write_to_stream
write_command cmd c = elim (write_to_stream cmd c.tcp) [
  | ok tcp ↦ (ok tt, record c { tcp = tcp })
  | err e ↦ (err e, c)
]

unfoldable pub read : ClientAction ReceivedTcpCommand
unfolding read_from_stream
read c = elim (read_from_stream c.incoming) [
  | ok (received, rest) ↦ (ok received, record c { incoming = rest })
  | err e ↦ (err e, c)
]

unfoldable pub show : List Shown → ClientAction Unit
show lines c = (ok tt, record c { shown = c.shown ++ lines })

abbrev pub expect_command : Bytes → ReceivedTcpCommand → ClientAction TcpCommand
expect_command during eof = fail (custom (text "Unexpected EOF from server during " ++ during))
expect_command during (command cmd) = pure cmd

-- The request, and the command that answers it.
unfoldable pub ask : Bytes → TcpCommand → ClientAction TcpCommand
unfolding write_command read
ask during cmd = do write_command cmd; received ← read; expect_command during received

abbrev pub invalid_command : {A : Type 0} → Bytes → ClientAction A
invalid_command during = fail (custom (text "Invalid command from server during " ++ during))

unfoldable pub users_of : TcpCommand → ClientAction (List Bytes)
users_of (string_list user_list payload) = pure payload
users_of cmd = invalid_command (text "list_users")

unfoldable pub ask_users : Bytes → ClientAction Unit
unfolding ask users_of show print_user_list
ask_users current_username = do
  answer ← ask (text "list_users") (simple get_user_list)
  users ← users_of answer
  show (map out (print_user_list users current_username))

unfoldable pub rooms_of : TcpCommand → ClientAction (List Bytes)
rooms_of (string_list room_list payload) = pure payload
rooms_of cmd = invalid_command (text "list_rooms")

unfoldable pub ask_rooms : ClientAction Unit
unfolding ask rooms_of show print_room_list
ask_rooms = do
  answer ← ask (text "list_rooms") (simple get_room_list)
  rooms ← rooms_of answer
  show (map out (print_room_list rooms))

-- `println!` of a text that ends in a line break.
abbrev pub created : Bytes → List Shown
created room_name = out (text "Successfully created room '" ++ room_name ++ text "'.") ∷ out [] ∷ []

unfoldable pub create_answer : Bytes → TcpCommand → ClientAction Unit
unfolding show
create_answer room_name (simple create_room_success) = show (created room_name)
create_answer room_name (string error_response error) = show (note error ∷ [])
create_answer room_name cmd = invalid_command (text "create_room")

unfoldable pub create_room : Bytes → ClientAction Unit
unfolding ask create_answer
create_room room_name = do
  answer ← ask (text "create_room") (string TcpCommandId.create_room room_name)
  create_answer room_name answer

abbrev pub deleted : Bytes → List Shown
deleted room_name = out (text "Successfully deleted room '" ++ room_name ++ text "'.") ∷ out [] ∷ []

unfoldable pub delete_answer : Bytes → TcpCommand → ClientAction Unit
unfolding show
delete_answer room_name (simple delete_room_success) = show (deleted room_name)
delete_answer room_name (string error_response error) = show (note error ∷ [])
delete_answer room_name cmd = invalid_command (text "delete_room")

unfoldable pub delete_room : Bytes → ClientAction Unit
unfolding ask delete_answer
delete_room room_name = do
  answer ← ask (text "delete_room") (string TcpCommandId.delete_room room_name)
  delete_answer room_name answer

abbrev pub joined_lines : Bytes → List Shown
joined_lines room_name = out (text "Successfully joined room '" ++ room_name ++ text "'.") ∷ []

unfoldable pub join_answer : Bytes → TcpCommand → ClientAction (Option Bytes)
unfolding show
join_answer room_name (bytes join_room_success full_sid) =
    if not (length full_sid == id_len + id_len)
    then fail (custom (text "Unexpected payload length from server during join_room"))
    else do show (joined_lines room_name); pure (some full_sid)
join_answer room_name (string error_response error) = do show (note error ∷ []); pure none
join_answer room_name cmd = invalid_command (text "join_room")

unfoldable pub join_room : Bytes → ClientAction (Option Bytes)
unfolding ask join_answer
join_room room_name = do
  answer ← ask (text "join_room") (string TcpCommandId.join_room room_name)
  join_answer room_name answer

unfoldable pub handshake_answer : TcpCommand → ClientAction Unit
handshake_answer (simple hello_from_server) = pure tt
handshake_answer (string error_response error) = fail (custom error)
handshake_answer cmd = invalid_command (text "handshake")

unfoldable pub perform_handshake : Bytes → ClientAction Unit
unfolding ask handshake_answer
perform_handshake username = do
  answer ← ask (text "handshake") (string hello_from_client username)
  handshake_answer answer

unfoldable pub set_index : ℤ → ClientAction Unit
unfolding i32_text
set_index index c = (
  ok tt,
  record c {
    camera_index = index;
    shown = c.shown ++ out (text "Successfully switched to Camera " ++ i32_text index) ∷ [];
  },
)

-- `camera_name.parse()?`.
unfoldable pub set_camera : Option ℤ → ClientAction Unit
unfolding set_index
set_camera none = fail (custom (text "invalid digit found in string"))
set_camera (some index) = set_index index

unfoldable pub switch_camera : (ℕ → Bool) → Bytes → ClientAction Unit
unfolding set_camera is_valid_camera_name parse_i32
switch_camera opens camera_name =
    if is_valid_camera_name opens camera_name
    then set_camera (parse_i32 camera_name)
    else show (note (text "Unknown camera") ∷ [])

unfoldable pub show_cameras : (ℕ → Bool) → ClientAction Unit
unfolding print_camera_list list_available_cameras show
show_cameras opens = do
  camera_index ← gets (λ c. c.camera_index)
  show (map out (print_camera_list (list_available_cameras opens) camera_index))

-- An arm that makes no call.
abbrev pub no_call : ClientAction Unit → ClientAction (Option Bytes)
no_call m = do m; pure none

unfoldable pub handle_typed : (ℕ → Bool) → Bytes → Typed → ClientAction (Option Bytes)
unfolding show
handle_typed opens current_username nothing = pure none
handle_typed opens current_username help = no_call (show (map out print_command_help))
handle_typed opens current_username (usage message) = no_call (show (note message ∷ []))
handle_typed opens current_username (create room_name) = no_call (create_room room_name)
handle_typed opens current_username (delete room_name) = no_call (delete_room room_name)
handle_typed opens current_username (join room_name) = join_room room_name
handle_typed opens current_username list_users = no_call (ask_users current_username)
handle_typed opens current_username list_rooms = no_call ask_rooms
handle_typed opens current_username list_cameras = no_call (show_cameras opens)
handle_typed opens current_username (switch camera_name) = no_call (switch_camera opens camera_name)
handle_typed opens current_username unknown = no_call (show (note (text "Unknown command") ∷ []))

unfoldable pub handle_user_input : (ℕ → Bool) → Bytes → Bytes → ClientAction (Option Bytes)
unfolding handle_typed typed
handle_user_input opens current_username input = handle_typed opens current_username (typed input)

-- What comes after a line: the loop ends with the call, or goes on.
abbrev pub end_or : ClientAction (Option Bytes) → Option Bytes → ClientAction (Option Bytes)
end_or rest (some call_info) = pure (some call_info)
end_or rest none = rest

-- One trimmed line, and the loop behind it.
unfoldable pub handle_line :
    (ℕ → Bool) → Bytes → Bytes → ClientAction (Option Bytes) → ClientAction (Option Bytes)
unfolding handle_user_input show
handle_line opens current_username line rest =
    if same line (text "exit")
    then no_call (show (out (text "Exiting...") ∷ []))
    else handle_user_input opens current_username line >>= end_or rest

-- `PreCallInterface::run`: the lines are typed one by one; `none` is a line that is not UTF-8, which
-- `read_line` refuses, and their end is the end of the input.
unfoldable pub run : (ℕ → Bool) → Bytes → List (Option Bytes) → ClientAction (Option Bytes)
unfolding handle_line show trim
run opens current_username [] = no_call (show (prompt ∷ []))
run opens current_username (none ∷ lines) = show (prompt ∷ []) >> run opens current_username lines
run opens current_username (some line ∷ lines) =
    show (prompt ∷ [])
    >> handle_line opens current_username (trim line) (run opens current_username lines)
