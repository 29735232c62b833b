-- ===== src/Server/Session.antt =====
-- server/src/tcp_handler.rs, the dispatch of tcp_command_handler.rs, and the task that wes_sfu.rs
-- spawns for a connection: handshake, registration, the loop, and the clean-up behind it. The
-- handshake command that was read is an argument, and so are the later events of the connection in
-- the order in which `select!` takes them; the end of the events is the end of the stream.
use facetime_v.Base.{
  Bool, Bytes, Error, List, Option, Result, [], any, bytes_instance, contains_key, err,
  if◌then◌else◌, insert, invalid_hello, length, ltb, nat_instance, none, not, ok, remove, retain,
  same, some, text, ◌++◌, ◌∷◌,
}
use facetime_v.Base.Exec.{pure, fail, gets, for_each, ◌>>=◌, ◌>>◌}
use facetime_v.Protocol.Id.{
  error_response, get_user_list, get_room_list, create_room, delete_room, join_room, leave_room,
  hello_from_client, hello_from_server,
}
use facetime_v.Protocol.Names.{StreamId, max_name_length, is_valid_name}
use facetime_v.Protocol.Command.{TcpCommand, ReceivedTcpCommand, eof, command, simple, string}
use facetime_v.Server.State.{
  RoomMap, World, Action, Sender, write, set_room_map, send_error_response,
}
use facetime_v.Server.Rooms.{
  handle_get_user_list, handle_get_room_list, handle_create_room, handle_delete_room,
}
use facetime_v.Server.Membership.{
  handle_join_room, handle_leave_room, left, left_command, notify_ignoring,
}

-- What the handlers need from outside: which channels have a receiver, and the `{:?}` of a command.
pub record Outside : Type 0 where
  pub live : Sender → Bool
  pub debug : TcpCommand → Bytes

abbrev pub unsupported_message : Outside → TcpCommand → Bytes
unsupported_message out cmd = text "Command not supported: " ++ out.debug cmd

-- `random` is what `rand::fill` puts into the identifier, where the command makes one.
unfoldable pub handle_command : Outside → Bytes → Bytes → TcpCommand → Action Unit
handle_command out username random (simple get_user_list) = handle_get_user_list
handle_command out username random (simple get_room_list) = handle_get_room_list
handle_command out username random (string create_room room_name) =
    handle_create_room random room_name
handle_command out username random (string delete_room room_name) = handle_delete_room room_name
handle_command out username random (string join_room room_name) =
    handle_join_room out.live username random room_name
handle_command out username random (simple leave_room) = handle_leave_room out.live username
handle_command out username random incoming_command =
    send_error_response (unsupported_message out incoming_command)

-- An error for the client, and no user.
unfoldable pub refuse : Bytes → Action (Option Bytes)
refuse error_message = do write (string error_response error_message); pure none

unfoldable pub welcome : Bytes → Action (Option Bytes)
welcome username = do write (simple hello_from_server); pure (some username)

-- The checks of the handshake on the name that was received.
unfoldable pub check_username : Bytes → Action (Option Bytes)
check_username username =
    if ltb max_name_length (length username)
    then refuse (text "Username must be less than or equal to 15 characters.")
    else if not (is_valid_name username)
    then refuse
        (text "Username must contain only letters, numbers, underscores (_), or hyphens (-).")
    else gets (λ w. w.users) >>= λ users.
        if any (λ user. same user username) users
        then refuse (text "Username is already taken.")
        else welcome username

unfoldable pub handle_handshake : Result ReceivedTcpCommand → Action (Option Bytes)
handle_handshake (err e) = fail e
handle_handshake (ok eof) = pure none
handle_handshake (ok (command (string hello_from_client username))) = check_username username
handle_handshake (ok (command cmd)) = fail invalid_hello

-- Between the handshake and the loop: the user and its channel become known.
unfoldable pub register : Bytes → Sender → World → World
register username tx w = record w {
  users = w.users ++ username ∷ [];
  senders = insert username tx w.senders;
}

pub data Event : Type 0 where
  incoming : TcpCommand → Bytes → Event
  outgoing : TcpCommand → Event
  broken : Error → Event

unfoldable pub handle_event : Outside → Bytes → Event → Action Unit
handle_event out username (incoming cmd random) = handle_command out username random cmd
handle_event out username (outgoing cmd) = write cmd
handle_event out username (broken e) = fail e

-- The loop: each event in turn, until one fails or the stream ends.
unfoldable pub serve : Outside → Bytes → List Event → Action Unit
serve out username events = for_each events (handle_event out username)

-- Every room that has the stream loses it and the user.
unfoldable pub leave_all : StreamId → Bytes → RoomMap → RoomMap
leave_all sid username [] = []
leave_all sid username ((rid, room) ∷ m) =
    (rid, if contains_key sid room.stream_id_to_socket_addr then left sid username room else room)
    ∷ leave_all sid username m

-- The users who stay in such rooms.
unfoldable pub left_behind : StreamId → Bytes → RoomMap → List Bytes
left_behind sid username [] = []
left_behind sid username ((rid, room) ∷ m) =
    (if contains_key sid room.stream_id_to_socket_addr then (left sid username room).users else [])
    ++ left_behind sid username m

unfoldable pub forget_user : Bytes → World → World
forget_user username w = record w {
  users = retain (λ user. not (same user username)) w.users;
  senders = remove username w.senders;
}

unfoldable pub clean_up_rooms : Outside → Bytes → Option StreamId → Action Unit
clean_up_rooms out username none = pure tt
clean_up_rooms out username (some sid) = do
  m ← gets (λ w. w.room_map)
  set_room_map (leave_all sid username m)
  for_each (left_behind sid username m) (notify_ignoring out.live (left_command sid))

unfoldable pub clean_up : Outside → Bytes → World → World
clean_up out username w = (clean_up_rooms out username w.current_sid (forget_user username w)).1

-- What is left of the task once the handshake has answered.
unfoldable pub after_handshake :
    Outside → Sender → List Event → Result (Option Bytes) → World → World
after_handshake out tx events (ok (some username)) w =
    clean_up out username (serve out username events (register username tx w)).1
after_handshake out tx events (ok none) w = w
after_handshake out tx events (err e) w = w

-- The whole task of one connection.
unfoldable pub connection :
    Outside → Sender → Result ReceivedTcpCommand → List Event → World → World
connection out tx hello events w =
    let (r, w') = handle_handshake hello w in after_handshake out tx events r w'
