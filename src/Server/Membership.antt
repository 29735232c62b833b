-- ===== src/Server/Membership.antt =====
-- server/src/tcp_command_handler.rs: joining a room and leaving it.
use facetime_v.Base.{
  Bool, Bytes, List, Option, [], bytes_instance, contains_key, if◌then◌else◌, insert, keys, lookup,
  nat_instance, no_sid_found, none, not, ok, remove, retain, same, some, text, ◌++◌, ◌∷◌,
}
use facetime_v.Base.Exec.{pure, fail, gets, for_each, ◌>>=◌, ◌>>◌}
use facetime_v.Protocol.Id.{join_room_success, other_user_joined_room, other_user_left_room}
use facetime_v.Protocol.Names.{RoomId, StreamId, is_blank}
use facetime_v.Protocol.Command.{TcpCommand, bytes}
use facetime_v.Server.Rooms.{find_room, missing_message}
use facetime_v.Server.State.{
  Room, RoomMap, Action, Sender, write, send, set_room_map, set_current_sid, send_error_response,
}

-- `if let Some(tx) = username_to_tcp_command_tx.lock().await.get(&user) { tx.send(cmd)?; }`
unfoldable pub send_to : (Sender → Bool) → TcpCommand → Option Sender → Action Unit
send_to live cmd none = pure tt
send_to live cmd (some tx) = send live tx cmd

unfoldable pub notify : (Sender → Bool) → TcpCommand → Bytes → Action Unit
notify live cmd user = do senders ← gets (λ w. w.senders); send_to live cmd (lookup user senders)

-- `let _ = tx.send(cmd.clone());`: a channel that is closed is passed over.
unfoldable pub ignore_err : Action Unit → Action Unit
ignore_err m w = (ok tt, (m w).1)

unfoldable pub notify_ignoring : (Sender → Bool) → TcpCommand → Bytes → Action Unit
notify_ignoring live cmd user = ignore_err (notify live cmd user)

-- The room with one more stream, which has no address yet, and one more user.
abbrev pub joined : StreamId → Bytes → Room → Room
joined sid username room = record room {
  stream_id_to_socket_addr = insert sid none room.stream_id_to_socket_addr;
  users = room.users ++ username ∷ [];
}

abbrev pub joined_command : StreamId → TcpCommand
joined_command sid = bytes other_user_joined_room sid

abbrev pub left_command : StreamId → TcpCommand
left_command sid = bytes other_user_left_room sid

-- What is sent once the room is entered: the two ids to the user that joins, its stream id to the
-- users that were there, and theirs to it.
unfoldable pub announce_join :
    (Sender → Bool) → RoomId → StreamId → List Bytes → List StreamId → Action Unit
announce_join live rid sid other_users other_sids = do
  write (bytes join_room_success (rid ++ sid))
  for_each other_users (notify live (joined_command sid))
  for_each other_sids (λ other. write (joined_command other))

unfoldable pub join_with :
    (Sender → Bool) → Bytes → StreamId → Bytes → RoomMap → Option (RoomId × Room) → Action Unit
join_with live username sid room_name m none = send_error_response (missing_message room_name)
join_with live username sid room_name m (some (rid, room)) = do
  set_room_map (insert rid (joined sid username room) m)
  set_current_sid (some sid)
  announce_join live rid sid room.users (keys room.stream_id_to_socket_addr)

unfoldable pub join_in : (Sender → Bool) → Bytes → StreamId → Bytes → Action Unit
join_in live username sid room_name = do
  m ← gets (λ w. w.room_map)
  join_with live username sid room_name m (find_room room_name m)

unfoldable pub handle_join_room : (Sender → Bool) → Bytes → StreamId → Bytes → Action Unit
handle_join_room live username sid room_name =
    if is_blank room_name
    then send_error_response (text "Room name cannot be empty")
    else join_in live username sid room_name

-- The room without the stream and without the user, however often it stands there.
abbrev pub left : StreamId → Bytes → Room → Room
left sid username room = record room {
  stream_id_to_socket_addr = remove sid room.stream_id_to_socket_addr;
  users = retain (λ user. not (same user username)) room.users;
}

-- The loop over the rooms, up to the first that has the stream: the map after it, and the users who
-- stay in that room.
unfoldable pub leave_first : StreamId → Bytes → RoomMap → Option (RoomMap × List Bytes)
leave_first sid username [] = none
leave_first sid username ((rid, room) ∷ m) =
    if contains_key sid room.stream_id_to_socket_addr
    then some ((rid, left sid username room) ∷ m, (left sid username room).users)
    else elim (leave_first sid username m) [
      | none ↦ none
      | some (m', affected) ↦ some ((rid, room) ∷ m', affected)
    ]

unfoldable pub leave_found :
    (Sender → Bool) → StreamId → Option (RoomMap × List Bytes) → Action Unit
leave_found live sid none = pure tt
leave_found live sid (some (m, affected_users)) = do
  set_room_map m
  set_current_sid none
  for_each affected_users (notify_ignoring live (left_command sid))

unfoldable pub leave_with : (Sender → Bool) → Bytes → Option StreamId → Action Unit
leave_with live username none = fail no_sid_found
leave_with live username (some sid) = do
  m ← gets (λ w. w.room_map)
  leave_found live sid (leave_first sid username m)

unfoldable pub handle_leave_room : (Sender → Bool) → Bytes → Action Unit
handle_leave_room live username = do
  current_sid ← gets (λ w. w.current_sid)
  leave_with live username current_sid
