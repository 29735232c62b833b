-- ===== src/Server/Rooms.antt =====
-- server/src/tcp_command_handler.rs: the commands of a connected user. What `rand::fill` writes is
-- an argument, and so is the text that `{:?}` makes of a command.
use facetime_v.Base.{
  Bytes, List, Option, [], any, bytes_instance, decimal, failed_to_send, if◌then◌else◌, inl, inr,
  insert, length, ltb, nat_instance, none, not, remove, same, some, text, ℕ, ◌++◌, ◌∷◌, ◌⊎◌,
}
use facetime_v.Base.Exec.{map_err, gets, ◌>>=◌, ◌>>◌}
use facetime_v.Protocol.Id.{user_list, room_list, create_room_success, delete_room_success}
use facetime_v.Protocol.Names.{RoomId, max_name_length, is_valid_name, is_blank}
use facetime_v.Protocol.Command.{simple, string_list}
use facetime_v.Server.State.{
  Room, new_room, RoomMap, Action, write, set_room_map, send_error_response,
}

unfoldable pub handle_get_user_list : Action Unit
handle_get_user_list = do
  users_snapshot ← gets (λ w. w.users)
  map_err failed_to_send (write (string_list user_list users_snapshot))

abbrev pub room_names : RoomMap → List Bytes
room_names [] = []
room_names ((rid, room) ∷ m) = room.name ∷ room_names m

unfoldable pub handle_get_room_list : Action Unit
handle_get_room_list = do
  names ← gets (λ w. room_names w.room_map)
  map_err failed_to_send (write (string_list room_list names))

-- `.iter().find(|(_, room)| room.name == room_name)`.
unfoldable pub find_room : Bytes → RoomMap → Option (RoomId × Room)
find_room room_name [] = none
find_room room_name ((rid, room) ∷ m) =
    if same room.name room_name then some (rid, room) else find_room room_name m

abbrev pub exists_message : Bytes → Bytes
exists_message name = text "Room '" ++ name ++ text "' already exists"

abbrev pub missing_message : Bytes → Bytes
missing_message name = text "Room '" ++ name ++ text "' does not exist"

-- The block under the write lock: `none` where the name is taken, else the map with the new room.
unfoldable pub insert_room : RoomId → Bytes → RoomMap → Option RoomMap
insert_room room_id room_name m =
    if any (λ name. same name room_name) (room_names m)
    then none
    else some (insert room_id (new_room room_name) m)

-- The match on what the block answers.
unfoldable pub create_with : Bytes → Option RoomMap → Action Unit
create_with room_name none = send_error_response (exists_message room_name)
create_with room_name (some m) = do
  set_room_map m
  map_err failed_to_send (write (simple create_room_success))

unfoldable pub create_in : RoomId → Bytes → Action Unit
create_in room_id room_name = do
  m ← gets (λ w. w.room_map)
  create_with room_name (insert_room room_id room_name m)

unfoldable pub handle_create_room : RoomId → Bytes → Action Unit
handle_create_room room_id room_name =
    if is_blank room_name
    then send_error_response (text "Room name cannot be empty")
    else if ltb max_name_length (length room_name)
    then send_error_response (text "Room name must be less than or equal to 15 characters.")
    else if not (is_valid_name room_name)
    then send_error_response
        (text "Room name must contain only letters, numbers, underscores (_), or hyphens (-).")
    else create_in room_id room_name

abbrev pub occupied_message : Bytes → ℕ → Bytes
occupied_message name user_count =
    text "Room '"
    ++ name
    ++ text "' cannot be deleted because it still has "
    ++ decimal user_count
    ++ text " active user(s)."

-- The block under the write lock: the message of a refusal, or the map without the room.
abbrev pub delete_found : Bytes → RoomMap → Option (RoomId × Room) → Bytes ⊎ RoomMap
delete_found room_name m none = inl (missing_message room_name)
delete_found room_name m (some (room_id, room)) =
    if ltb 0 (length room.users)
    then inl (occupied_message room_name (length room.users))
    else inr (remove room_id m)

unfoldable pub delete_with : Bytes ⊎ RoomMap → Action Unit
delete_with (inl msg) = send_error_response msg
delete_with (inr m) = do set_room_map m; map_err failed_to_send (write (simple delete_room_success))

unfoldable pub delete_in : Bytes → Action Unit
delete_in room_name = do
  m ← gets (λ w. w.room_map)
  delete_with (delete_found room_name m (find_room room_name m))

unfoldable pub handle_delete_room : Bytes → Action Unit
handle_delete_room room_name =
    if is_blank room_name
    then send_error_response (text "Room name cannot be empty")
    else delete_in room_name
