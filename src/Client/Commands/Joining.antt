-- ===== src/Client/Commands/Joining.antt =====
-- Joining a room: `join_room` of pre_call_interface.rs against `handle_join_room` of
-- tcp_command_handler.rs.
use facetime_v.Server.Rooms.{find_room}
use facetime_v.Client.Commands.Replies.{RefusesSomehow, Says}
use facetime_v.Client.Commands.Exchange.{Client, note, joined_lines}
use facetime_v.Base.{
  Bytes, Option, Result, [], bytes_instance, false, insert, length, nat_instance, none, ok, some,
  true, ◌++◌, ◌∷◌, ◌≡◌, ◌⊎◌,
}
use facetime_v.Protocol.Id.{join_room_success, error_response}
use facetime_v.Protocol.Names.{RoomId, StreamId, is_blank}
use facetime_v.Protocol.Command.{bytes, command, read_from_stream, string}
use facetime_v.Server.State.{World, RoomMap, Room}
use facetime_v.Server.Membership.{joined_command, notify, send_to, announce_join}
use facetime_v.Server.Membership

-- The user is in the room that was found, and the first command on the stream says so.
pub record Joins (sid : StreamId) (username : Bytes) (rid : RoomId) (room : Room) (m : RoomMap)
    (w : World) : Type 0 where
  pub rest : Bytes
  pub reads :
      read_from_stream w.stream.written ≡ ok (command (bytes join_room_success (rid ++ sid)), rest)
  pub rooms : w.room_map ≡ insert rid (Membership.joined sid username room) m

-- The name is blank, or there is no room of that name.
abbrev pub CannotJoin : Bytes → RoomMap → Type 0
CannotJoin name m = (is_blank name ≡ true) ⊎ (find_room name m ≡ none)

abbrev pub JoinsOrRefuses : StreamId → Bytes → Bytes → RoomMap → World → Type 0
JoinsOrRefuses sid username name m w =
    ((is_blank name ≡ false)
      × (rid : RoomId) × (room : Room) × (find_room name m ≡ some (rid, room))
      × Joins sid username rid room m w)
    ⊎ (CannotJoin name m × RefusesSomehow m w)

-- Identifiers have four bytes, as the type of the source says.
abbrev pub IsId : Bytes → Type 0
IsId id = length id ≡ 4

-- The client has the two identifiers of a room of that name that the server put it into, or prints
-- the server's error, and the server's rooms are as they were.
abbrev pub JoinedOrNoted :
    StreamId → Bytes → Bytes → Client → World → (Result (Option Bytes) × Client) × World → Type 0
JoinedOrNoted sid username name c w ((r, c'), w') =
    ((is_blank name ≡ false)
      × (rid : RoomId) × (room : Room) × (find_room name w.room_map ≡ some (rid, room))
      × (r ≡ ok (some (rid ++ sid)))
      × (c'.shown ≡ c.shown ++ joined_lines name)
      × (w'.room_map ≡ insert rid (Membership.joined sid username room) w.room_map))
    ⊎ (CannotJoin name w.room_map
        × (msg : Bytes) × Says (string error_response msg) w'
        × (r ≡ ok none)
        × (c'.shown ≡ c.shown ++ note msg ∷ [])
        × (w'.room_map ≡ w.room_map))
