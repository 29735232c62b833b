-- ===== src/Server/Soundness/Tasks.antt =====
-- Joining, leaving and the whole task of a connection keep the rooms sound.
use facetime_v.Base.{
  Bool, Bytes, List, Option, Result, [], arith, err, invalid_hello, keys, no_sid_found, none, ok,
  refl, some, ◌∷◌, ◌≡◌,
}
use facetime_v.Base.Exec.{
  Keeps-if, Keeps-fail, Keeps, Keeps-gets_bind, Keeps-pure, Keeps-for_each, keeps_rules, for_each,
}
use facetime_v.Protocol.Names.{RoomId, StreamId, is_blank}
use facetime_v.Protocol.Command.{command, ReceivedTcpCommand, TcpCommand, simple, string}
use facetime_v.Server.State.{World, Room, RoomMap, Sender, set_room_map}
use facetime_v.Server.Rooms.{
  room_names, missing_message, handle_get_room_list, handle_get_user_list, find_room,
}
use facetime_v.Server.Membership.{
  left_command, leave_first, join_in, leave_found, join_with, leave_with, handle_join_room,
  handle_leave_room, notify_ignoring,
}
use facetime_v.Server.Invariant.{joined-IsSound, leave_first-IsSound, IsSound, HasSoundRooms}
use facetime_v.Protocol.Id.{
  hello_from_client, get_user_list, get_room_list, create_room, delete_room, join_room, leave_room,
}
use facetime_v.Protocol.Command.{eof, command}
use facetime_v.Base.Exec.{◌>>◌, for_each}
use facetime_v.Server.Soundness.{
  write-Sound, send_error_response-Sound, announce_join-Sound, handle_create_room-Sound,
  handle_delete_room-Sound, quiet,
}
use facetime_v.Server.Session.{
  register, serve, forget_user, clean_up, after_handshake, broken, outgoing, incoming, welcome,
  Event, unsupported_message, left_behind, refuse, Outside, connection, clean_up_rooms,
  handle_command, handle_event, check_username, handle_handshake, leave_all,
}

module _ (live : Sender → Bool) (username sid : Bytes) where
  join_with-Sound :
      (name : Bytes) (m : RoomMap) (o : Option (RoomId × Room))
      → find_room name m ≡ o
      → IsSound m
      → Keeps HasSoundRooms (join_with live username sid name m o)
  unfolding join_with
  join_with-Sound name m none e s = send_error_response-Sound (missing_message name)
  join_with-Sound name m (some (rid, room)) e s =
      let sound = joined-IsSound name username sid m rid room e s in
      search (quiet, announce_join-Sound, sound)

  handle_join_room-Sound :
      (name : Bytes) → Keeps HasSoundRooms (handle_join_room live username sid name)
  unfolding handle_join_room join_in
  handle_join_room-Sound name =
      Keeps-if (is_blank name) _ _ (λ _. send_error_response-Sound _)
        λ _.
          Keeps-gets_bind (λ w. w.room_map)
            (λ m. join_with live username sid name m (find_room name m))
            λ w h. (join_with-Sound name w.room_map (find_room name w.room_map) refl h).at w h

leave_found-Sound :
    (live : Sender → Bool) (sid username : Bytes) (m : RoomMap) (o : Option (RoomMap × List Bytes))
    → leave_first sid username m ≡ o
    → IsSound m
    → Keeps HasSoundRooms (leave_found live sid o)
unfolding leave_found
leave_found-Sound live sid username m none e s = Keeps-pure tt
leave_found-Sound live sid username m (some (m', us)) e s =
    let sound = leave_first-IsSound sid username m m' us e s in search (quiet, sound)

leave_with-Sound :
    (live : Sender → Bool) (username : Bytes) (o : Option StreamId)
    → Keeps HasSoundRooms (leave_with live username o)
unfolding leave_with
leave_with-Sound live username none = Keeps-fail no_sid_found
leave_with-Sound live username (some sid) =
    Keeps-gets_bind (λ w. w.room_map) (λ m. leave_found live sid (leave_first sid username m))
      λ w h.
        (leave_found-Sound live sid username w.room_map (leave_first sid username w.room_map) refl
            h).at
          w h

handle_leave_room-Sound :
    (live : Sender → Bool) (username : Bytes)
    → Keeps HasSoundRooms (handle_leave_room live username)
unfolding handle_leave_room
handle_leave_room-Sound live username = search (keeps_rules, leave_with-Sound)

lists-Sound : Keeps HasSoundRooms handle_get_user_list × Keeps HasSoundRooms handle_get_room_list
unfolding handle_get_user_list handle_get_room_list
lists-Sound = (search quiet, search quiet)

-- Every command of a user, answered or refused, keeps the rooms sound.
pub handle_command-Sound :
    (out : Outside) (username random : Bytes) (cmd : TcpCommand)
    → Keeps HasSoundRooms (handle_command out username random cmd)
unfolding handle_command
handle_command-Sound out username random (simple get_user_list) = lists-Sound.0
handle_command-Sound out username random (simple get_room_list) = lists-Sound.1
handle_command-Sound out username random (string create_room name) =
    handle_create_room-Sound random name
handle_command-Sound out username random (string delete_room name) = handle_delete_room-Sound name
handle_command-Sound out username random (string join_room name) =
    handle_join_room-Sound out.live username random name
handle_command-Sound out username random (simple leave_room) =
    handle_leave_room-Sound out.live username
handle_command-Sound out username random cmd =
    send_error_response-Sound (unsupported_message out cmd)

handle_event-Sound :
    (out : Outside) (username : Bytes) (e : Event)
    → Keeps HasSoundRooms (handle_event out username e)
unfolding handle_event
handle_event-Sound out username (incoming cmd random) = handle_command-Sound out username random cmd
handle_event-Sound out username (outgoing cmd) = write-Sound cmd
handle_event-Sound out username (broken e) = Keeps-fail e

refuse-Sound : (msg : Bytes) → Keeps HasSoundRooms (refuse msg)
unfolding refuse
refuse-Sound msg = search quiet

welcome-Sound : (username : Bytes) → Keeps HasSoundRooms (welcome username)
unfolding welcome
welcome-Sound username = search quiet

check_username-Sound : (username : Bytes) → Keeps HasSoundRooms (check_username username)
unfolding check_username
check_username-Sound username = search (quiet, refuse-Sound, welcome-Sound) depth 8

handle_handshake-Sound :
    (hello : Result ReceivedTcpCommand) → Keeps HasSoundRooms (handle_handshake hello)
unfolding handle_handshake
handle_handshake-Sound (err e) = Keeps-fail e
handle_handshake-Sound (ok eof) = Keeps-pure none
handle_handshake-Sound (ok (command (string hello_from_client username))) =
    check_username-Sound username
handle_handshake-Sound (ok (command cmd)) = Keeps-fail invalid_hello

-- Leaving every room changes no identifier and no name.
leave_all_same :
    (sid username : Bytes) (m : RoomMap)
    → (keys (leave_all sid username m) ≡ keys m)
      × (room_names (leave_all sid username m) ≡ room_names m)
unfolding leave_all
leave_all_same sid username [] = (refl, refl)
leave_all_same sid username ((rid, room) ∷ m) = ground (arith, leave_all_same sid username m)

leave_all-IsSound :
    (sid username : Bytes) (m : RoomMap) → IsSound m → IsSound (leave_all sid username m)
leave_all-IsSound sid username m s =
    let (ek, en) = leave_all_same sid username m in
    record {
      keys_distinct = rw ek s.keys_distinct;
      names_distinct = rw en s.names_distinct;
      named = rw en s.named;
    }

clean_up_rooms-Sound :
    (out : Outside) (username : Bytes) (o : Option StreamId)
    → Keeps HasSoundRooms (clean_up_rooms out username o)
unfolding clean_up_rooms
clean_up_rooms-Sound out username none = Keeps-pure tt
clean_up_rooms-Sound out username (some sid) =
    Keeps-gets_bind (λ w. w.room_map) _
      λ w h.
        let sound = leave_all-IsSound sid username w.room_map h in
        let keeps : Keeps HasSoundRooms (
            set_room_map (leave_all sid username w.room_map)
            >> for_each (left_behind sid username w.room_map)
                (notify_ignoring out.live (left_command sid))) =
          search (quiet, sound) in
        keeps.at w h

clean_up-Sound :
    (out : Outside) (username : Bytes) (w : World)
    → HasSoundRooms w
    → HasSoundRooms (clean_up out username w)
unfolding clean_up forget_user
clean_up-Sound out username w h = (clean_up_rooms-Sound out username w.current_sid).at _ h

after_handshake-Sound :
    (out : Outside) (tx : Sender) (events : List Event) (r : Result (Option Bytes)) (w : World)
    → HasSoundRooms w
    → HasSoundRooms (after_handshake out tx events r w)
unfolding after_handshake serve register
after_handshake-Sound out tx events (ok (some username)) w h =
    clean_up-Sound out username _
      ((Keeps-for_each events (handle_event out username) (handle_event-Sound out username)).at _ h)
after_handshake-Sound out tx events (ok none) w h = h
after_handshake-Sound out tx events (err e) w h = h

-- A whole connection, whatever the client says and in whatever order its events come, and however
-- it ends, leaves the rooms sound if it found them so: identifiers and names are distinct, and every
-- name is short, not blank and of the allowed characters.
pub connection-IsSound :
    (out : Outside) (tx : Sender) (hello : Result ReceivedTcpCommand) (events : List Event)
    (w : World)
    → IsSound w.room_map
    → IsSound (connection out tx hello events w).room_map
unfolding connection
connection-IsSound out tx hello events w h =
    after_handshake-Sound out tx events (handle_handshake hello w).0 (handle_handshake hello w).1
      ((handle_handshake-Sound hello).at w h)
