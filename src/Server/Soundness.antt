-- ===== src/Server/Soundness.antt =====
-- The writes, and the handlers that create and delete rooms, keep the rooms sound; `Tasks` goes on
-- to joining and leaving, and to the whole task of a connection.
pub mod Tasks
use facetime_v.Base.{
  Bool, Bool-cases, Bytes, List, Option, Result-cases, arith, bytes_instance, failed_to_send, false,
  inl, inr, length, lookup, ltb, nat_instance, none, not, refl, remove, some, ◌++◌, ◌≡◌, ◌⊎◌,
}
use facetime_v.Base.Exec.{
  Keeps, Keeps-gets_bind, Keeps-pure, Keeps-bind, Keeps-map_err, Keeps-for_each, keeps_rules,
  for_each,
}
use facetime_v.Protocol.Id.{
  create_room_success, join_room_success, delete_room_success, error_response,
}
use facetime_v.Protocol.Names.{RoomId, StreamId, max_name_length, is_valid_name, is_blank}
use facetime_v.Protocol.Command.{TcpCommand, simple, string, bytes, write_to_stream}
use facetime_v.Server.State.{
  Room, RoomMap, Sender, write, send, set_room_map, set_current_sid, send_error_response,
}
use facetime_v.Server.Rooms.{
  find_room, insert_room, create_with, create_in, handle_create_room, delete_found, delete_with,
  delete_in, handle_delete_room,
}
use facetime_v.Server.Membership.{
  notify, joined_command, send_to, notify_ignoring, ignore_err, announce_join,
}
use facetime_v.Server.Invariant.{
  IsRoomName, IsSound, HasSoundRooms, insert_room-IsSound, remove-IsSound,
}

-- What touches no room.
pub write-Sound : (cmd : TcpCommand) → Keeps HasSoundRooms (write cmd)
unfolding write
write-Sound cmd = record {
  at = λ w h. elim (Result-cases (write_to_stream cmd w.stream)) [
    | inl (s, e) ↦ rw (e, write) h
    | inr (x, e) ↦ rw (e, write) h
  ];
}

send-Sound :
    (live : Sender → Bool) (tx : Sender) (cmd : TcpCommand) → Keeps HasSoundRooms (send live tx cmd)
unfolding send
send-Sound live tx cmd = record {
  at = λ w h. elim (Bool-cases (live tx)) [ inl e ↦ rw (e, send) h | inr e ↦ rw (e, send) h ];
}

pub set_current_sid-Sound : (sid : Option StreamId) → Keeps HasSoundRooms (set_current_sid sid)
unfolding set_current_sid
set_current_sid-Sound sid = record { at = λ w h. h }

pub set_room_map-Sound : (m : RoomMap) → IsSound m → Keeps HasSoundRooms (set_room_map m)
unfolding set_room_map
set_room_map-Sound m s = record { at = λ w h. s }

pub send_error_response-Sound : (msg : Bytes) → Keeps HasSoundRooms (send_error_response msg)
unfolding send_error_response
send_error_response-Sound msg =
    Keeps-map_err failed_to_send (write (string error_response msg))
      (write-Sound (string error_response msg))

send_to-Sound :
    (live : Sender → Bool) (cmd : TcpCommand) (o : Option Sender)
    → Keeps HasSoundRooms (send_to live cmd o)
unfolding send_to
send_to-Sound live cmd none = Keeps-pure tt
send_to-Sound live cmd (some tx) = send-Sound live tx cmd

pub notify-Sound :
    (live : Sender → Bool) (cmd : TcpCommand) (user : Bytes)
    → Keeps HasSoundRooms (notify live cmd user)
unfolding notify
notify-Sound live cmd user =
    Keeps-gets_bind _ _ (λ w h. (send_to-Sound live cmd (lookup user w.senders)).at w h)

pub notify_ignoring-Sound :
    (live : Sender → Bool) (cmd : TcpCommand) (user : Bytes)
    → Keeps HasSoundRooms (notify_ignoring live cmd user)
unfolding notify_ignoring ignore_err
notify_ignoring-Sound live cmd user = record { at = λ w h. (notify-Sound live cmd user).at w h }

pub ruleset quiet = (
  keeps_rules, write-Sound, set_current_sid-Sound, set_room_map-Sound, send_error_response-Sound,
  notify-Sound, notify_ignoring-Sound,
)

pub announce_join-Sound :
    (live : Sender → Bool) (rid sid : Bytes) (us ss : List Bytes)
    → Keeps HasSoundRooms (announce_join live rid sid us ss)
unfolding announce_join
announce_join-Sound live rid sid us ss =
    Keeps-bind (write (bytes join_room_success (rid ++ sid))) _
      (write-Sound (bytes join_room_success (rid ++ sid)))
      λ _.
        Keeps-bind (for_each us (notify live (joined_command sid))) _
          (Keeps-for_each us (notify live (joined_command sid))
            (notify-Sound live (joined_command sid)))
          λ _.
            Keeps-for_each ss (λ s. write (joined_command s)) (λ s. write-Sound (joined_command s))

create_with-Sound :
    (name : Bytes) (o : Option RoomMap)
    → ((m : RoomMap) → o ≡ some m → IsSound m)
    → Keeps HasSoundRooms (create_with name o)
unfolding create_with
create_with-Sound name none s = search quiet
create_with-Sound name (some m) s = Keeps-bind _ _ (set_room_map-Sound m (s m refl)) (λ _.
    Keeps-map_err failed_to_send (write (simple create_room_success))
      (write-Sound (simple create_room_success)))

delete_with-Sound :
    (o : Bytes ⊎ RoomMap)
    → ((m : RoomMap) → o ≡ inr m → IsSound m)
    → Keeps HasSoundRooms (delete_with o)
unfolding delete_with
delete_with-Sound (inl msg) s = search quiet
delete_with-Sound (inr m) s = Keeps-bind _ _ (set_room_map-Sound m (s m refl)) (λ _.
    Keeps-map_err failed_to_send (write (simple delete_room_success))
      (write-Sound (simple delete_room_success)))

delete_found-IsSound :
    (name : Bytes) (m m' : RoomMap) (o : Option (RoomId × Room))
    → IsSound m
    → delete_found name m o ≡ inr m'
    → IsSound m'
delete_found-IsSound name m m' none s e = cc
delete_found-IsSound name m m' (some (rid, room)) s e =
    elim (Bool-cases (ltb 0 (length room.users))) [
      | inl busy ↦ ground arith
      | inr free ↦ let e' : remove rid m ≡ m' = ground arith in rw (← e') (remove-IsSound rid m s)
    ]

create_in-Sound : (rid name : Bytes) → IsRoomName name → Keeps HasSoundRooms (create_in rid name)
unfolding create_in
create_in-Sound rid name hn =
    Keeps-gets_bind (λ w. w.room_map) (λ m. create_with name (insert_room rid name m))
      λ w h.
        (create_with-Sound name (insert_room rid name w.room_map)
            (λ m e. insert_room-IsSound rid name w.room_map m hn h e)).at
          w h

delete_in-Sound : (name : Bytes) → Keeps HasSoundRooms (delete_in name)
unfolding delete_in
delete_in-Sound name =
    Keeps-gets_bind (λ w. w.room_map) (λ m. delete_with (delete_found name m (find_room name m)))
      λ w h.
        (delete_with-Sound (delete_found name w.room_map (find_room name w.room_map))
            (λ m e. delete_found-IsSound name w.room_map m (find_room name w.room_map) h e)).at
          w h

passed_checks :
    (name : Bytes)
    → is_blank name ≡ false
    → ltb max_name_length (length name) ≡ false
    → not (is_valid_name name) ≡ false
    → IsRoomName name
passed_checks name full short valid = (ground arith, ground arith, full)

pub handle_create_room-Sound :
    (rid name : Bytes) → Keeps HasSoundRooms (handle_create_room rid name)
unfolding handle_create_room
handle_create_room-Sound rid name =
    search (keeps_rules, send_error_response-Sound, create_in-Sound, passed_checks) depth 7

pub handle_delete_room-Sound : (name : Bytes) → Keeps HasSoundRooms (handle_delete_room name)
unfolding handle_delete_room
handle_delete_room-Sound name = search (keeps_rules, send_error_response-Sound, delete_in-Sound)
