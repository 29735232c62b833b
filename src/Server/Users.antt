-- ===== src/Server/Users.antt =====
-- The list of users: no command changes it, and a connection leaves it as it was.
pub mod Handshake
pub mod Connection
use facetime_v.Base.{
  Bool, Bool-cases, Bytes, List, Option, Result-cases, bytes_instance, failed_to_send, inl, inr,
  lookup, nat_instance, none, some, ◌≡◌, ◌⊎◌,
}
use facetime_v.Base.Exec.{
  Keeps, Keeps-fail, Keeps-gets_bind, Keeps-pure, Keeps-map_err, keeps_rules,
}
use facetime_v.Protocol.Id.{
  get_user_list, get_room_list, create_room, delete_room, join_room, leave_room, error_response,
}
use facetime_v.Protocol.Names.{StreamId, RoomId}
use facetime_v.Protocol.Command.{TcpCommand, simple, string, write_to_stream}
use facetime_v.Server.State.{
  Room, World, RoomMap, Sender, write, send, set_room_map, set_current_sid, send_error_response,
}
use facetime_v.Server.Rooms.{
  create_with, create_in, handle_create_room, delete_with, delete_in, handle_delete_room,
  handle_get_room_list, handle_get_user_list,
}
use facetime_v.Server.Membership.{
  notify, send_to, notify_ignoring, ignore_err, announce_join, join_with, join_in, handle_join_room,
  leave_found, leave_with, handle_leave_room,
}
use facetime_v.Server.Session.{
  Outside, Event, incoming, outgoing, broken, unsupported_message, handle_command, handle_event,
}

module _ (us : List Bytes) where
  abbrev pub HasUsers : World → Type 0
  HasUsers w = w.users ≡ us

  pub write-HasUsers : (cmd : TcpCommand) → Keeps HasUsers (write cmd)
  unfolding write
  write-HasUsers cmd = record {
    at = λ w h. elim (Result-cases (write_to_stream cmd w.stream)) [
      | inl (s, e) ↦ rw (e, write) h
      | inr (x, e) ↦ rw (e, write) h
    ];
  }

  send-HasUsers :
      (live : Sender → Bool) (tx : Sender) (cmd : TcpCommand) → Keeps HasUsers (send live tx cmd)
  unfolding send
  send-HasUsers live tx cmd = record {
    at = λ w h. elim (Bool-cases (live tx)) [ inl e ↦ rw (e, send) h | inr e ↦ rw (e, send) h ];
  }

  pub set_current_sid-HasUsers : (sid : Option StreamId) → Keeps HasUsers (set_current_sid sid)
  unfolding set_current_sid
  set_current_sid-HasUsers sid = record { at = λ w h. h }

  pub set_room_map-HasUsers : (m : RoomMap) → Keeps HasUsers (set_room_map m)
  unfolding set_room_map
  set_room_map-HasUsers m = record { at = λ w h. h }

  pub send_error_response-HasUsers : (msg : Bytes) → Keeps HasUsers (send_error_response msg)
  unfolding send_error_response
  send_error_response-HasUsers msg =
      Keeps-map_err failed_to_send (write (string error_response msg))
        (write-HasUsers (string error_response msg))

  send_to-HasUsers :
      (live : Sender → Bool) (cmd : TcpCommand) (o : Option Sender)
      → Keeps HasUsers (send_to live cmd o)
  unfolding send_to
  send_to-HasUsers live cmd none = Keeps-pure tt
  send_to-HasUsers live cmd (some tx) = send-HasUsers live tx cmd

  pub notify-HasUsers :
      (live : Sender → Bool) (cmd : TcpCommand) (user : Bytes)
      → Keeps HasUsers (notify live cmd user)
  unfolding notify
  notify-HasUsers live cmd user =
      Keeps-gets_bind _ _ (λ w h. (send_to-HasUsers live cmd (lookup user w.senders)).at w h)

  pub notify_ignoring-HasUsers :
      (live : Sender → Bool) (cmd : TcpCommand) (user : Bytes)
      → Keeps HasUsers (notify_ignoring live cmd user)
  unfolding notify_ignoring ignore_err
  notify_ignoring-HasUsers live cmd user = record {
    at = λ w h. (notify-HasUsers live cmd user).at w h;
  }

  pub ruleset silent = (
    keeps_rules, write-HasUsers, set_current_sid-HasUsers, set_room_map-HasUsers,
    send_error_response-HasUsers, notify-HasUsers, notify_ignoring-HasUsers,
  )

  create_with-HasUsers : (name : Bytes) (o : Option RoomMap) → Keeps HasUsers (create_with name o)
  unfolding create_with
  create_with-HasUsers name none = search silent
  create_with-HasUsers name (some m) = search silent

  delete_with-HasUsers : (o : Bytes ⊎ RoomMap) → Keeps HasUsers (delete_with o)
  unfolding delete_with
  delete_with-HasUsers (inl msg) = search silent
  delete_with-HasUsers (inr m) = search silent

  handle_create_room-HasUsers : (rid name : Bytes) → Keeps HasUsers (handle_create_room rid name)
  unfolding handle_create_room create_in
  handle_create_room-HasUsers rid name = search (silent, create_with-HasUsers) depth 9

  handle_delete_room-HasUsers : (name : Bytes) → Keeps HasUsers (handle_delete_room name)
  unfolding handle_delete_room delete_in
  handle_delete_room-HasUsers name = search (silent, delete_with-HasUsers) depth 7

  announce_join-HasUsers :
      (live : Sender → Bool) (rid sid : Bytes) (users sids : List Bytes)
      → Keeps HasUsers (announce_join live rid sid users sids)
  unfolding announce_join
  announce_join-HasUsers live rid sid users sids = search silent depth 7

  join_with-HasUsers :
      (live : Sender → Bool) (username sid name : Bytes) (m : RoomMap) (o : Option (RoomId × Room))
      → Keeps HasUsers (join_with live username sid name m o)
  unfolding join_with
  join_with-HasUsers live username sid name m none = search silent
  join_with-HasUsers live username sid name m (some (rid, room)) =
      search (silent, announce_join-HasUsers) depth 7

  handle_join_room-HasUsers :
      (live : Sender → Bool) (username sid name : Bytes)
      → Keeps HasUsers (handle_join_room live username sid name)
  unfolding handle_join_room join_in
  handle_join_room-HasUsers live username sid name = search (silent, join_with-HasUsers) depth 7

  leave_found-HasUsers :
      (live : Sender → Bool) (sid : Bytes) (o : Option (RoomMap × List Bytes))
      → Keeps HasUsers (leave_found live sid o)
  unfolding leave_found
  leave_found-HasUsers live sid none = Keeps-pure tt
  leave_found-HasUsers live sid (some (m, affected)) = search silent depth 7

  leave_with-HasUsers :
      (live : Sender → Bool) (username : Bytes) (o : Option StreamId)
      → Keeps HasUsers (leave_with live username o)
  unfolding leave_with
  leave_with-HasUsers live username none = search silent
  leave_with-HasUsers live username (some sid) = search (silent, leave_found-HasUsers) depth 7

  handle_leave_room-HasUsers :
      (live : Sender → Bool) (username : Bytes) → Keeps HasUsers (handle_leave_room live username)
  unfolding handle_leave_room
  handle_leave_room-HasUsers live username = search (silent, leave_with-HasUsers) depth 7

  lists-HasUsers : Keeps HasUsers handle_get_user_list × Keeps HasUsers handle_get_room_list
  unfolding handle_get_user_list handle_get_room_list
  lists-HasUsers = (search silent, search silent)

  handle_command-HasUsers :
      (out : Outside) (username random : Bytes) (cmd : TcpCommand)
      → Keeps HasUsers (handle_command out username random cmd)
  unfolding handle_command
  handle_command-HasUsers out username random (simple get_user_list) = lists-HasUsers.0
  handle_command-HasUsers out username random (simple get_room_list) = lists-HasUsers.1
  handle_command-HasUsers out username random (string create_room name) =
      handle_create_room-HasUsers random name
  handle_command-HasUsers out username random (string delete_room name) =
      handle_delete_room-HasUsers name
  handle_command-HasUsers out username random (string join_room name) =
      handle_join_room-HasUsers out.live username random name
  handle_command-HasUsers out username random (simple leave_room) =
      handle_leave_room-HasUsers out.live username
  handle_command-HasUsers out username random cmd =
      send_error_response-HasUsers (unsupported_message out cmd)

  pub handle_event-HasUsers :
      (out : Outside) (username : Bytes) (e : Event) → Keeps HasUsers (handle_event out username e)
  unfolding handle_event
  handle_event-HasUsers out username (incoming cmd random) =
      handle_command-HasUsers out username random cmd
  handle_event-HasUsers out username (outgoing cmd) = write-HasUsers cmd
  handle_event-HasUsers out username (broken e) = Keeps-fail e
