-- ===== src/Server/Tests.antt =====
-- The server at concrete users, rooms and packets.
use mathlib.Core.List.{Perm}
use facetime_v.Base.{
  Bytes, List, Result, [], any, arith, bytes_instance, contains_key, if◌then◌else◌, lookup, ltb,
  min, nat_instance, none, ok, refl, same, some, text, true, unexpected_eof, ◌++◌, ◌↔◌, ◌∷◌, ◌≡◌,
}
use facetime_v.Base.Exec.{Keeps}
use facetime_v.Protocol.Id.{create_room, join_room, hello_from_client, get_room_list}
use facetime_v.Protocol.Command.{all_read, simple, string, command}
use facetime_v.Server.State.{Room, RoomMap, World}
use facetime_v.Server.Invariant.{IsSound, HasSoundRooms}
use facetime_v.Server.Session.{
  Outside, Event, incoming, outgoing, broken, handle_command, connection,
}
use facetime_v.Server.Soundness.Tasks.{handle_command-Sound, connection-IsSound}
use facetime_v.Base.Exec.{pure, gets, ◌>>=◌}
use facetime_v.Protocol.Command.{ReceivedTcpCommand, write_to_stream}
use facetime_v.Protocol.Names.{is_blank, is_valid_name}
use facetime_v.Server.State.{write}
use facetime_v.Server.Rooms.{find_room}
use facetime_v.Server.Session.{handle_handshake, check_username, welcome}
use facetime_v.Server.Users.Handshake.{IsFreeName, handle_handshake-accepts}
use facetime_v.Server.Users.Connection.{connection-users}
use facetime_v.Server.Membership.{handle_join_room, handle_leave_room}
use facetime_v.Server.Lifetime.{handle_delete_room-handle_create_room}
use facetime_v.Server.Rooms.{handle_create_room, handle_delete_room}
use facetime_v.Server.Visit.{IsAt, handle_leave_room-handle_join_room}
use facetime_v.Server.Udp.{
  current_window, check_rate_limit, check_rate_limit, UdpHandler, ClientStats, handle_packet,
  other_addrs, learn_address,
}
use facetime_v.Server.Udp.Batch.{HasRoomInBatch, handle_packet-HasRoomInBatch}
use facetime_v.Server.Udp.Delivery.{in_flight}
use facetime_v.Server.Udp.Packet.{copies, handle_packet-delivers}
use facetime_v.Server.Udp.Limit.{accepted, accepted-InWindow}
use facetime_v.Server.Udp.Routing.{Gets, learned, other_addrs_iff, learn_address_lem}
use facetime_v.Protocol.Names.{is_blank, is_valid_name}

abbrev rid_1 : Bytes
rid_1 = 1 ∷ 1 ∷ 1 ∷ 1 ∷ []

abbrev sid_1 : Bytes
sid_1 = 0 ∷ 0 ∷ 0 ∷ 1 ∷ []

abbrev sid_2 : Bytes
sid_2 = 0 ∷ 0 ∷ 0 ∷ 2 ∷ []

abbrev sid_3 : Bytes
sid_3 = 0 ∷ 0 ∷ 0 ∷ 3 ∷ []

-- Three users, of whom the second has sent no packet yet.
abbrev den : Room
den = record {
  name = text "den";
  stream_id_to_socket_addr = (sid_1, some 9001) ∷ (sid_2, none) ∷ (sid_3, some 9003) ∷ [];
  users = text "ann" ∷ text "bob" ∷ text "cy" ∷ [];
}

abbrev rooms : RoomMap
rooms = (rid_1, den) ∷ []

rooms-IsSound : IsSound rooms
unfolding is_valid_name is_blank
rooms-IsSound = record {
  keys_distinct = (refl, tt);
  names_distinct = (refl, tt);
  named = ((refl, omega arith, refl), tt);
}

abbrev world : World
world = record {
  users = text "ann" ∷ text "bob" ∷ text "cy" ∷ [];
  room_map = rooms;
  senders = (text "ann", 1) ∷ (text "bob", 2) ∷ (text "cy", 3) ∷ [];
  current_sid = none;
  stream = record { written = []; peer_reads = all_read };
  sent = [];
}

abbrev outside : Outside
outside = record { live = λ tx. true; debug = λ cmd. text "command" }

abbrev lab_session : List Event
lab_session =
    incoming (string create_room (text "lab")) (2 ∷ 2 ∷ 2 ∷ 2 ∷ [])
    ∷ incoming (string join_room (text "lab")) (0 ∷ 0 ∷ 0 ∷ 4 ∷ [])
    ∷ outgoing (simple get_room_list)
    ∷ broken unexpected_eof
    ∷ []

handle_command-Sound_example :
    Keeps HasSoundRooms
      (handle_command outside (text "ann") rid_1 (string create_room (text "lab")))
handle_command-Sound_example =
    handle_command-Sound outside (text "ann") rid_1 (string create_room (text "lab"))

connection-IsSound_example :
    IsSound
      (connection outside 4
        (ok (command (string hello_from_client (text "dan"))))
        lab_session
        world).room_map
connection-IsSound_example =
    connection-IsSound outside 4 (ok (command (string hello_from_client (text "dan")))) lab_session
      world rooms-IsSound

abbrev hello_dan : Result ReceivedTcpCommand
hello_dan = ok (command (string hello_from_client (text "dan")))

connection-users_example :
    (connection outside 4 hello_dan lab_session world).users
    ≡ text "ann" ∷ text "bob" ∷ text "cy" ∷ []
connection-users_example = connection-users outside 4 hello_dan lab_session world

dan_enters : (handle_handshake hello_dan world).0 ≡ ok (some (text "dan"))
unfolding handle_handshake check_username welcome is_valid_name ◌>>=◌ gets pure write
    write_to_stream
dan_enters = refl

handle_handshake-accepts_example :
    (hello_dan ≡ ok (command (string hello_from_client (text "dan"))))
    × IsFreeName (text "ann" ∷ text "bob" ∷ text "cy" ∷ []) (text "dan")
handle_handshake-accepts_example = handle_handshake-accepts hello_dan (text "dan") world dan_enters

abbrev sid_4 : Bytes
sid_4 = 0 ∷ 0 ∷ 0 ∷ 4 ∷ []

-- A member's channel is closed, so the announcement fails half way.
handle_leave_room-handle_join_room_example :
    IsAt rooms none
      (handle_leave_room
        (ltb 1)
        (text "dan")
        (handle_join_room (ltb 1) (text "dan") sid_4 (text "den") world).1).1
handle_leave_room-handle_join_room_example =
    handle_leave_room-handle_join_room (ltb 1) (text "dan") sid_4 (text "den") rid_1 den world
      (unfold is_blank in refl) (refl, tt) ((unfold contains_key lookup in refl), tt)
      (unfold find_room in refl) refl

handle_delete_room-handle_create_room_example :
    IsAt rooms none
      (handle_delete_room
        (text "lab")
        (handle_create_room (2 ∷ 2 ∷ 2 ∷ 2 ∷ []) (text "lab") world).1).1
handle_delete_room-handle_create_room_example =
    handle_delete_room-handle_create_room (2 ∷ 2 ∷ 2 ∷ 2 ∷ []) (text "lab") world
      (unfold is_valid_name is_blank in (refl, omega arith, refl)) refl refl

abbrev handler : UdpHandler
handler = record {
  client_stats = [];
  packet_batch = record { packets = []; last_flush = 0 };
  stats = record { packets_received = 0; packets_forwarded = 0; packets_dropped = 0 };
  has_socket = true;
  room_map = rooms;
  handed_over = [];
}

handler-HasRoomInBatch : HasRoomInBatch handler
handler-HasRoomInBatch = record { socket = refl; below = omega arith }

-- Three bytes of the second stream.
abbrev packet : Bytes
packet = rid_1 ++ (sid_2 ++ (7 ∷ 8 ∷ 9 ∷ []))

copies-packet :
    copies 5 packet 9002 handler
    ≡ (sid_2 ++ (7 ∷ 8 ∷ 9 ∷ []), 9001) ∷ (sid_2 ++ (7 ∷ 8 ∷ 9 ∷ []), 9003) ∷ []
unfolding check_rate_limit other_addrs current_window lookup
copies-packet = refl

handle_packet-HasRoomInBatch_example :
    HasRoomInBatch (handle_packet (λ d. true) 5 packet 9002 handler)
handle_packet-HasRoomInBatch_example =
    handle_packet-HasRoomInBatch (λ d. true) 5 packet 9002 handler handler-HasRoomInBatch

handle_packet-delivers_example :
    Perm
      (in_flight (handle_packet (λ d. true) 5 packet 9002 handler))
      (in_flight handler ++ copies 5 packet 9002 handler)
handle_packet-delivers_example =
    handle_packet-delivers (λ d. true) 5 packet 9002 handler handler-HasRoomInBatch

abbrev nearly_used : ClientStats
nearly_used = record { last_seen = 40; packet_count = 4998; rate_window_start = 10 }

-- Two of three packets are still let through.
accepted-InWindow_example : accepted 9001 (50 ∷ 60 ∷ 70 ∷ []) ((9001, nearly_used) ∷ []) ≡ min 3 2
accepted-InWindow_example =
    accepted-InWindow 9001 10 4998 (50 ∷ 60 ∷ 70 ∷ []) ((9001, nearly_used) ∷ [])
      (nearly_used, (unfold lookup in refl), refl, refl) (ground arith)

other_addrs_iff_example :
    (any (λ b. same b 9001) (other_addrs sid_2 den.stream_id_to_socket_addr) ≡ true)
    ↔ Gets 9001 sid_2 den.stream_id_to_socket_addr
other_addrs_iff_example =
    other_addrs_iff 9001 sid_2 den.stream_id_to_socket_addr (refl, (refl, (refl, tt)))

learn_address_lem_example : lookup sid_2 (learn_address 9002 sid_2 den).stream_id_to_socket_addr ≡ (
    if same sid_2 sid_2
    then learned 9002 (lookup sid_2 den.stream_id_to_socket_addr)
    else lookup sid_2 den.stream_id_to_socket_addr)
learn_address_lem_example = learn_address_lem 9002 sid_2 sid_2 den
