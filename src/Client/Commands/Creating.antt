-- ===== src/Client/Commands/Creating.antt =====
-- What the handlers of tcp_command_handler.rs answer to the requests of pre_call_interface.rs that
-- name a room, and what the client makes of it.
use mathlib.Core.Path.{subst}
use facetime_v.Base.{
  Bool, Bool-cases, Bytes, Option, Result, [], any, arith, bytes_instance, false, inl, inr, insert,
  leb, length, ltb, ltb→le, nat_instance, none, not, ok, refl, same, some, sym, text, true, ◌&&◌,
  ◌++◌, ◌∙◌, ◌∷◌, ◌≡◌, ◌≤◌, ◌⊎◌,
}
use facetime_v.Base.Exec.{map_err, ◌>>=◌}
use facetime_v.Protocol.Id.{TcpCommandId, error_response, create_room_success, get_payload_type}
use facetime_v.Protocol.Names.{RoomId, is_valid_name, is_blank, max_name_length}
use facetime_v.Protocol.Utf8.{from_utf8}
use facetime_v.Protocol.Command.{simple, string}
use facetime_v.Protocol.RoundTrip.{IsText}
use facetime_v.Server.State.{World, RoomMap, new_room, set_room_map}
use facetime_v.Server.Rooms.{
  room_names, handle_create_room, create_in, create_with, insert_room, exists_message,
}
use facetime_v.Server.Session.{Outside, handle_command}
use facetime_v.Client.Commands.Served.{IsOpen, against-ask, idle, against}
use facetime_v.Client.Commands.Exchange.{
  Client, note, created, create_room, create_answer, show, Client, note, show, create_room,
  create_answer, created,
}
use facetime_v.Client.Commands.Replies.{
  RefusesSomehow, Says, IsMessage, write_reply-Says, write_reply-rooms, refuses, quoted-IsMessage,
}

exists_message-IsMessage :
    (name : Bytes) → IsText name → length name ≤ 15 → IsMessage (exists_message name)
exists_message-IsMessage name h le =
    quoted-IsMessage (text "Room '") name (text "' already exists") (unfold from_utf8 in refl) h
      (unfold from_utf8 in refl) (omega arith)

abbrev pub Creates : RoomId → Bytes → RoomMap → World → Type 0
Creates rid name m w =
    Says (simple create_room_success) w × (w.room_map ≡ insert rid (new_room name) m)

-- A name of 1 to 15 bytes, not blank, in the permitted characters, and of no room yet.
abbrev pub can_create : Bytes → RoomMap → Bool
can_create name m =
    not (is_blank name)
    && leb (length name) 15
    && is_valid_name name
    && not (any (λ other. same other name) (room_names m))

-- A permitted room is made and this is said, or else an error is said and nothing is made.
abbrev pub CreatesOrRefuses : RoomId → Bytes → RoomMap → World → Type 0
CreatesOrRefuses rid name m w =
    ((can_create name m ≡ true) × Creates rid name m w)
    ⊎ ((can_create name m ≡ false) × RefusesSomehow m w)

insert_room-some :
    (rid name : Bytes) (m m' : RoomMap)
    → insert_room rid name m ≡ some m'
    → m' ≡ insert rid (new_room name) m
unfolding insert_room
insert_room-some rid name m m' e = ground arith

insert_room-none :
    (rid name : Bytes) (m : RoomMap)
    → insert_room rid name m ≡ none
    → any (λ other. same other name) (room_names m) ≡ true
unfolding insert_room
insert_room-none rid name m e = ground arith

insert_room-free :
    (rid name : Bytes) (m m' : RoomMap)
    → insert_room rid name m ≡ some m'
    → any (λ other. same other name) (room_names m) ≡ false
unfolding insert_room
insert_room-free rid name m m' e = ground arith

create_with-outcome :
    (rid name : Bytes) (w : World) (o : Option RoomMap)
    → can_create name w.room_map ≡ not (any (λ other. same other name) (room_names w.room_map))
    → insert_room rid name w.room_map ≡ o
    → IsText name
    → length name ≤ 15
    → CreatesOrRefuses rid name w.room_map (create_with name o (record w { stream = idle })).1
unfolding create_with map_err ◌>>=◌ set_room_map
create_with-outcome rid name w none k e h le = inr (
  k ∙ (rw (insert_room-none rid name w.room_map e) refl),
  (exists_message name, refuses (exists_message name) w (exists_message-IsMessage name h le)),
)
create_with-outcome rid name w (some m) k e h le = inl (
  k ∙ (rw (insert_room-free rid name w.room_map m e) refl),
  (
    write_reply-Says (simple create_room_success) (record w { room_map = m })
        (unfold get_payload_type in refl) tt,
    write_reply-rooms (simple create_room_success) (record w { room_map = m })
          (unfold get_payload_type in refl) tt
        ∙ insert_room-some rid name w.room_map m e,
  ),
)

handle_create_room-outcome :
    (rid name : Bytes) (w : World)
    → IsText name
    → CreatesOrRefuses rid name w.room_map
        (handle_create_room rid name (record w { stream = idle })).1
unfolding handle_create_room create_in ◌>>=◌ create_with
handle_create_room-outcome rid name w h = elim (Bool-cases (is_blank name)) [
  | inl b ↦ inr (ground (arith, b), rw b (_, refuses _ w (unfold from_utf8 in (refl, omega arith))))
  | inr b ↦ elim (Bool-cases (ltb max_name_length (length name))) [
    | inl l ↦
        inr (
          ground (arith, b, l),
          rw (b, l) (_, refuses _ w (unfold from_utf8 in (refl, omega arith))),
        )
    | inr l ↦ elim (Bool-cases (is_valid_name name)) [
      | inl v ↦
          let e : handle_create_room rid name (record w { stream = idle })
              ≡ create_with name (insert_room rid name w.room_map) (record w { stream = idle }) =
            rw (b, l, v) refl in
          rw e (
            create_with-outcome rid name w (insert_room rid name w.room_map)
              (ground (arith, b, l, v)) refl h (ltb→le max_name_length (length name) l))
      | inr v ↦ inr (
        ground (arith, b, l, v),
        rw (b, l, v) (_, refuses _ w (unfold from_utf8 in (refl, omega arith))),
      )
    ]
  ]
]

-- What the client prints of the room that it asked for, and what becomes of the server's rooms: the
-- message is the error that the server wrote.
abbrev pub CreatedOrNoted :
    RoomId → Bytes → Client → World → (Result (Unit {0}) × Client) × World → Type 0
CreatedOrNoted rid name c w ((r, c'), w') =
    (r ≡ ok tt)
    × (((can_create name w.room_map ≡ true)
          × (c'.shown ≡ c.shown ++ created name)
          × (w'.room_map ≡ insert rid (new_room name) w.room_map))
        ⊎ ((can_create name w.room_map ≡ false)
            × (msg : Bytes) × Says (string error_response msg) w'
            × (c'.shown ≡ c.shown ++ note msg ∷ [])
            × (w'.room_map ≡ w.room_map)))

-- A client asks the server for a room, with a name that fits into a command, over a connection on
-- which nothing waits and both ends can write: the request does not fail. If the name has 1 to 15
-- bytes, is not blank, uses the permitted characters and is the name of no room, the client prints that
-- the room is made, and the server has made it under the new identifier. Otherwise the client prints
-- exactly the error that the server has written, and the server's rooms are as they were.
pub create_room-against :
    (outside : Outside) (username rid name : Bytes) (c : Client) (w : World)
    → IsText name
    → length name ≤ 255
    → IsOpen c w
    → CreatedOrNoted rid name c w (against outside username rid (create_room name) c w)
unfolding create_room create_answer show handle_command
create_room-against outside username rid name c w h le linked =
    let asked =
      against-ask outside username rid (text "create_room") (string TcpCommandId.create_room name)
        (create_answer name) c w (unfold get_payload_type in (refl, h)) le in
    elim (handle_create_room-outcome rid name w h) [
      | inl (can, (says, made)) ↦
          let (q, e) = asked (simple create_room_success) [] linked says.reads in
          subst (CreatedOrNoted rid name c w) (sym e) (refl, inl (can, refl, made))
      | inr (cannot, (msg, (says, same_rooms))) ↦
          let (q, e) = asked (string error_response msg) [] linked says.reads in
          subst (CreatedOrNoted rid name c w) (sym e)
            (refl, inr (cannot, msg, says, refl, same_rooms))
    ]
