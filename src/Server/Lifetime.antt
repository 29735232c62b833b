-- ===== src/Server/Lifetime.antt =====
-- Creating a room and deleting it again.
use facetime_v.Base.{
  Bool-cases, Bytes, [], any, ap, arith, bytes_instance, failed_to_send, false, inl, inr, insert,
  keys, length, ltb, nat_instance, refl, remove, same, same_refl, some, ◌∙◌, ◌∷◌, ◌≡◌,
}
use facetime_v.Base.Exec.{Keeps-map_err, gets, ◌>>=◌}
use facetime_v.Protocol.Id.{create_room_success, delete_room_success}
use facetime_v.Protocol.Names.{RoomId, is_blank, max_name_length}
use facetime_v.Protocol.Command.{simple}
use facetime_v.Server.State.{Room, new_room, World, RoomMap, write, set_room_map}
use facetime_v.Server.Rooms.{
  find_room, room_names, insert_room, create_with, create_in, handle_create_room, delete_found,
  delete_with, delete_in, handle_delete_room,
}
use facetime_v.Server.Invariant.{IsRoomName}
use facetime_v.Server.Visit.{IsAt, write-IsAt}

-- Neither the identifier nor the name is in use.
record IsNew (rid : RoomId) (name : Bytes) (m : RoomMap) : Type 0 where
  new_id : any (λ k. same k rid) (keys m) ≡ false
  new_name : any (λ n. same n name) (room_names m) ≡ false

find_room-insert :
    (rid : RoomId) (name : Bytes) (m : RoomMap)
    → IsNew rid name m
    → find_room name (insert rid (new_room name) m) ≡ some (rid, new_room name)
unfolding find_room insert
find_room-insert rid name [] h = ground (arith, same_refl name)
find_room-insert rid name ((j, r) ∷ m) h = elim (Bool-cases (same j rid)) [
  | inl e ↦ absurd (ground (arith, e, h.new_id))
  | inr e ↦ elim (Bool-cases (same r.name name)) [
    | inl e' ↦ absurd (ground (arith, e', h.new_name))
    | inr e' ↦ rw e (
        rw e' (
          find_room-insert rid name m (record {
            new_id = ground (arith, e, h.new_id);
            new_name = ground (arith, e', h.new_name);
          })))
  ]
]

remove-insert_new :
    (rid : RoomId) (room : Room) (m : RoomMap)
    → any (λ k. same k rid) (keys m) ≡ false
    → remove rid (insert rid room m) ≡ m
unfolding remove insert
remove-insert_new rid room [] h = ground (arith, same_refl rid)
remove-insert_new rid room ((j, r) ∷ m) h = elim (Bool-cases (same j rid)) [
  | inl e ↦ absurd (ground (arith, e, h))
  | inr e ↦ rw e (
      rw e (ap (λ (t : RoomMap). (j, r) ∷ t) (remove-insert_new rid room m (ground (arith, e, h)))))
]

create-IsAt :
    (rid : RoomId) (name : Bytes) (w : World)
    → IsRoomName name
    → any (λ n. same n name) (room_names w.room_map) ≡ false
    → IsAt (insert rid (new_room name) w.room_map) w.current_sid (handle_create_room rid name w).1
unfolding handle_create_room create_in create_with insert_room set_room_map ◌>>=◌ gets
create-IsAt rid name w (valid, short, named) h =
    let fits : ltb max_name_length (length name) ≡ false = ground arith in
    rw named (
      rw fits (
        rw valid (
          rw h (
            (Keeps-map_err failed_to_send (write (simple create_room_success)) (
                write-IsAt (insert rid (new_room name) w.room_map) w.current_sid
                  (simple create_room_success))).at
              _ (refl, refl)))))

delete-IsAt :
    (name : Bytes) (m' : RoomMap) (w : World)
    → is_blank name ≡ false
    → delete_found name w.room_map (find_room name w.room_map) ≡ inr m'
    → IsAt m' w.current_sid (handle_delete_room name w).1
unfolding handle_delete_room delete_in delete_with set_room_map ◌>>=◌ gets
delete-IsAt name m' w named h = rw named (
    rw h (
      (Keeps-map_err failed_to_send (write (simple delete_room_success))
          (write-IsAt m' w.current_sid (simple delete_room_success))).at
        _ (refl, refl)))

-- A room that is created, with a name that passes the checks and an identifier and a name that are
-- not in use, is deleted by a request with that name: the rooms are then what they were, whether or
-- not the answers could be written.
pub handle_delete_room-handle_create_room :
    (rid : RoomId) (name : Bytes) (w : World)
    → IsRoomName name
    → any (λ k. same k rid) (keys w.room_map) ≡ false
    → any (λ n. same n name) (room_names w.room_map) ≡ false
    → IsAt w.room_map w.current_sid (handle_delete_room name (handle_create_room rid name w).1).1
handle_delete_room-handle_create_room rid name w good new_id new_name =
    let (at_map, at_sid) = create-IsAt rid name w good new_name in
    let created = (handle_create_room rid name w).1 in
    let found =
      find_room-insert rid name w.room_map (record { new_id = new_id; new_name = new_name }) in
    let gone : delete_found name created.room_map (find_room name created.room_map)
        ≡ inr w.room_map =
      rw at_map (rw found (rw (remove-insert_new rid (new_room name) w.room_map new_id) refl)) in
    let (rooms_back, sid_kept) = delete-IsAt name w.room_map created good.2 gone in
    (rooms_back, sid_kept ∙ at_sid)
