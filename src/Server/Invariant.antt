-- ===== src/Server/Invariant.antt =====
-- What every task of the server keeps true of the rooms, whatever its client sends, and whether the
-- handlers succeed or fail.
use facetime_v.Base.{
  All, Bool-cases, Bytes, Distinct, List, Option-cases, [], any, arith, bytes_instance, false, inl,
  inr, insert, keys, length, nat_instance, refl, remove, same, some, true, ◌∷◌, ◌≡◌, ◌≤◌,
}
use facetime_v.Protocol.Names.{RoomId, max_name_length, is_valid_name, is_blank}
use facetime_v.Server.State.{Room, RoomMap, World, new_room}
use facetime_v.Server.Rooms.{find_room, room_names, insert_room}
use facetime_v.Server.Membership.{joined, leave_first}
use facetime_v.Server.Keys.{
  Distinct-keys-insert, Distinct-keys-remove, Distinct-names-insert, Distinct-names-remove,
  names-insert_found,
}

abbrev pub IsRoomName : Bytes → Type 0
IsRoomName name =
    (is_valid_name name ≡ true) × (length name ≤ max_name_length) × (is_blank name ≡ false)

-- No two rooms have one identifier or one name, and every name passed the checks.
pub record IsSound (m : RoomMap) : Type 0 where
  pub keys_distinct : Distinct (keys m)
  pub names_distinct : Distinct (room_names m)
  pub named : All IsRoomName (room_names m)

abbrev pub HasSoundRooms : World → Type 0
HasSoundRooms w = IsSound w.room_map

named-insert :
    (k : RoomId) (r : Room) (m : RoomMap)
    → IsRoomName r.name
    → All IsRoomName (room_names m)
    → All IsRoomName (room_names (insert k r m))
unfolding insert
named-insert k r [] hr h = (hr, tt)
named-insert k r ((j, w) ∷ m) hr h = ground (arith, named-insert k r m hr h.1)

named-remove :
    (k : RoomId) (m : RoomMap)
    → All IsRoomName (room_names m)
    → All IsRoomName (room_names (remove k m))
unfolding remove
named-remove k [] h = tt
named-remove k ((j, w) ∷ m) h = ground (arith, named-remove k m h.1)

pub insert_room-IsSound :
    (rid : RoomId) (name : Bytes) (m m' : RoomMap)
    → IsRoomName name
    → IsSound m
    → insert_room rid name m ≡ some m'
    → IsSound m'
unfolding insert_room
insert_room-IsSound rid name m m' hn s h =
    elim (Bool-cases (any (λ n. same n name) (room_names m))) [
      | inl taken ↦ ground arith
      | inr free ↦
          let e : insert rid (new_room name) m ≡ m' = ground arith in
          rw (← e) (record {
            keys_distinct = Distinct-keys-insert rid (new_room name) m s.keys_distinct;
            names_distinct = Distinct-names-insert rid (new_room name) m s.names_distinct free;
            named = named-insert rid (new_room name) m hn s.named;
          })
    ]

pub remove-IsSound : (rid : RoomId) (m : RoomMap) → IsSound m → IsSound (remove rid m)
remove-IsSound rid m s = record {
  keys_distinct = Distinct-keys-remove rid m s.keys_distinct;
  names_distinct = Distinct-names-remove rid m s.names_distinct;
  named = named-remove rid m s.named;
}

pub joined-IsSound :
    (name username sid : Bytes) (m : RoomMap) (rid : RoomId) (room : Room)
    → find_room name m ≡ some (rid, room)
    → IsSound m
    → IsSound (insert rid (joined sid username room) m)
joined-IsSound name username sid m rid room h s =
    let e = names-insert_found name m rid room (joined sid username room) s.keys_distinct h refl in
    record {
      keys_distinct = Distinct-keys-insert rid (joined sid username room) m s.keys_distinct;
      names_distinct = rw e s.names_distinct;
      named = rw e s.named;
    }

-- Leaving changes no identifier and no name.
leave_first_same :
    (sid username : Bytes) (m m' : RoomMap) (us : List Bytes)
    → leave_first sid username m ≡ some (m', us)
    → (keys m' ≡ keys m) × (room_names m' ≡ room_names m)
unfolding leave_first
leave_first_same sid username [] m' us h = cc
leave_first_same sid username ((rid, room) ∷ m) m' us h =
    elim (Option-cases (leave_first sid username m)) [
      | inl e ↦ ground (arith, e)
      | inr ((t, vs), e) ↦ ground (arith, e, leave_first_same sid username m t vs e)
    ]

pub leave_first-IsSound :
    (sid username : Bytes) (m m' : RoomMap) (us : List Bytes)
    → leave_first sid username m ≡ some (m', us)
    → IsSound m
    → IsSound m'
leave_first-IsSound sid username m m' us h s =
    let (ek, en) = leave_first_same sid username m m' us h in
    record {
      keys_distinct = rw ek s.keys_distinct;
      names_distinct = rw en s.names_distinct;
      named = rw en s.named;
    }
