-- ===== src/Server/Keys.antt =====
-- What inserting and removing an entry does to the keys of a map and to the names of its rooms.
use facetime_v.Base.{
  Bool, Bytes, Distinct, Map, [], any, arith, bytes_instance, false, insert, keys, nat_instance,
  refl, remove, same, same_iff, same_symm, some, ◌∷◌, ◌≡◌,
}
use facetime_v.Protocol.Names.{RoomId}
use facetime_v.Server.State.{Room, RoomMap}
use facetime_v.Server.Rooms.{find_room, room_names}

module _ {V : Type 0} (p : Bytes → Bool) where
  any-keys-insert :
      (k : Bytes) (v : V) (m : Map Bytes V)
      → any p (keys m) ≡ false
      → p k ≡ false
      → any p (keys (insert k v m)) ≡ false
  unfolding insert
  any-keys-insert k v [] h hk = ground arith
  any-keys-insert k v ((j, w) ∷ m) h hk = ground (arith, any-keys-insert k v m)

  any-keys-remove :
      (k : Bytes) (m : Map Bytes V) → any p (keys m) ≡ false → any p (keys (remove k m)) ≡ false
  unfolding remove
  any-keys-remove k [] h = refl
  any-keys-remove k ((j, w) ∷ m) h = ground (arith, any-keys-remove k m)

module _ {V : Type 0} where
  pub Distinct-keys-insert :
      (k : Bytes) (v : V) (m : Map Bytes V) → Distinct (keys m) → Distinct (keys (insert k v m))
  unfolding insert
  Distinct-keys-insert k v [] h = (refl, tt)
  Distinct-keys-insert k v ((j, w) ∷ m) h =
      ground
        (arith, any-keys-insert (λ y. same y j) k v m, same_symm j k, Distinct-keys-insert k v m)

  pub Distinct-keys-remove :
      (k : Bytes) (m : Map Bytes V) → Distinct (keys m) → Distinct (keys (remove k m))
  unfolding remove
  Distinct-keys-remove k [] h = tt
  Distinct-keys-remove k ((j, w) ∷ m) h =
      ground (arith, any-keys-remove (λ y. same y j) k m, Distinct-keys-remove k m)

module _ (p : Bytes → Bool) where
  any-names-insert :
      (k : RoomId) (r : Room) (m : RoomMap)
      → any p (room_names m) ≡ false
      → p r.name ≡ false
      → any p (room_names (insert k r m)) ≡ false
  unfolding insert
  any-names-insert k r [] h hr = ground arith
  any-names-insert k r ((j, w) ∷ m) h hr = ground (arith, any-names-insert k r m)

  any-names-remove :
      (k : RoomId) (m : RoomMap)
      → any p (room_names m) ≡ false
      → any p (room_names (remove k m)) ≡ false
  unfolding remove
  any-names-remove k [] h = refl
  any-names-remove k ((j, w) ∷ m) h = ground (arith, any-names-remove k m)

  find_room-key :
      (n : Bytes) (m : RoomMap) (rid : RoomId) (room : Room)
      → find_room n m ≡ some (rid, room)
      → any p (keys m) ≡ false
      → p rid ≡ false
  unfolding find_room
  find_room-key n [] rid room h hk = cc
  find_room-key n ((j, w) ∷ m) rid room h hk = ground (arith, find_room-key n m rid room)

pub Distinct-names-insert :
    (k : RoomId) (r : Room) (m : RoomMap)
    → Distinct (room_names m)
    → any (λ name. same name r.name) (room_names m) ≡ false
    → Distinct (room_names (insert k r m))
unfolding insert
Distinct-names-insert k r [] h new = (refl, tt)
Distinct-names-insert k r ((j, w) ∷ m) h new = ground (
  arith,
  any-names-insert (λ y. same y w.name) k r m,
  same_symm w.name r.name,
  Distinct-names-insert k r m,
)

pub Distinct-names-remove :
    (k : RoomId) (m : RoomMap) → Distinct (room_names m) → Distinct (room_names (remove k m))
unfolding remove
Distinct-names-remove k [] h = tt
Distinct-names-remove k ((j, w) ∷ m) h =
    ground (arith, any-names-remove (λ y. same y w.name) k m, Distinct-names-remove k m)

-- Writing back a room that was found, under its name, changes no name.
pub names-insert_found :
    (n : Bytes) (m : RoomMap) (rid : RoomId) (room new : Room)
    → Distinct (keys m)
    → find_room n m ≡ some (rid, room)
    → new.name ≡ room.name
    → room_names (insert rid new m) ≡ room_names m
unfolding insert find_room
names-insert_found n [] rid room new d h e = cc
names-insert_found n ((j, w) ∷ m) rid room new d h e = ground (
  arith,
  same_iff j rid,
  find_room-key (λ y. same y j) n m rid room,
  same_symm rid j,
  names-insert_found n m rid room new,
)
