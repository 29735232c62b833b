-- ===== src/Server/Visit.antt =====
-- Entering a room and leaving it again.
use facetime_v.Base.{
  All, Bool, Bool-cases, Bytes, Distinct, List, Map, Option, Result-cases, [], any, ap, arith,
  bytes_instance, contains_key, false, inl, inr, insert, keys, lookup, lookup-insert, nat_instance,
  none, not, refl, remove, retain, same, same_iff, same_refl, some, true, ℕ, ◌++◌, ◌∷◌, ◌≡◌,
}
use facetime_v.Base.Exec.{
  Keeps, Keeps-gets_bind, Keeps-pure, Keeps-for_each, keeps_rules, gets, ◌>>=◌,
}
use facetime_v.Protocol.Names.{RoomId, StreamId, is_blank}
use facetime_v.Protocol.Command.{TcpCommand, write_to_stream}
use facetime_v.Server.State.{
  Room, World, RoomMap, Sender, write, send, set_room_map, set_current_sid,
}
use facetime_v.Server.Rooms.{find_room}
use facetime_v.Server.Membership.{
  notify, joined, left, left_command, send_to, notify_ignoring, ignore_err, announce_join,
  join_with, join_in, handle_join_room, leave_found, leave_with, handle_leave_room, leave_first,
}

-- A name that was added at the end and was not there before is what is taken off.
pub retain-added :
    (us : List Bytes) (u : Bytes)
    → any (λ user. same user u) us ≡ false
    → retain (λ user. not (same user u)) (us ++ u ∷ []) ≡ us
retain-added [] u h = ground (arith, same_refl u)
retain-added (v ∷ us) u h = ground (arith, h, retain-added us u)

-- The stream is in no room, and the user is not in the room that it enters.
abbrev pub IsFresh : StreamId → RoomMap → Type 0
IsFresh sid m =
    All (λ (e : RoomId × Room). contains_key sid (e.1).stream_id_to_socket_addr ≡ false) m

contains_key-insert :
    (sid : StreamId) (v : Option ℕ) (m : Map StreamId (Option ℕ))
    → contains_key sid (insert sid v m) ≡ true
unfolding contains_key
contains_key-insert sid v m = ground (arith, lookup-insert sid sid v m, same_refl sid)

remove-insert :
    (sid : StreamId) (v : Option ℕ) (m : Map StreamId (Option ℕ))
    → contains_key sid m ≡ false
    → remove sid (insert sid v m) ≡ m
unfolding remove insert contains_key lookup
remove-insert sid v [] h = ground (arith, same_refl sid)
remove-insert sid v ((k, w) ∷ m) h = elim (Bool-cases (same k sid)) [
  | inl e ↦ cc (rw (e, contains_key) at h)
  | inr e ↦ rw e (
      rw e (
        ap (λ (r : Map StreamId (Option ℕ)). (k, w) ∷ r)
          (remove-insert sid v m (rw (e, contains_key) at h))))
]

left-joined :
    (sid username : Bytes) (room : Room)
    → contains_key sid room.stream_id_to_socket_addr ≡ false
    → any (λ user. same user username) room.users ≡ false
    → left sid username (joined sid username room) ≡ room
left-joined sid username room h hu =
    rw (remove-insert sid none room.stream_id_to_socket_addr h, retain-added room.users username hu)
      refl

found_apart :
    (name : Bytes) (j rid : RoomId) (room : Room) (m : RoomMap)
    → any (λ k. same k j) (keys m) ≡ false
    → find_room name m ≡ some (rid, room)
    → same j rid ≡ false
unfolding find_room
found_apart name j rid room [] h e = cc
found_apart name j rid room ((k, r) ∷ m) h e = elim (Bool-cases (same r.name name)) [
  | inl hit ↦
      let e' : k ≡ rid = ground (arith, hit, e) in
      rw (← e') (ground (arith, h, same_iff k j, same_iff j k))
  | inr miss ↦ found_apart name j rid room m (ground (arith, h)) (rw miss at e)
]

leave_first-joined :
    (name sid username : Bytes) (rid : RoomId) (room : Room) (m : RoomMap)
    → Distinct (keys m)
    → IsFresh sid m
    → find_room name m ≡ some (rid, room)
    → any (λ user. same user username) room.users ≡ false
    → leave_first sid username (insert rid (joined sid username room) m) ≡ some (m, room.users)
unfolding find_room leave_first insert
leave_first-joined name sid username rid room [] d f e hu = cc
leave_first-joined name sid username rid room ((j, r) ∷ m) d f e hu =
    elim (Bool-cases (same r.name name)) [
      | inl hit ↦
          let ej : j ≡ rid = ground (arith, hit, e) in
          let er : r ≡ room = ground (arith, hit, e) in
          let fresh = rw er at f.0 in
          let there = contains_key-insert sid none room.stream_id_to_socket_addr in
          rw (ej, er, same_refl rid)
            (rw there (
              rw (left-joined sid username room fresh hu, retain-added room.users username hu)
                refl))
      | inr miss ↦
          let apart = found_apart name j rid room m d.0 (rw miss at e) in
          let later = leave_first-joined name sid username rid room m d.1 f.1 (rw miss at e) hu in
          rw apart (rw f.0 (rw later refl))
    ]

module _ (m : RoomMap) (c : Option StreamId) where
  -- The rooms and the connection's stream are these.
  abbrev pub IsAt : World → Type 0
  IsAt w = (w.room_map ≡ m) × (w.current_sid ≡ c)

  pub write-IsAt : (cmd : TcpCommand) → Keeps IsAt (write cmd)
  unfolding write
  write-IsAt cmd = record {
    at = λ w h. elim (Result-cases (write_to_stream cmd w.stream)) [
      | inl (s, e) ↦ rw (e, write) h
      | inr (x, e) ↦ rw (e, write) h
    ];
  }

  send-IsAt :
      (live : Sender → Bool) (tx : Sender) (cmd : TcpCommand) → Keeps IsAt (send live tx cmd)
  unfolding send
  send-IsAt live tx cmd = record {
    at = λ w h. elim (Bool-cases (live tx)) [ inl e ↦ rw (e, send) h | inr e ↦ rw (e, send) h ];
  }

  send_to-IsAt :
      (live : Sender → Bool) (cmd : TcpCommand) (o : Option Sender)
      → Keeps IsAt (send_to live cmd o)
  unfolding send_to
  send_to-IsAt live cmd none = Keeps-pure tt
  send_to-IsAt live cmd (some tx) = send-IsAt live tx cmd

  notify-IsAt :
      (live : Sender → Bool) (cmd : TcpCommand) (user : Bytes) → Keeps IsAt (notify live cmd user)
  unfolding notify
  notify-IsAt live cmd user =
      Keeps-gets_bind _ _ (λ w h. (send_to-IsAt live cmd (lookup user w.senders)).at w h)

  notify_ignoring-IsAt :
      (live : Sender → Bool) (cmd : TcpCommand) (user : Bytes)
      → Keeps IsAt (notify_ignoring live cmd user)
  unfolding notify_ignoring ignore_err
  notify_ignoring-IsAt live cmd user = record { at = λ w h. (notify-IsAt live cmd user).at w h }

  announce_join-IsAt :
      (live : Sender → Bool) (rid sid : Bytes) (users sids : List Bytes)
      → Keeps IsAt (announce_join live rid sid users sids)
  unfolding announce_join
  announce_join-IsAt live rid sid users sids = search (keeps_rules, write-IsAt, notify-IsAt) depth 7

join-IsAt :
    (live : Sender → Bool) (username sid name : Bytes) (rid : RoomId) (room : Room) (w : World)
    → is_blank name ≡ false
    → find_room name w.room_map ≡ some (rid, room)
    → IsAt
        (insert rid (joined sid username room) w.room_map)
        (some sid)
        (handle_join_room live username sid name w).1
unfolding handle_join_room join_in join_with set_room_map set_current_sid ◌>>=◌ gets
join-IsAt live username sid name rid room w named found = rw named (
    rw found (
      (announce_join-IsAt (insert rid (joined sid username room) w.room_map) (some sid) live rid sid
          room.users (keys room.stream_id_to_socket_addr)).at
        _ (refl, refl)))

leave_found-IsAt :
    (live : Sender → Bool) (sid : StreamId) (m : RoomMap) (affected : List Bytes) (w : World)
    → IsAt m none (leave_found live sid (some (m, affected)) w).1
unfolding leave_found set_room_map set_current_sid ◌>>=◌
leave_found-IsAt live sid m affected w =
    (Keeps-for_each affected (notify_ignoring live (left_command sid))
        (notify_ignoring-IsAt m none live (left_command sid))).at
      _ (refl, refl)

-- A user that enters a room with a fresh stream and leaves again leaves every room as it was and has
-- no stream any more, whether or not the announcements could be written: the streams of the room, its
-- users and their order, and all other rooms. Identifiers of rooms are distinct, and the user was not
-- in that room before.
pub handle_leave_room-handle_join_room :
    (live : Sender → Bool) (username sid name : Bytes) (rid : RoomId) (room : Room) (w : World)
    → is_blank name ≡ false
    → Distinct (keys w.room_map)
    → IsFresh sid w.room_map
    → find_room name w.room_map ≡ some (rid, room)
    → any (λ user. same user username) room.users ≡ false
    → IsAt w.room_map none
        (handle_leave_room live username (handle_join_room live username sid name w).1).1
unfolding handle_leave_room leave_with ◌>>=◌ gets
handle_leave_room-handle_join_room live username sid name rid room w named distinct fresh found
      new =
    let (at_map, at_sid) = join-IsAt live username sid name rid room w named found in
    let back = leave_first-joined name sid username rid room w.room_map distinct fresh found new in
    rw (at_sid, at_map, back)
      (leave_found-IsAt live sid w.room_map room.users
        (handle_join_room live username sid name w).1)
