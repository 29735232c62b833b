-- ===== src/Client/Call/Members.antt =====
-- call_interface.rs: which streams the map of frames has, as the server's commands say it.
use facetime_v.Base.{
  Bool, Bool-cases, Bytes, List, Result, [], ap, arith, bytes_instance, contains_key, err, false,
  if◌then◌else◌, inl, inr, insert, length, lookup-insert, lookup-remove, nat_instance, none, ok,
  refl, remove, same, same_iff, true, ◌==◌, ◌∙◌, ◌∷◌, ◌≡◌,
}
use facetime_v.Protocol.Id.{other_user_joined_room, other_user_left_room}
use facetime_v.Protocol.Names.{StreamId}
use facetime_v.Protocol.Command.{TcpCommand, ReceivedTcpCommand, eof, command, bytes}
use facetime_v.Client.Call.{FrameMap, handle_tcp_command, tcp_loop}

-- Whether a stream is there after a command, where it was there or not before it: it is there once it
-- has joined and until it leaves.
abbrev pub present_after : StreamId → TcpCommand → Bool → Bool
present_after sid (bytes other_user_joined_room joined) present =
    if same joined sid then true else present
present_after sid (bytes other_user_left_room left) present =
    if same left sid then false else present
present_after sid cmd present = present

-- The same after all that is read before the end of the stream or an error.
abbrev pub present_at_end : StreamId → List (Result ReceivedTcpCommand) → Bool → Bool
present_at_end sid [] present = present
present_at_end sid (err e ∷ rest) present = present
present_at_end sid (ok eof ∷ rest) present = present
present_at_end sid (ok (command cmd) ∷ rest) present =
    present_at_end sid rest (present_after sid cmd present)

contains_key-insert :
    (sid joined : StreamId) (frame_map : FrameMap)
    → contains_key sid (insert joined none frame_map)
      ≡ (if same joined sid then true else contains_key sid frame_map)
unfolding contains_key
contains_key-insert sid joined frame_map = elim (Bool-cases (same joined sid)) [
  | inl e ↦ rw (contains_key, lookup-insert joined sid none frame_map, e) refl
  | inr e ↦ rw (contains_key, lookup-insert joined sid none frame_map, e) refl
]

contains_key-remove :
    (sid left : StreamId) (frame_map : FrameMap)
    → contains_key sid (remove left frame_map)
      ≡ (if same left sid then false else contains_key sid frame_map)
unfolding contains_key
contains_key-remove sid left frame_map = elim (Bool-cases (same left sid)) [
  | inl e ↦ rw (contains_key, lookup-remove left sid frame_map, e) refl
  | inr e ↦ rw (contains_key, lookup-remove left sid frame_map, e) refl
]

-- A stream's identifier is not one of another length.
same-length :
    (sid other : StreamId) → length sid ≡ 4 → (length other == 4) ≡ false → same other sid ≡ false
same-length sid other h n = elim (Bool-cases (same other sid)) [
  | inl e ↦
      let f : length other ≡ 4 = ap (λ (s : Bytes). length s) ((same_iff other sid).0 e) ∙ h in
      absurd (ground (arith, f, n))
  | inr e ↦ e
]

handle_tcp_command-contains_key :
    (sid : StreamId) (cmd : TcpCommand) (frame_map : FrameMap)
    → length sid ≡ 4
    → contains_key sid (handle_tcp_command cmd frame_map)
      ≡ present_after sid cmd (contains_key sid frame_map)
unfolding handle_tcp_command
handle_tcp_command-contains_key sid (bytes other_user_joined_room joined) frame_map h =
    elim (Bool-cases (length joined == 4)) [
      | inl e ↦ rw e (contains_key-insert sid joined frame_map)
      | inr e ↦ rw (e, same-length sid joined h e) refl
    ]
handle_tcp_command-contains_key sid (bytes other_user_left_room left) frame_map h =
    elim (Bool-cases (length left == 4)) [
      | inl e ↦ rw e (contains_key-remove sid left frame_map)
      | inr e ↦ rw (e, same-length sid left h e) refl
    ]
handle_tcp_command-contains_key sid cmd frame_map h = refl

-- Whatever the server sends, the map of frames has a stream when the loop ends exactly if the stream
-- was there or joined, and has not left since.
pub contains_key-tcp_loop :
    (sid : StreamId) (received : List (Result ReceivedTcpCommand)) (frame_map : FrameMap)
    → length sid ≡ 4
    → contains_key sid (tcp_loop received frame_map).1
      ≡ present_at_end sid received (contains_key sid frame_map)
unfolding tcp_loop
contains_key-tcp_loop sid [] frame_map h = refl
contains_key-tcp_loop sid (err e ∷ rest) frame_map h = refl
contains_key-tcp_loop sid (ok eof ∷ rest) frame_map h = refl
contains_key-tcp_loop sid (ok (command cmd) ∷ rest) frame_map h =
    contains_key-tcp_loop sid rest (handle_tcp_command cmd frame_map) h
    ∙ ap (present_at_end sid rest) (handle_tcp_command-contains_key sid cmd frame_map h)
