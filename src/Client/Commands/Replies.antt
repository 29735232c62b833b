-- ===== src/Client/Commands/Replies.antt =====
-- What a handler of tcp_command_handler.rs leaves on the stream for the client: one command, which may
-- be the error that `send_error_response` writes.
use facetime_v.Base.{
  Bytes, Result-cases, [], arith, inl, inr, length, length-append, ok, refl, ◌++◌, ◌+◌, ◌≡◌, ◌≤◌,
}
use facetime_v.Base.Exec.{map_err}
use facetime_v.Protocol.Id.{error_response, get_payload_type}
use facetime_v.Protocol.Command.{
  TcpCommand, command, string, write_to_stream, read_from_stream, write_all,
}
use facetime_v.Protocol.RoundTrip.{IsText, IsWellFormed, Fits, encode-Fits}
use facetime_v.Protocol.Texts.{append-IsText}
use facetime_v.Server.State.{World, RoomMap, Room, new_room, set_room_map, send_error_response}
use facetime_v.Server.State
use facetime_v.Client.Commands.Served.{idle, read-written}

-- What the server has written is one command.
pub record Says (reply : TcpCommand) (w : World) : Type 0 where
  pub reads : read_from_stream w.stream.written ≡ ok (command reply, [])

module _ (reply : TcpCommand) (w : World) (well : IsWellFormed reply) (fits : Fits reply) where
  pub write_reply-Says : Says reply (State.write reply (record w { stream = idle })).1
  unfolding State.write write_to_stream write_all
  write_reply-Says =
      let (q, e) = (encode-Fits reply).1 fits in
      record { reads = rw (State.write, e, write_all) (read-written reply q well e) }

  pub write_reply-rooms : (State.write reply (record w { stream = idle })).1.room_map ≡ w.room_map
  unfolding State.write
  write_reply-rooms = elim (Result-cases (write_to_stream reply idle)) [
    | inl (s, e) ↦ rw (State.write, e) refl
    | inr (x, e) ↦ rw (State.write, e) refl
  ]

-- An error is said, and the rooms are as they were.
abbrev pub Refuses : Bytes → RoomMap → World → Type 0
Refuses msg m w = Says (string error_response msg) w × (w.room_map ≡ m)

-- The same of some error.
abbrev pub RefusesSomehow : RoomMap → World → Type 0
RefusesSomehow m w = (msg : Bytes) × Refuses msg m w

-- A text that fits into a command.
abbrev pub IsMessage : Bytes → Type 0
IsMessage msg = IsText msg × (length msg ≤ 255)

pub refuses :
    (msg : Bytes) (w : World)
    → IsMessage msg
    → Refuses msg w.room_map (send_error_response msg (record w { stream = idle })).1
unfolding send_error_response map_err
refuses msg w (t, l) = (
  write_reply-Says (string error_response msg) w (unfold get_payload_type in (refl, t)) l,
  write_reply-rooms (string error_response msg) w (unfold get_payload_type in (refl, t)) l,
)

-- A name between two fixed texts.
pub quoted-IsMessage :
    (before name after : Bytes)
    → IsText before
    → IsText name
    → IsText after
    → length before + length name + length after ≤ 255
    → IsMessage (before ++ name ++ after)
quoted-IsMessage before name after b n a le = (
  append-IsText (before ++ name) after (append-IsText before name b n) a,
  omega (arith, length-append (before ++ name) after, length-append before name),
)
