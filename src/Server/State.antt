-- ===== src/Server/State.antt =====
-- The state that a connection's task of the server works on, and the ways in which it writes.
-- Shared by all tasks: the users, the rooms, and the sender of each user's command channel.
-- Of this connection: its stream and the stream id of the room that it joined.
-- A lock is held for as long as the handler's block that takes it; each handler is modelled as it
-- runs with no other task between its blocks.
use facetime_v.Base.{
  Bool, Bytes, List, Map, Option, [], channel_closed, err, failed_to_send, if◌then◌else◌, ok, ℕ,
  ◌++◌, ◌∷◌,
}
use facetime_v.Base.Exec.{Exec, map_err}
use facetime_v.Protocol.Id.{error_response}
use facetime_v.Protocol.Names.{RoomId, StreamId}
use facetime_v.Protocol.Command.{TcpCommand, string, Stream, write_to_stream}

-- `std::net::SocketAddr`: only compared, hashed and handed to the socket.
abbrev pub SocketAddr : Type 0
SocketAddr = ℕ

-- `broadcast::Sender<TcpCommand>`: which channel it sends to.
abbrev pub Sender : Type 0
Sender = ℕ

pub record Room : Type 0 where
  pub name : Bytes
  pub stream_id_to_socket_addr : Map StreamId (Option SocketAddr)
  pub users : List Bytes

-- `Room::new`.
abbrev pub new_room : Bytes → Room
new_room name = record { name = name; stream_id_to_socket_addr = []; users = [] }

abbrev pub RoomMap : Type 0
RoomMap = Map RoomId Room

-- `sent` lists what was put into channels, in order.
pub record World : Type 0 where
  pub users : List Bytes
  pub room_map : RoomMap
  pub senders : Map Bytes Sender
  pub current_sid : Option StreamId
  pub stream : Stream
  pub sent : List (Sender × TcpCommand)

abbrev pub Action : Type 0 → Type 0
Action A = Exec World A

unfoldable pub write : TcpCommand → Action Unit
write cmd w = elim (write_to_stream cmd w.stream) [
  | ok stream ↦ (ok tt, record w { stream = stream })
  | err e ↦ (err e, w)
]

-- `tx.send(cmd)`: tokio fails it when the channel has no receiver left; `live` says which have one.
unfoldable pub send : (Sender → Bool) → Sender → TcpCommand → Action Unit
send live tx cmd w =
    if live tx
    then (ok tt, record w { sent = w.sent ++ (tx, cmd) ∷ [] })
    else (err channel_closed, w)

unfoldable pub set_room_map : RoomMap → Action Unit
set_room_map m w = (ok tt, record w { room_map = m })

unfoldable pub set_current_sid : Option StreamId → Action Unit
set_current_sid sid w = (ok tt, record w { current_sid = sid })

unfoldable pub send_error_response : Bytes → Action Unit
send_error_response error_message =
    map_err failed_to_send (write (string error_response error_message))
