-- ===== src/Server/Users/Connection.antt =====
-- What a connection leaves of the list of users.
use facetime_v.Base.{
  Bytes, List, Option, Result, [], err, none, ok, refl, some, ◌++◌, ◌∙◌, ◌∷◌, ◌≡◌,
}
use facetime_v.Base.Exec.{Keeps, Keeps-pure, Keeps-for_each}
use facetime_v.Protocol.Names.{StreamId}
use facetime_v.Protocol.Command.{ReceivedTcpCommand}
use facetime_v.Server.State.{World, Sender}
use facetime_v.Server.Session.{
  Outside, Event, handle_event, handle_handshake, register, serve, forget_user, clean_up_rooms,
  clean_up, after_handshake, connection,
}
use facetime_v.Server.Users.{HasUsers, silent, handle_event-HasUsers}
use facetime_v.Server.Visit.{retain-added}
use facetime_v.Server.Users.Handshake.{
  IsFreeName, handle_handshake-accepts, handle_handshake-HasUsers,
}

clean_up_rooms-HasUsers :
    (us : List Bytes) (out : Outside) (username : Bytes) (o : Option StreamId)
    → Keeps (HasUsers us) (clean_up_rooms out username o)
unfolding clean_up_rooms
clean_up_rooms-HasUsers us out username none = Keeps-pure tt
clean_up_rooms-HasUsers us out username (some sid) = search silent depth 7

after_handshake-users :
    (out : Outside) (tx : Sender) (events : List Event) (r : Result (Option Bytes)) (w : World)
    → ((u : Bytes) → r ≡ ok (some u) → IsFreeName w.users u)
    → (after_handshake out tx events r w).users ≡ w.users
unfolding after_handshake register serve clean_up forget_user
after_handshake-users out tx events (ok none) w free = refl
after_handshake-users out tx events (err e) w free = refl
after_handshake-users out tx events (ok (some u)) w free =
    let added = w.users ++ u ∷ [] in
    let served =
      (Keeps-for_each events (handle_event out u) (handle_event-HasUsers added out u)).at
        (register u tx w) (unfold register in refl) in
    let kept = retain-added w.users u (free u refl).free in
    (clean_up_rooms-HasUsers w.users out u _).at _ (rw served kept)

-- A whole connection, whatever the client says and however it ends, leaves the users as they were:
-- its own name is gone and no other name is added or lost.
pub connection-users :
    (out : Outside) (tx : Sender) (hello : Result ReceivedTcpCommand) (events : List Event)
    (w : World)
    → (connection out tx hello events w).users ≡ w.users
unfolding connection
connection-users out tx hello events w =
    let same_users = (handle_handshake-HasUsers w.users hello).at w refl in
    after_handshake-users out tx events (handle_handshake hello w).0 (handle_handshake hello w).1
      (λ u e. rw same_users (handle_handshake-accepts hello u w e).1)
    ∙ same_users
