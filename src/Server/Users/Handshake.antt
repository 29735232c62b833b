-- ===== src/Server/Users/Handshake.antt =====
-- Who is let in.
use facetime_v.Base.{
  Bool-cases, Bytes, List, Result, Result-cases, any, arith, bytes_instance, err, false, inl, inr,
  invalid_hello, length, ltb, nat_instance, none, not, ok, refl, same, some, true, ◌≡◌, ◌≢◌, ◌≤◌,
}
use facetime_v.Base.Exec.{pure, fail, Keeps, Keeps-fail, Keeps-pure, gets, ◌>>=◌}
use facetime_v.Protocol.Id.{hello_from_client, hello_from_server, error_response}
use facetime_v.Protocol.Names.{max_name_length, is_valid_name}
use facetime_v.Protocol.Command.{ReceivedTcpCommand, eof, command, simple, string, write_to_stream}
use facetime_v.Server.State.{World, write}
use facetime_v.Server.Session.{refuse, welcome, check_username, handle_handshake}
use facetime_v.Server.Users.{HasUsers, silent}

refused_none : (msg u : Bytes) (w : World) → (refuse msg w).0 ≢ ok (some u)
unfolding refuse write ◌>>=◌
refused_none msg u w h =
    elim (Result-cases (write_to_stream (string error_response msg) w.stream)) [
      | inl (s, e) ↦ cc (rw (e, write) at h)
      | inr (x, e) ↦ cc (rw (e, write) at h)
    ]

welcomed : (username u : Bytes) (w : World) → (welcome username w).0 ≡ ok (some u) → username ≡ u
unfolding welcome write ◌>>=◌
welcomed username u w h =
    elim (Result-cases (write_to_stream (simple hello_from_server) w.stream)) [
      | inl (s, e) ↦ cc (rw (e, write) at h)
      | inr (x, e) ↦ cc (rw (e, write) at h)
    ]

-- A name that is short, of the allowed characters and not among the users.
pub record IsFreeName (us : List Bytes) (u : Bytes) : Type 0 where
  pub short : length u ≤ max_name_length
  pub valid : is_valid_name u ≡ true
  pub free : any (λ user. same user u) us ≡ false

check_username-accepts :
    (username u : Bytes) (w : World)
    → (check_username username w).0 ≡ ok (some u)
    → (username ≡ u) × IsFreeName w.users u
unfolding check_username ◌>>=◌ gets
check_username-accepts username u w h = elim (Bool-cases (ltb max_name_length (length username))) [
  | inl long ↦ absurd (refused_none _ u w (rw long at h))
  | inr short ↦ elim (Bool-cases (not (is_valid_name username))) [
    | inl bad ↦ absurd (refused_none _ u w (rw bad at (rw short at h)))
    | inr good ↦ elim (Bool-cases (any (λ user. same user username) w.users)) [
      | inl taken ↦ absurd (refused_none _ u w (rw taken at (rw good at (rw short at h))))
      | inr free ↦
          let e = welcomed username u w (rw free at (rw good at (rw short at h))) in
          (e, rw (← e) (record { short = ground arith; valid = ground arith; free = free }))
    ]
  ]
]

-- A handshake that lets a user in had a hello with that very name, and the name is short, of the
-- allowed characters and not among the users.
pub handle_handshake-accepts :
    (hello : Result ReceivedTcpCommand) (u : Bytes) (w : World)
    → (handle_handshake hello w).0 ≡ ok (some u)
    → (hello ≡ ok (command (string hello_from_client u))) × IsFreeName w.users u
unfolding handle_handshake fail pure
handle_handshake-accepts (err e) u w h = cc
handle_handshake-accepts (ok eof) u w h = cc
handle_handshake-accepts (ok (command (string hello_from_client username))) u w h =
    let (e, free_name) = check_username-accepts username u w h in (rw e refl, free_name)
handle_handshake-accepts (ok (command cmd)) u w h = cc

module _ (us : List Bytes) where
  refuse-HasUsers : (msg : Bytes) → Keeps (HasUsers us) (refuse msg)
  unfolding refuse
  refuse-HasUsers msg = search (silent)

  welcome-HasUsers : (username : Bytes) → Keeps (HasUsers us) (welcome username)
  unfolding welcome
  welcome-HasUsers username = search (silent)

  check_username-HasUsers : (username : Bytes) → Keeps (HasUsers us) (check_username username)
  unfolding check_username
  check_username-HasUsers username = search (silent, refuse-HasUsers, welcome-HasUsers) depth 8

  pub handle_handshake-HasUsers :
      (hello : Result ReceivedTcpCommand) → Keeps (HasUsers us) (handle_handshake hello)
  unfolding handle_handshake
  handle_handshake-HasUsers (err e) = Keeps-fail e
  handle_handshake-HasUsers (ok eof) = Keeps-pure none
  handle_handshake-HasUsers (ok (command (string hello_from_client username))) =
      check_username-HasUsers username
  handle_handshake-HasUsers (ok (command cmd)) = Keeps-fail invalid_hello
