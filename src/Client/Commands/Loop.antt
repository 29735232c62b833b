-- ===== src/Client/Commands/Loop.antt =====
-- The loop of pre_call_interface.rs: what the typed lines keep true, and what the loop returns.
use facetime_v.Client.Camera.Names.{is_valid_camera_name-IsUsable}
use facetime_v.Client.Commands.Typed.{
  Typed, nothing, help, list_users, list_rooms, list_cameras, unknown, usage, create, delete, join,
  switch, typed, trim,
}
use facetime_v.Base.{
  Bool, Bool-cases, Bytes, List, Option, Result-cases, [], bytes_instance, inl, inr, nat_instance,
  none, refl, same, some, text, ℕ, ◌∷◌, ◌≡◌,
}
use facetime_v.Base.Exec.{Keeps, Keeps-fail, Keeps-pure, keeps_rules, Keeps-bind}
use facetime_v.Protocol.Id.{
  TcpCommandId, get_user_list, get_room_list, error_response, create_room_success,
  delete_room_success, join_room_success, user_list, room_list,
}
use facetime_v.Protocol.Command.{
  TcpCommand, ReceivedTcpCommand, eof, command, simple, string, bytes, write_to_stream,
  read_from_stream, string_list,
}
use facetime_v.Client.Camera.{pos, IsUsable, is_valid_camera_name}
use facetime_v.Client.Commands.Exchange.{
  set_camera, show_cameras, ask_rooms, end_or, handle_user_input, rooms_of, handle_typed,
  create_room, users_of, delete_room, run, handle_line, switch_camera, set_index, ask_users,
  ClientAction, join_room, Client, Shown, write_command, read, show, ask, expect_command,
  create_answer, delete_answer, join_answer,
}

-- The camera in use is 0 or one that can be opened.
abbrev pub HasUsableCamera : (ℕ → Bool) → Client → Type 0
HasUsableCamera opens c = (n : ℕ) × (c.camera_index ≡ pos n) × IsUsable opens n

module _ (opens : ℕ → Bool) where
  write_command-HasUsableCamera :
      (cmd : TcpCommand) → Keeps (HasUsableCamera opens) (write_command cmd)
  unfolding write_command
  write_command-HasUsableCamera cmd = record {
    at = λ c h. elim (Result-cases (write_to_stream cmd c.tcp)) [
      | inl (s, e) ↦ rw (e, write_command) h
      | inr (x, e) ↦ rw (e, write_command) h
    ];
  }

  read-HasUsableCamera : Keeps (HasUsableCamera opens) read
  unfolding read
  read-HasUsableCamera = record {
    at = λ c h. elim (Result-cases (read_from_stream c.incoming)) [
      | inl ((received, rest), e) ↦ rw (e, read) h
      | inr (x, e) ↦ rw (e, read) h
    ];
  }

  show-HasUsableCamera : (lines : List Shown) → Keeps (HasUsableCamera opens) (show lines)
  unfolding show
  show-HasUsableCamera lines = record { at = λ c h. h }

  expect_command-HasUsableCamera :
      (during : Bytes) (r : ReceivedTcpCommand)
      → Keeps (HasUsableCamera opens) (expect_command during r)
  expect_command-HasUsableCamera during eof = Keeps-fail _
  expect_command-HasUsableCamera during (command cmd) = Keeps-pure cmd

  ask-HasUsableCamera :
      (during : Bytes) (cmd : TcpCommand) → Keeps (HasUsableCamera opens) (ask during cmd)
  unfolding ask
  ask-HasUsableCamera during cmd =
      search
        (
          keeps_rules, write_command-HasUsableCamera, read-HasUsableCamera,
          expect_command-HasUsableCamera,
        )
        depth 7

  ruleset camera_rules = (keeps_rules, show-HasUsableCamera, ask-HasUsableCamera)

  answers-HasUsableCamera :
      (name : Bytes) (cmd : TcpCommand)
      → Keeps (HasUsableCamera opens) (create_answer name cmd)
        × Keeps (HasUsableCamera opens) (delete_answer name cmd)
        × Keeps (HasUsableCamera opens) (join_answer name cmd)
  unfolding create_answer delete_answer join_answer
  answers-HasUsableCamera name (simple create_room_success) =
      (search camera_rules depth 7, search camera_rules depth 7, search camera_rules depth 7)
  answers-HasUsableCamera name (simple delete_room_success) =
      (search camera_rules depth 7, search camera_rules depth 7, search camera_rules depth 7)
  answers-HasUsableCamera name (string error_response e) =
      (search camera_rules depth 7, search camera_rules depth 7, search camera_rules depth 7)
  answers-HasUsableCamera name (bytes join_room_success e) =
      (search camera_rules depth 7, search camera_rules depth 7, search camera_rules depth 7)
  answers-HasUsableCamera name cmd =
      (search camera_rules depth 7, search camera_rules depth 7, search camera_rules depth 7)

  lists-HasUsableCamera :
      (cmd : TcpCommand)
      → Keeps (HasUsableCamera opens) (users_of cmd) × Keeps (HasUsableCamera opens) (rooms_of cmd)
  unfolding users_of rooms_of
  lists-HasUsableCamera (string_list user_list names) = (search camera_rules, search camera_rules)
  lists-HasUsableCamera (string_list room_list names) = (search camera_rules, search camera_rules)
  lists-HasUsableCamera cmd = (search camera_rules, search camera_rules)

  create_room-HasUsableCamera : (name : Bytes) → Keeps (HasUsableCamera opens) (create_room name)
  unfolding create_room
  create_room-HasUsableCamera name =
      Keeps-bind _ _
        (ask-HasUsableCamera (text "create_room") (string TcpCommandId.create_room name))
        (λ cmd. (answers-HasUsableCamera name cmd).0)

  delete_room-HasUsableCamera : (name : Bytes) → Keeps (HasUsableCamera opens) (delete_room name)
  unfolding delete_room
  delete_room-HasUsableCamera name =
      Keeps-bind _ _
        (ask-HasUsableCamera (text "delete_room") (string TcpCommandId.delete_room name))
        (λ cmd. (answers-HasUsableCamera name cmd).1)

  join_room-HasUsableCamera : (name : Bytes) → Keeps (HasUsableCamera opens) (join_room name)
  unfolding join_room
  join_room-HasUsableCamera name =
      Keeps-bind _ _ (ask-HasUsableCamera (text "join_room") (string TcpCommandId.join_room name))
        (λ cmd. (answers-HasUsableCamera name cmd).2)

  ask_lists-HasUsableCamera :
      (username : Bytes)
      → Keeps (HasUsableCamera opens) (ask_users username) × Keeps (HasUsableCamera opens) ask_rooms
  unfolding ask_users ask_rooms
  ask_lists-HasUsableCamera username = (
    Keeps-bind _ _ (ask-HasUsableCamera (text "list_users") (simple get_user_list))
        (λ cmd. Keeps-bind _ _ (lists-HasUsableCamera cmd).0 (λ names. show-HasUsableCamera _)),
    Keeps-bind _ _ (ask-HasUsableCamera (text "list_rooms") (simple get_room_list))
        (λ cmd. Keeps-bind _ _ (lists-HasUsableCamera cmd).1 (λ names. show-HasUsableCamera _)),
  )

  set_index-HasUsableCamera :
      (n : ℕ) → IsUsable opens n → Keeps (HasUsableCamera opens) (set_index (pos n))
  unfolding set_index
  set_index-HasUsableCamera n u = record { at = λ c h. (n, refl, u) }

  switch_camera-HasUsableCamera :
      (name : Bytes) → Keeps (HasUsableCamera opens) (switch_camera opens name)
  unfolding switch_camera set_camera
  switch_camera-HasUsableCamera name = elim (Bool-cases (is_valid_camera_name opens name)) [
    | inl v ↦
        let (n, e, u) = is_valid_camera_name-IsUsable opens name v in
        rw (v, e) (set_index-HasUsableCamera n u)
    | inr v ↦ rw v (show-HasUsableCamera _)
  ]

  handle_typed-HasUsableCamera :
      (username : Bytes) (t : Typed) → Keeps (HasUsableCamera opens) (handle_typed opens username t)
  unfolding handle_typed show_cameras
  handle_typed-HasUsableCamera username nothing = search camera_rules
  handle_typed-HasUsableCamera username help = search camera_rules
  handle_typed-HasUsableCamera username (usage message) = search camera_rules
  handle_typed-HasUsableCamera username (create name) =
      search (camera_rules, create_room-HasUsableCamera)
  handle_typed-HasUsableCamera username (delete name) =
      search (camera_rules, delete_room-HasUsableCamera)
  handle_typed-HasUsableCamera username (join name) = join_room-HasUsableCamera name
  handle_typed-HasUsableCamera username list_users =
      search (camera_rules, (ask_lists-HasUsableCamera username).0)
  handle_typed-HasUsableCamera username list_rooms =
      search (camera_rules, (ask_lists-HasUsableCamera username).1)
  handle_typed-HasUsableCamera username list_cameras = search camera_rules depth 7
  handle_typed-HasUsableCamera username (switch name) =
      search (camera_rules, switch_camera-HasUsableCamera)
  handle_typed-HasUsableCamera username unknown = search camera_rules

  end_or-HasUsableCamera :
      (rest : ClientAction (Option Bytes)) (o : Option Bytes)
      → Keeps (HasUsableCamera opens) rest
      → Keeps (HasUsableCamera opens) (end_or rest o)
  end_or-HasUsableCamera rest none k = k
  end_or-HasUsableCamera rest (some info) k = Keeps-pure (some info)

  handle_line-HasUsableCamera :
      (username line : Bytes) (rest : ClientAction (Option Bytes))
      → Keeps (HasUsableCamera opens) rest
      → Keeps (HasUsableCamera opens) (handle_line opens username line rest)
  unfolding handle_line handle_user_input
  handle_line-HasUsableCamera username line rest k = elim (Bool-cases (same line (text "exit"))) [
    | inl e ↦ rw e (search camera_rules)
    | inr e ↦ rw e (
        Keeps-bind _ _ (handle_typed-HasUsableCamera username (typed line))
          (λ o. end_or-HasUsableCamera rest o k))
  ]

  run-Keeps :
      (username : Bytes) (lines : List (Option Bytes))
      → Keeps (HasUsableCamera opens) (run opens username lines)
  unfolding run
  run-Keeps username [] = search camera_rules
  run-Keeps username (none ∷ lines) =
      Keeps-bind _ _ (show-HasUsableCamera _) (λ u. run-Keeps username lines)
  run-Keeps username (some line ∷ lines) =
      Keeps-bind _ _ (show-HasUsableCamera _)
        (λ u. handle_line-HasUsableCamera username (trim line) _ (run-Keeps username lines))

-- Whatever is typed, and whatever the server answers, the camera in use stays one that is 0 or can be
-- opened, whether the loop ends well or fails.
pub run-HasUsableCamera :
    (opens : ℕ → Bool) (username : Bytes) (lines : List (Option Bytes)) (c : Client)
    → HasUsableCamera opens c
    → HasUsableCamera opens (run opens username lines c).1
run-HasUsableCamera opens username lines c h = (run-Keeps opens username lines).at c h
