-- ===== src/Client/Commands/Announcing.antt =====
-- What `handle_join_room` of tcp_command_handler.rs writes first: the success, with the two identifiers.
use facetime_v.Base.{
  >>=-eq-ok, Bool, Bool-cases, Bytes, List, Option, Result-cases, [], ap, append-nil, append_assoc,
  arith, bytes_instance, inl, inr, lookup, nat_instance, none, ok, refl, some, sym, ◌++◌, ◌∙◌, ◌≡◌,
}
use facetime_v.Base.Exec.{Keeps-pure, Keeps, Keeps-gets_bind, keeps_rules, ◌>>=◌, for_each, ◌>>◌}
use facetime_v.Protocol.Id.{join_room_success}
use facetime_v.Protocol.Names.{RoomId, StreamId}
use facetime_v.Protocol.Command.{
  all_read, TcpCommand, bytes, Stream, encode, write_to_stream, write_all,
}
use facetime_v.Server.State.{
  World, RoomMap, Room, Sender, set_room_map, set_current_sid, send, send_error_response,
}
use facetime_v.Server.Membership.{joined_command, notify, send_to, announce_join}
use facetime_v.Server.State
use facetime_v.Client.Commands.Served.{idle}

-- What has been written stays at the front of the stream, and the rooms stay as they are.
abbrev pub BeginsWith : Bytes → RoomMap → World → Type 0
BeginsWith front m w = ((rest : Bytes) × (w.stream.written ≡ front ++ rest)) × (w.room_map ≡ m)

write_all-grows :
    (buf : Bytes) (stream s : Stream)
    → write_all buf stream ≡ ok s
    → s.written ≡ stream.written ++ buf
unfolding write_all
write_all-grows buf stream s h = ground arith

write_to_stream-grows :
    (cmd : TcpCommand) (stream s : Stream)
    → write_to_stream cmd stream ≡ ok s
    → (buf : Bytes) × (s.written ≡ stream.written ++ buf)
unfolding write_to_stream
write_to_stream-grows cmd stream s h =
    let (buf, e, written) = >>=-eq-ok (encode cmd) (λ buf. write_all buf stream) h in
    (buf, write_all-grows buf stream s written)

module _ (front : Bytes) (m : RoomMap) where
  write-BeginsWith : (cmd : TcpCommand) → Keeps (BeginsWith front m) (State.write cmd)
  unfolding State.write
  write-BeginsWith cmd = record {
    at = λ w h. elim (Result-cases (write_to_stream cmd w.stream)) [
      | inl (s, e) ↦
          let (buf, grown) = write_to_stream-grows cmd w.stream s e in
          rw (e, State.write)
            (
              (
                h.0.0 ++ buf,
                grown ∙ ap (λ (b : Bytes). b ++ buf) h.0.1 ∙ append_assoc front h.0.0 buf,
              ),
              h.1,
            )
      | inr (x, e) ↦ rw (e, State.write) h
    ];
  }

  send-BeginsWith :
      (live : Sender → Bool) (tx : Sender) (cmd : TcpCommand)
      → Keeps (BeginsWith front m) (send live tx cmd)
  unfolding send
  send-BeginsWith live tx cmd = record {
    at = λ w h. elim (Bool-cases (live tx)) [ inl e ↦ rw (e, send) h | inr e ↦ rw (e, send) h ];
  }

  send_to-BeginsWith :
      (live : Sender → Bool) (cmd : TcpCommand) (o : Option Sender)
      → Keeps (BeginsWith front m) (send_to live cmd o)
  unfolding send_to
  send_to-BeginsWith live cmd none = Keeps-pure tt
  send_to-BeginsWith live cmd (some tx) = send-BeginsWith live tx cmd

  notify-BeginsWith :
      (live : Sender → Bool) (cmd : TcpCommand) (user : Bytes)
      → Keeps (BeginsWith front m) (notify live cmd user)
  unfolding notify
  notify-BeginsWith live cmd user =
      Keeps-gets_bind _ _ (λ w h. (send_to-BeginsWith live cmd (lookup user w.senders)).at w h)

  announce_rest-BeginsWith :
      (live : Sender → Bool) (sid : StreamId) (users : List Bytes) (sids : List StreamId)
      → Keeps (BeginsWith front m) (
          for_each users (notify live (joined_command sid))
          >> for_each sids (λ other. State.write (joined_command other)))
  announce_rest-BeginsWith live sid users sids =
      search (keeps_rules, write-BeginsWith, notify-BeginsWith) depth 7

write-reply :
    (cmd : TcpCommand) (q : Bytes) (w : World)
    → encode cmd ≡ ok q
    → State.write cmd (record w { stream = idle })
      ≡ (ok tt, record w { stream = record { written = q; peer_reads = all_read } })
unfolding State.write write_to_stream write_all
write-reply cmd q w e = rw (State.write, e) refl

-- The first command on the stream is the success, with the two identifiers.
pub announce_join-begins :
    (live : Sender → Bool) (rid : RoomId) (sid : StreamId) (users : List Bytes)
    (sids : List StreamId) (q : Bytes) (w : World)
    → encode (bytes join_room_success (rid ++ sid)) ≡ ok q
    → BeginsWith q w.room_map (announce_join live rid sid users sids (record w { stream = idle })).1
unfolding announce_join ◌>>=◌
announce_join-begins live rid sid users sids q w e =
    rw (write-reply (bytes join_room_success (rid ++ sid)) q w e) (
      (announce_rest-BeginsWith q w.room_map live sid users sids).at
        (record w { stream = record { written = q; peer_reads = all_read } })
        (([], sym (append-nil q)), refl))
