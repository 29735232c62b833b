-- ===== src/Client/Commands/Served.antt =====
-- Requests of pre_call_interface.rs that the handlers of tcp_command_handler.rs answer: the client
-- writes, the server reads and handles, the client reads what the server wrote.
use facetime_v.Base.{
  Bytes, Result, [], ap, append-nil, custom, err, ok, refl, sym, text, ◌++◌, ◌∙◌, ◌≡◌,
}
use facetime_v.Base.Exec.{◌>>=◌, pure, fail}
use facetime_v.Protocol.Command.{
  all_read, TcpCommand, ReceivedTcpCommand, eof, command, Stream, encode, write_to_stream,
  read_from_stream, write_all,
}
use facetime_v.Protocol.RoundTrip.{IsWellFormed, Fits, read-encode, encode-Fits}
use facetime_v.Server.State.{World}
use facetime_v.Server.Session.{Outside, handle_command}
use facetime_v.Client.Commands.Exchange.{Client, ClientAction, write_command, read, ask}

-- A stream on which nothing is waiting, and whose peer reads.
abbrev pub idle : Stream
idle = record { written = []; peer_reads = all_read }

-- The server's part: the first command among the bytes sent, and its handler.
unfoldable pub answer : Outside → Bytes → Bytes → Bytes → World → World
unfolding handle_command
answer outside username random sent w = elim (read_from_stream sent) [
  | ok (command cmd, rest) ↦ (handle_command outside username random cmd w).1
  | ok (eof, rest) ↦ w
  | err e ↦ w
]

-- A client's action against the server, with nothing waiting on the stream between them: what it
-- writes before any answer is what the server reads, and what the server then writes is what it goes
-- on to read.
unfoldable pub against :
    {A : Type 0}
    → Outside
    → Bytes
    → Bytes
    → ClientAction A
    → Client
    → World
    → (Result A × Client) × World
unfolding answer
against outside username random m c w =
    let tcp : Stream = record c.tcp { written = [] } in
    let stream : Stream = record w.stream { written = [] } in
    let sent = (m (record c { tcp = tcp; incoming = [] })).1.tcp.written in
    let w' = answer outside username random sent (record w { stream = stream }) in
    (m (record c { tcp = tcp; incoming = w'.stream.written }), w')

-- The same where both write to a peer that reads.
unfoldable against_open :
    {A : Type 0}
    → Outside
    → Bytes
    → Bytes
    → ClientAction A
    → Client
    → World
    → (Result A × Client) × World
unfolding answer
against_open outside username random m c w =
    let sent = (m (record c { tcp = idle; incoming = [] })).1.tcp.written in
    let w' = answer outside username random sent (record w { stream = idle }) in
    (m (record c { tcp = idle; incoming = w'.stream.written }), w')

-- Both ends of the connection can be written to.
abbrev pub IsOpen : Client → World → Type 0
IsOpen c w = (c.tcp.peer_reads ≡ all_read) × (w.stream.peer_reads ≡ all_read)

against-IsOpen :
    {A : Type 0} (outside : Outside) (username random : Bytes) (m : ClientAction A) (c : Client)
    (w : World)
    → IsOpen c w
    → against outside username random m c w ≡ against_open outside username random m c w
unfolding against against_open
against-IsOpen outside username random m c w (up, down) = rw (up, down) refl

-- A client that has sent a request.
abbrev pub has_sent : Bytes → Bytes → Client → Client
has_sent q rest c = record c {
  tcp = record { written = q; peer_reads = all_read };
  incoming = rest;
}

write_command-idle :
    (cmd : TcpCommand) (q i : Bytes) (c : Client)
    → encode cmd ≡ ok q
    → write_command cmd (record c { tcp = idle; incoming = i }) ≡ (ok tt, has_sent q i c)
unfolding write_command write_to_stream write_all
write_command-idle cmd q i c e = rw (write_command, e) refl

read-command :
    (received : ReceivedTcpCommand) (rest : Bytes) (c : Client)
    → read_from_stream c.incoming ≡ ok (received, rest)
    → read c ≡ (ok received, record c { incoming = rest })
unfolding read
read-command received rest c h = rw (read, h) refl

-- A request and the command that answers it, in the bytes of both.
ask-answered :
    (during : Bytes) (cmd reply : TcpCommand) (q i rest : Bytes) (c : Client)
    → encode cmd ≡ ok q
    → read_from_stream i ≡ ok (command reply, rest)
    → ask during cmd (record c { tcp = idle; incoming = i }) ≡ (ok reply, has_sent q rest c)
unfolding ask ◌>>=◌ pure
ask-answered during cmd reply q i rest c e r =
    rw (write_command-idle cmd q i c e)
      (rw (read-command (command reply) rest (has_sent q i c) r) refl)

ask-unanswered :
    (during : Bytes) (cmd : TcpCommand) (q : Bytes) (c : Client)
    → encode cmd ≡ ok q
    → ask during cmd (record c { tcp = idle; incoming = [] })
      ≡ (err (custom (text "Unexpected EOF from server during " ++ during)), has_sent q [] c)
unfolding ask ◌>>=◌ pure fail read_from_stream read
ask-unanswered during cmd q c e = rw (write_command-idle cmd q [] c e) refl

-- The bytes of a command alone.
pub read-written :
    (cmd : TcpCommand) (q : Bytes)
    → IsWellFormed cmd
    → encode cmd ≡ ok q
    → read_from_stream q ≡ ok (command cmd, [])
read-written cmd q h e =
    ap (λ (b : Bytes). read_from_stream b) (sym (append-nil q)) ∙ read-encode cmd q [] h e

-- The server reads the request that was written.
answer-request :
    (outside : Outside) (username random : Bytes) (cmd : TcpCommand) (q : Bytes) (w : World)
    → IsWellFormed cmd
    → encode cmd ≡ ok q
    → answer outside username random q w ≡ (handle_command outside username random cmd w).1
unfolding answer
answer-request outside username random cmd q w h e = rw (answer, read-written cmd q h e) refl

-- A client's request, which asks once and then does `next` with the answer.
module _ {A : Type 0} (outside : Outside) (username random during : Bytes) (cmd : TcpCommand)
    (next : TcpCommand → ClientAction A) (c : Client) (w : World) (well : IsWellFormed cmd)
    (fits : Fits cmd) where
  -- The server after the request.
  abbrev pub served : World
  served = (handle_command outside username random cmd (record w { stream = idle })).1

  abbrev pub request : ClientAction A
  request = ask during cmd >>= next

  sent-ask :
      (q : Bytes)
      → encode cmd ≡ ok q
      → (request (record c { tcp = idle; incoming = [] })).1.tcp.written ≡ q
  unfolding ◌>>=◌ fail
  sent-ask q e = rw (ask-unanswered during cmd q c e) refl

  request-answered :
      (q i rest : Bytes) (reply : TcpCommand)
      → encode cmd ≡ ok q
      → read_from_stream i ≡ ok (command reply, rest)
      → request (record c { tcp = idle; incoming = i }) ≡ next reply (has_sent q rest c)
  unfolding ◌>>=◌
  request-answered q i rest reply e r = rw (ask-answered during cmd reply q i rest c e r) refl

  -- What is left when the server has answered.
  pub against-ask :
      (reply : TcpCommand) (rest : Bytes)
      → IsOpen c w
      → read_from_stream served.stream.written ≡ ok (command reply, rest)
      → (q : Bytes) × (against outside username random request c w
          ≡ (next reply (has_sent q rest c), served))
  unfolding against_open
  against-ask reply rest linked r =
      let (q, e) = (encode-Fits cmd).1 fits in
      let w_eq =
        ap (λ (sent : Bytes). answer outside username random sent (record w { stream = idle }))
          (sent-ask q e)
        ∙ answer-request outside username random cmd q (record w { stream = idle }) well e in
      (
        q,
        against-IsOpen outside username random request c w linked
            ∙ ap
                (λ (w' : World).
                  (request (record c { tcp = idle; incoming = w'.stream.written }), w'))
                w_eq
            ∙ ap (λ (o : Result A × Client). (o, served))
                (request-answered q served.stream.written rest reply e r),
      )
