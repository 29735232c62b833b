-- ===== src/Lib.antt =====
-- WeSFU: video calls in the terminal. Clients speak a control protocol to the server over TCP (users,
-- rooms, joining and leaving) and send their frames over UDP; the server forwards each media packet
-- to the other streams of its room.
--
-- Parts, and where the code stands:
--
-- - Base: what the other modules share. Lists, maps and tests over native numbers; machine words with
--   their wrap-around; results of fallible code; and `Exec`, methods that change a state and may fail
--   half way, with the rules that carry an invariant through them. A hash map is a list of entries in
--   the order of one iteration; a text is the list of its UTF-8 bytes.
-- - Protocol (shared/src): `Id` is tcp_command_id.rs and tcp_command_payload_type.rs (`TcpCommandId`,
--   `to_byte`, `from_byte`, `get_payload_type`), `Names` is lib.rs (`is_valid_name`), `Command` is
--   tcp_command.rs and received_tcp_command.rs (`TcpCommand`, `write_to_stream`, `read_from_stream`),
--   `Utf8` is the standard library's UTF-8 test that these rely on. `Bytes`, `RoundTrip` and `Reader`
--   are proofs.
-- - Server (server/src): `State` is what the tasks share (room.rs and the maps of wes_sfu.rs) with what
--   belongs to one connection. `Rooms` and `Membership` are the handlers of tcp_command_handler.rs,
--   `Session` is `handle_handshake` and `handle_stream` of tcp_handler.rs and the task that
--   `WeSFU::listen` spawns, with its clean-up. `Udp` is udp_handler.rs: `handle_packet`,
--   `flush_batch`, `check_rate_limit`, the flush task and the cleanup task. `Keys`, `Invariant`,
--   `Soundness`, `Users`, `Visit`, `Lifetime` and the
--   children of `Udp` but `Stats` are proofs.
-- - Client (client/src): `Delta` is the delta coding of udp_handler.rs (`create_delta_optimized`,
--   `serialize_deltas_optimized`, `deserialize_deltas`, `apply_delta_safe`); its children are proofs.
--   `Send` is one round of `udp_send_loop`, `Receive` one round of `udp_listener_loop` with
--   `FrameCache`, `FragmentBuffer` and `BufferPool`; `Stream` puts the two together. `Frame` is
--   `Frame::to_bytes` and `Frame::from_bytes` of frame.rs, with libwebp as a parameter.
-- - Client before a call: `Camera` is camera.rs and the choice of a capture in frame_generator.rs,
--   `Display` is cli_display.rs as the lines that are printed. `Commands` is pre_call_interface.rs and
--   the handshake of client.rs: `Typed` reads a line, `Exchange` has each request with its answer and
--   the loop. In `Served` a request of the client is read by the server's `handle_stream`, and its
--   answer by the client. The other children of these are proofs.
-- - Client in a call: `Ascii` is `Frame::to_ascii_with_buffer`, `Visible` is `count_visible_chars` and
--   the lines of a text, `Layout` is the sizes and the centring of frame.rs, and its child `Frames` is
--   the grid and `combine_frames_with_buffers`. `Renderer` is renderer.rs as the commands for the
--   terminal, with `Screen` as what a terminal does with them. `Call` is what the commands of the
--   server do to the map of frames (`tcp_loop`) and one turn of `render_loop` in call_interface.rs.
--   The other children of these are proofs.
--
-- How the parts interact: a connection reads commands with `read_from_stream`, each handler works on
-- the users, rooms and senders and writes its answer with `write_to_stream`; commands for other users
-- go into their channels, listed in `sent`, and come back as `outgoing` events of their connections.
-- The media plane reads the rooms that the handlers write, and writes into them the addresses of
-- streams. Before a call, a client's typed line becomes a command on the wire, which the server's
-- handlers answer. In a call, the frames that `Receive` makes and the streams that `tcp_loop` adds and
-- removes are in one map, which a turn of the drawing loop puts together into one text and gives to
-- the renderer.
--
-- Bounds and fuel. Numbers on the wire are bytes and 32-bit words, and conversions to them wrap.
-- `delta_loop` is the only loop on fuel whose end is a result of its own, `stuck`; it gets one round
-- more than the frame has bytes, and each round but the last takes a byte at least. `chunks_of` gets
-- as much fuel as there are bytes, and a chunk takes one at least; the rows of a grid are cut from
-- the frames in the same way. `trim` gets as much fuel as the text has bytes, and a white-space
-- character takes one at least. `decimal` gets more fuel than a number has digits. All other loops are
-- structural. Conversions to `u16` wrap. A subtraction of the client's that goes below 0, and the product
-- of the sizes of a frame where it does not fit into 16 bits, are the error `panicked`, as in a build
-- with checks.
--
-- Outside the model: random identifiers, the time, whether a socket or a channel takes what it is
-- given, the `{:?}` form of a command, the floating-point limit of a delta and the floating-point
-- operations of the layout, libwebp and OpenCV's resize are arguments. Tasks are run one after
-- another: what two handlers do between each other's locks is not modelled. Left out are logging,
-- start-up and its arguments, the capture of frames with OpenCV and the test pictures that stand in for
-- it, the timers, channels and keys of a call, clearing the screen between lists, and the failures of
-- standard output, of connecting, and of a socket while a command's first byte is read.
pub mod Base
pub mod Protocol
pub mod Server
pub mod Client
