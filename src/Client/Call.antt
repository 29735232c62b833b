-- ===== src/Client/Call.antt =====
-- client/src/call_interface.rs: the frames of the other users of a call, and one turn of the loop that
-- draws them. The channels, timers and the terminal around these are not modelled; a lock is held for
-- as long as the block that takes it, and no other task runs in a turn of the model.
pub mod Members
pub mod Turn
use facetime_v.Base.{
  Bool, Bytes, Error, List, Map, Option, Result, [], bytes_instance, custom, err, false,
  if◌then◌else◌, insert, length, min, nat_instance, none, ok, remove, same, some, take, text, true,
  ℕ, ◌&&◌, ◌==◌, ◌>>=◌, ◌>>◌, ◌||◌, ◌∷◌,
}
use facetime_v.Protocol.Id.{other_user_joined_room, other_user_left_room}
use facetime_v.Protocol.Names.{StreamId, id_len}
use facetime_v.Protocol.Command.{TcpCommand, ReceivedTcpCommand, eof, command, bytes}
use facetime_v.Client.Frame.{Frame}
use facetime_v.Client.Ascii.{Mode, Resize}
use facetime_v.Client.Layout.{Floats}
use facetime_v.Client.Layout.Frames.{Terminal, combine_frames}
use facetime_v.Client.Renderer.{Renderer, update_terminal}

abbrev pub FrameMap : Type 0
FrameMap = Map StreamId (Option Frame)

-- The match on a command; identifiers of another length than four are passed over.
unfoldable pub handle_tcp_command : TcpCommand → FrameMap → FrameMap
handle_tcp_command (bytes other_user_joined_room sid_bytes) frame_map =
    if length sid_bytes == id_len then insert sid_bytes none frame_map else frame_map
handle_tcp_command (bytes other_user_left_room sid_bytes) frame_map =
    if length sid_bytes == id_len then remove sid_bytes frame_map else frame_map
handle_tcp_command cmd frame_map = frame_map

-- The loop over what is read: the map of frames, and the error that ended it, if one did.
unfoldable pub tcp_loop : List (Result ReceivedTcpCommand) → FrameMap → Option Error × FrameMap
unfolding handle_tcp_command
tcp_loop [] frame_map = (none, frame_map)
tcp_loop (err e ∷ rest) frame_map = (some e, frame_map)
tcp_loop (ok eof ∷ rest) frame_map = (some (custom (text "Server closed connection.")), frame_map)
tcp_loop (ok (command cmd) ∷ rest) frame_map = tcp_loop rest (handle_tcp_command cmd frame_map)

abbrev pub max_terminal_width : ℕ
max_terminal_width = 384

abbrev pub max_terminal_height : ℕ
max_terminal_height = 216

abbrev pub max_color_terminal_width : ℕ
max_color_terminal_width = 201

abbrev pub max_color_terminal_height : ℕ
max_color_terminal_height = 113

-- `constrained_terminal_size`, beside the true one.
unfoldable pub constrained : Bool → ℕ × ℕ → Terminal
constrained true (width, height) = record {
  target_width = min width max_color_terminal_width;
  target_height = min height max_color_terminal_height;
  true_width = width;
  true_height = height;
}
constrained false (width, height) = record {
  target_width = min width max_terminal_width;
  target_height = min height max_terminal_height;
  true_width = width;
  true_height = height;
}

-- The frames of the map that have arrived.
unfoldable pub shown_frames : FrameMap → List Frame
shown_frames [] = []
shown_frames ((sid, none) ∷ frame_map) = shown_frames frame_map
shown_frames ((sid, some frame) ∷ frame_map) = frame ∷ shown_frames frame_map

-- What the drawing loop keeps from turn to turn.
pub record Drawing : Type 0 where
  pub last_content : Bytes
  pub renderer : Renderer
  pub temp_buffers : List Bytes
  pub last_terminal_size : ℕ × ℕ

-- `if ascii_buffer != last_content || size_changed`.
abbrev pub show_content : Bool → ℕ × ℕ → Bytes × List Bytes → Drawing → Drawing
show_content color_enabled (width, height) (content, temp_buffers) d =
    let (last_width, last_height) = d.last_terminal_size in
    if same content d.last_content && (width == last_width && height == last_height)
    then record d { temp_buffers = temp_buffers; last_terminal_size = (width, height) }
    else record d {
      last_content = content;
      renderer = update_terminal content width height color_enabled d.renderer;
      temp_buffers = temp_buffers;
      last_terminal_size = (width, height);
    }

-- One turn of `render_loop`, for a frame of the camera and a terminal whose size is known.
unfoldable pub render_turn :
    Floats → Resize → Mode → ℕ × ℕ → Frame → FrameMap → Drawing → Result Drawing
unfolding combine_frames update_terminal constrained shown_frames
render_turn floats resize mode terminal_size frame frame_map d = do
  combined ←
      combine_frames floats resize mode (constrained mode.color_enabled terminal_size)
        (frame ∷ shown_frames frame_map) d.temp_buffers
  ok (show_content mode.color_enabled terminal_size combined d)

-- `detect_true_color`, on the two variables of the environment.
abbrev pub starts_with_vscode : Bytes → Bool
starts_with_vscode s = same (take 6 s) (text "vscode")

unfoldable pub contains_vscode : Bytes → Bool
contains_vscode [] = false
contains_vscode (b ∷ rest) = starts_with_vscode (b ∷ rest) || contains_vscode rest

abbrev pub map_or : Option Bytes → (Bytes → Bool) → Bool
map_or none test = false
map_or (some value) test = test value

unfoldable pub detect_true_color : Option Bytes → Option Bytes → Bool
unfolding contains_vscode
detect_true_color term_program colorterm =
    if map_or term_program contains_vscode
    then false
    else map_or colorterm (λ val. same val (text "truecolor") || same val (text "24bit"))
