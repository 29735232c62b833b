-- ===== src/Client/CallTests.antt =====
-- The client before and in a call, at concrete lines, rooms, cameras and frames.
use facetime_v.Base.{
  All, Bool, Bytes, IsByte, List, Option, Result, [], arith, bytes_instance, contains_key, decimal,
  false, inl, length, nat_instance, none, ok, refl, replicate, some, suc, text, true, zero, ℕ, ◌*◌,
  ◌++◌, ◌+◌, ◌/◌, ◌==◌, ◌∷◌, ◌≡◌, ◌≤◌,
}
use facetime_v.Protocol.Utf8.{from_utf8, chars}
use facetime_v.Server.State.{Room, World}
use facetime_v.Server.Session.{Outside}
use facetime_v.Client.Frame.{Frame}
use facetime_v.Client.Camera.{pos, parse_i32, is_valid_camera_name, IsUsable}
use facetime_v.Client.Camera.Names.{is_valid_camera_name-IsUsable}
use facetime_v.Client.Display.{border_fill_width, box_lines}
use facetime_v.Client.Display.Widths.{HasCharCount, box_lines-HasCharCount}
use facetime_v.Base.Exec.{◌>>=◌}
use facetime_v.Client.Commands.Exchange.{
  switch_camera, join_room, Client, create_room, join_room, run,
}
use facetime_v.Client.Commands.Served.{against}
use facetime_v.Client.Commands.Typed.{typed, join}
use facetime_v.Client.Commands.Words.{join_verb, typed-words}
use facetime_v.Client.Commands.Creating.{CreatedOrNoted, create_room-against}
use facetime_v.Client.Commands.Loop.{HasUsableCamera, run-HasUsableCamera}
use facetime_v.Client.Commands.Calls.{run-IsCall}
use facetime_v.Client.Visible.{unlines}
use facetime_v.Client.Ascii.{Resize}
use facetime_v.Client.Ascii.Rows.{IsPicture}
use facetime_v.Client.Renderer.{render_plain, render_full_frame}
use facetime_v.Client.Renderer.Screen.{Screen, apply_all, padded, line_of}
use facetime_v.Client.Renderer.Difference.{render_plain-render_full_frame}
use facetime_v.Protocol.Id.{other_user_joined_room, other_user_left_room}
use facetime_v.Protocol.Command.{all_read, ReceivedTcpCommand, eof, command, bytes}
use facetime_v.Client.Call.{constrained, FrameMap, tcp_loop, Drawing, render_turn, shown_frames}
use facetime_v.Client.Call.Members.{present_at_end, contains_key-tcp_loop}
use facetime_v.Client.Call.Turn.{render_turn-IsPicture}
use facetime_v.Client.Renderer.{new_renderer}
use facetime_v.Client.Layout.{Floats, calculate_frame_dimensions}
use facetime_v.Client.Layout.Size.{Covers, grid_for-Covers, calculate_frame_dimensions_fits}
use facetime_v.Client.Layout.Grid.{Drawable}
use facetime_v.Client.Layout.Whole.{combine_frames-IsPicture}
use facetime_v.Client.Layout.Frames.{grid_for, Terminal, combine_frames}

abbrev rid_1 : Bytes
rid_1 = 1 ∷ 1 ∷ 1 ∷ 1 ∷ []

abbrev sid_7 : Bytes
sid_7 = 0 ∷ 0 ∷ 0 ∷ 7 ∷ []

abbrev den : Room
den = record { name = text "den"; stream_id_to_socket_addr = []; users = [] }

abbrev one_room : World
one_room = record {
  users = text "ann" ∷ [];
  room_map = (rid_1, den) ∷ [];
  senders = (text "ann", 1) ∷ [];
  current_sid = none;
  stream = record { written = []; peer_reads = all_read };
  sent = [];
}

abbrev outside : Outside
outside = record { live = λ tx. true; debug = λ cmd. text "command" }

abbrev ann : Client
ann = record {
  tcp = record { written = []; peer_reads = all_read };
  incoming = [];
  camera_index = pos 0;
  shown = [];
}

create_room-against_example :
    CreatedOrNoted
      (2 ∷ 2 ∷ 2 ∷ 2 ∷ [])
      (text "lab")
      ann
      one_room
      (against outside (text "ann") (2 ∷ 2 ∷ 2 ∷ 2 ∷ []) (create_room (text "lab")) ann one_room)
create_room-against_example =
    create_room-against outside (text "ann") (2 ∷ 2 ∷ 2 ∷ 2 ∷ []) (text "lab") ann one_room
      (unfold from_utf8 in refl) (omega arith) (refl, refl)

-- The third camera can be opened.
abbrev opens : ℕ → Bool
opens i = i == 2

is_valid_camera_name-IsUsable_example :
    (n : ℕ) × (parse_i32 (text "2") ≡ some (pos n)) × IsUsable opens n
is_valid_camera_name-IsUsable_example =
    is_valid_camera_name-IsUsable opens (text "2") (unfold is_valid_camera_name decimal in refl)

abbrev typed_lines : List (Option Bytes)
typed_lines = some (text "Switch camera 2\n") ∷ none ∷ some (text "join room den\n") ∷ []

-- The server's answer to the join is waiting.
abbrev ann_answered : Client
ann_answered = record ann { incoming = 81 ∷ 8 ∷ rid_1 ++ sid_7 }

run-HasUsableCamera_example :
    HasUsableCamera opens (run opens (text "ann") typed_lines ann_answered).1
run-HasUsableCamera_example =
    run-HasUsableCamera opens (text "ann") typed_lines ann_answered (0, refl, inl refl)

joined_den : (run opens (text "ann") typed_lines ann_answered).0 ≡ ok (some (rid_1 ++ sid_7))
unfolding run ◌>>=◌ switch_camera decimal join_room
joined_den = refl

run-IsCall_example : length (rid_1 ++ sid_7) ≡ 8
run-IsCall_example =
    run-IsCall opens (text "ann") (rid_1 ++ sid_7) typed_lines ann_answered joined_den

abbrev entries : List Bytes
entries = text "- ann (you)" ∷ (0xc3 ∷ 0xa9 ∷ text "t") ∷ []

box_lines-HasCharCount_example :
    All
      (HasCharCount (border_fill_width (text "Active Users") entries + 4))
      (box_lines (text "Active Users") entries)
box_lines-HasCharCount_example =
    box_lines-HasCharCount (text "Active Users") entries
      (record { is_text = unfold from_utf8 in refl; ascii = unfold chars in refl })
      (unfold from_utf8 in (refl, (refl, tt)))

-- Numbers without a fraction, as floating-point numbers.
abbrev whole_numbers : Floats
whole_numbers = record {
  f64 = ℕ;
  of_nat = λ n. n;
  times = λ x y. x * y;
  over = λ x y. x / y;
  as_u16 = λ x. x;
  sqrt_ceil = λ x. x;
}

calculate_frame_dimensions_fits_example :
    let (w, h) = calculate_frame_dimensions whole_numbers 80 24 1 in (w ≤ 80) × (h ≤ 24)
calculate_frame_dimensions_fits_example = calculate_frame_dimensions_fits whole_numbers 80 24 1

grid_for-Covers_example :
    (grid : ℕ × ℕ) × (grid_for whole_numbers 5 80 24 1 ≡ ok grid) × Covers 5 80 24 grid
grid_for-Covers_example =
    grid_for-Covers whole_numbers 5 80 24 1 (omega arith) (omega arith) (omega arith) (omega arith)
      (omega arith) (omega arith)

-- Every picture is resized to a black one.
abbrev black : Resize
black pixels own_w own_h w h = some (replicate (h * (3 * w)) 0)

abbrev dot : Frame
dot = record { width = 1; height = 1; pixels = 9 ∷ 9 ∷ 9 ∷ [] }

abbrev zero_bytes : ℕ → Bytes
zero_bytes n = replicate n 0

zeros : (n : ℕ) → (length (zero_bytes n) ≡ n) × All IsByte (zero_bytes n)
zeros zero = (refl, tt)
zeros (suc n) = let (l, b) = zeros n in (omega (arith, l), (omega arith, b))

dot-Drawable : (w h : ℕ) → Drawable black w h dot
dot-Drawable w h = record {
  size = refl;
  resized = replicate (h * (3 * w)) 0;
  resizes = refl;
  is_bytes = (zeros (h * (3 * w))).1;
  enough = omega (arith, (zeros (h * (3 * w))).0);
}

abbrev screen : Terminal
screen = record { target_width = 80; target_height = 24; true_width = 90; true_height = 30 }

combine_frames-IsPicture_example :
    (out : List Bytes) × (temp_buffers : List Bytes) × (combine_frames whole_numbers black
        (record { color_enabled = true; true_color = false })
        screen
        (dot ∷ dot ∷ dot ∷ [])
        []
      ≡ ok (unlines out, temp_buffers))
    × IsPicture 90 30 out
combine_frames-IsPicture_example =
    combine_frames-IsPicture whole_numbers black
      (record { color_enabled = true; true_color = false }) screen dot (dot ∷ dot ∷ []) []
      (omega arith)
      (record {
        word = omega arith;
        two_columns = omega arith;
        one_line = omega arith;
        lines_for_frames = omega arith;
        few_characters = omega arith;
        wide = omega arith;
        high = omega arith;
      })
      (record {
        drawn = λ cols rows cell_w cell_h eg ec.
            (dot-Drawable _ _, (dot-Drawable _ _, (dot-Drawable _ _, tt)));
      })

abbrev old_lines : List Bytes
old_lines = text "abc" ∷ text "cd" ∷ []

abbrev new_lines : List Bytes
new_lines = text "abc" ∷ text "x" ∷ text "ef" ∷ []

abbrev old_screen : Screen
old_screen = record { rows = λ i. padded 4 (line_of old_lines i); x = 0; y = 0 }

render_plain-render_full_frame_example :
    (apply_all 4 3 (render_plain (some (4, 3)) (some old_lines) new_lines) old_screen).rows 1
    ≡ (apply_all 4 3 (render_full_frame (some (4, 3)) none new_lines) old_screen).rows 1
render_plain-render_full_frame_example =
    render_plain-render_full_frame 4 3 old_lines new_lines old_screen
      (record {
        shown = record { row = λ i lt. refl };
        not_fewer = omega arith;
        small = omega arith;
        fits = omega arith;
        old_narrow = (omega arith, (omega arith, tt));
        narrow = (omega arith, (omega arith, (omega arith, tt)));
      })
      1 (omega arith)

-- One stream joins, another joins and leaves, and the server closes.
abbrev received : List (Result ReceivedTcpCommand)
received =
    ok (command (bytes other_user_joined_room sid_7))
    ∷ ok (command (bytes other_user_joined_room rid_1))
    ∷ ok (command (bytes other_user_left_room rid_1))
    ∷ ok eof
    ∷ ok (command (bytes other_user_left_room sid_7))
    ∷ []

abbrev no_frames : FrameMap
no_frames = []

contains_key-tcp_loop_example :
    contains_key sid_7 (tcp_loop received no_frames).1
    ≡ present_at_end sid_7 received (contains_key sid_7 no_frames)
contains_key-tcp_loop_example = contains_key-tcp_loop sid_7 received no_frames refl

abbrev drawing : Drawing
drawing = record {
  last_content = [];
  renderer = new_renderer;
  temp_buffers = [];
  last_terminal_size = (0, 0);
}

render_turn-IsPicture_example :
    (after : Drawing) × (out : List Bytes) × (render_turn whole_numbers black
        (record { color_enabled = false; true_color = true })
        (80, 24)
        dot
        ((sid_7, some dot) ∷ (rid_1, none) ∷ [])
        drawing
      ≡ ok after)
    × (after.last_content ≡ unlines out)
    × IsPicture 80 24 out
render_turn-IsPicture_example =
    render_turn-IsPicture whole_numbers black (record { color_enabled = false; true_color = true })
      80 24 dot ((sid_7, some dot) ∷ (rid_1, none) ∷ []) drawing
      (unfold shown_frames in
        (record {
          word = omega arith;
          two_columns = omega arith;
          one_line = omega arith;
          lines_for_frames = omega arith;
          few_frames = omega arith;
          few_characters = (unfold constrained in (omega arith));
        }))
      (unfold shown_frames in
        (record {
          drawn = λ cols rows cell_w cell_h eg ec. (dot-Drawable _ _, (dot-Drawable _ _, tt));
        }))

typed-words_example : typed (text "Join ROOM" ++ 32 ∷ text "Den") ≡ join (text "Den")
typed-words_example =
    typed-words join_verb (text "Join ROOM") (text "Den") refl
      (omega arith, (omega arith, (omega arith, tt)))
