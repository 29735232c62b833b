-- ===== src/Client/Display.antt =====
-- client/src/cli_display.rs: what the client prints, as the lines that it prints. A text is kept as
-- its bytes; the glyphs of the frames are written as their UTF-8 bytes.
pub mod Widths
use facetime_v.Base.{
  Bytes, List, Option, [], bytes_instance, get_elem?, if◌then◌else◌, is_empty, leb, length, ltb,
  map, max, nat_instance, none, same, some, suc, text, zero, ℕ, ◌&&◌, ◌++◌, ◌+◌, ◌-◌, ◌/◌, ◌∷◌,
}
use facetime_v.Protocol.Utf8.{chars}
use facetime_v.Client.Camera.{
  ℤ, pos, negsuc, CameraTestMode, spiral_tunnel, vortex_grid, diamond_flow, test_modes,
  max_user_cameras, parse_i32, i32_text,
}

-- The glyphs of a single frame and of a double one.
abbrev pub horizontal : Bytes
horizontal = 0xe2 ∷ 0x94 ∷ 0x80 ∷ []

abbrev pub vertical : Bytes
vertical = 0xe2 ∷ 0x94 ∷ 0x82 ∷ []

abbrev pub top_left : Bytes
top_left = 0xe2 ∷ 0x95 ∷ 0xad ∷ []

abbrev pub top_right : Bytes
top_right = 0xe2 ∷ 0x95 ∷ 0xae ∷ []

abbrev pub bottom_left : Bytes
bottom_left = 0xe2 ∷ 0x95 ∷ 0xb0 ∷ []

abbrev pub bottom_right : Bytes
bottom_right = 0xe2 ∷ 0x95 ∷ 0xaf ∷ []

abbrev pub double_horizontal : Bytes
double_horizontal = 0xe2 ∷ 0x95 ∷ 0x90 ∷ []

abbrev pub double_vertical : Bytes
double_vertical = 0xe2 ∷ 0x95 ∷ 0x91 ∷ []

abbrev pub double_top_left : Bytes
double_top_left = 0xe2 ∷ 0x95 ∷ 0x94 ∷ []

abbrev pub double_top_right : Bytes
double_top_right = 0xe2 ∷ 0x95 ∷ 0x97 ∷ []

abbrev pub double_bottom_left : Bytes
double_bottom_left = 0xe2 ∷ 0x95 ∷ 0x9a ∷ []

abbrev pub double_bottom_right : Bytes
double_bottom_right = 0xe2 ∷ 0x95 ∷ 0x9d ∷ []

-- `s.repeat(n)`.
unfoldable pub repeat : Bytes → ℕ → Bytes
repeat s zero = []
repeat s (suc n) = s ++ repeat s n

-- `{:width$}`, which counts characters.
unfoldable pub pad_right : ℕ → Bytes → Bytes
unfolding repeat
pad_right width s = s ++ repeat (text " ") (width - length (chars s))

-- `lines.iter().map(|line| line.len()).max().unwrap_or(0)`: in bytes.
unfoldable pub longest : List Bytes → ℕ
longest [] = 0
longest (line ∷ lines) = max (length line) (longest lines)

unfoldable pub double_box_width : Bytes → List Bytes → ℕ
unfolding longest
double_box_width title lines = max (longest lines) (length title + 4)

abbrev pub double_line : ℕ → Bytes → Bytes
double_line width line =
    double_vertical ++ text " " ++ pad_right width line ++ text " " ++ double_vertical

unfoldable pub draw_double_box : Bytes → List Bytes → List Bytes
unfolding double_box_width pad_right repeat
draw_double_box title lines =
    let width = double_box_width title lines in
    (double_top_left
        ++ repeat double_horizontal 2
        ++ text " "
        ++ title
        ++ text " "
        ++ repeat double_horizontal (width - length title - 2)
        ++ double_top_right)
      ∷ map (double_line width) lines
    ++ (double_bottom_left ++ repeat double_horizontal (width + 2) ++ double_bottom_right) ∷ []

abbrev pub left_padding : ℕ
left_padding = 2

abbrev pub right_padding : ℕ
right_padding = 2

-- `format!(" {} ", title)`.
abbrev pub title_str : Bytes → Bytes
title_str title = text " " ++ title ++ text " "

unfoldable pub border_fill_width : Bytes → List Bytes → ℕ
unfolding longest
border_fill_width title lines =
    max (left_padding + longest lines + right_padding) (length (title_str title))

abbrev pub box_line : ℕ → Bytes → Bytes
box_line width content = vertical ++ text " " ++ pad_right width content ++ text " " ++ vertical

abbrev pub padded : Bytes → Bytes
padded line = repeat (text " ") left_padding ++ line ++ repeat (text " ") right_padding

-- The frame itself; `draw_box` prints an empty line above it.
unfoldable pub box_lines : Bytes → List Bytes → List Bytes
unfolding border_fill_width pad_right repeat
box_lines title lines =
    let width = border_fill_width title lines in
    let side_space = width - length (title_str title) in
    (top_left
        ++ horizontal
        ++ repeat horizontal (side_space / 2)
        ++ title_str title
        ++ repeat horizontal (side_space - side_space / 2)
        ++ horizontal
        ++ top_right)
      ∷ box_line width []
      ∷ map (λ line. box_line width (padded line)) lines
    ++ (bottom_left ++ repeat horizontal (width + 2) ++ bottom_right) ∷ []

unfoldable pub draw_box : Bytes → List Bytes → List Bytes
unfolding box_lines
draw_box title lines = [] ∷ box_lines title lines

abbrev pub user_entry : Bytes → Bytes → Bytes
user_entry current_username r =
    if same r current_username then text "- " ++ r ++ text " (you)" else text "- " ++ r

unfoldable pub print_user_list : List Bytes → Bytes → List Bytes
unfolding draw_box
print_user_list user_list current_username =
    let content =
      if is_empty user_list
      then text "(no users found)" ∷ []
      else map (user_entry current_username) user_list in
    draw_box (text "Active Users") content ++ [] ∷ []

unfoldable pub print_room_list : List Bytes → List Bytes
unfolding draw_box
print_room_list room_list =
    let content =
      if is_empty room_list
      then text "(no rooms available)" ∷ []
      else map (λ r. text "- " ++ r) room_list in
    draw_box (text "Available Rooms") content ++ [] ∷ []

-- The names that `strum` gives to the modes.
abbrev pub mode_name : CameraTestMode → Bytes
mode_name spiral_tunnel = text "spiral"
mode_name vortex_grid = text "vortex"
mode_name diamond_flow = text "diamond"

-- `CameraTestMode::iter().nth(test_index)`, and what is printed for it.
abbrev pub test_entry : Bytes → Option CameraTestMode → Bytes
test_entry r none = text "- " ++ r ++ text " (test camera: unknown)"
test_entry r (some mode) = text "- " ++ r ++ text " (test camera: " ++ mode_name mode ++ text ")"

unfoldable pub index_entry : Bytes → Option ℤ → Bytes
index_entry r none = text "- " ++ r
index_entry r (some (negsuc n)) = text "- " ++ r
index_entry r (some (pos index)) =
    if leb max_user_cameras index && ltb index (max_user_cameras + length test_modes)
    then test_entry r (get_elem? test_modes (index - max_user_cameras))
    else text "- " ++ r

unfoldable pub camera_entry : Bytes → Bytes
unfolding index_entry parse_i32
camera_entry r = if same r (text "0") then text "- 0 (main camera)" else index_entry r (parse_i32 r)

unfoldable pub print_camera_list : List Bytes → ℤ → List Bytes
unfolding draw_box camera_entry i32_text
print_camera_list camera_list current_camera_index =
    let content =
      if is_empty camera_list
      then text "(no cameras available)" ∷ []
      else map camera_entry camera_list in
    draw_box (text "Available Cameras") (
      content
      ++ [] ∷ (text "You are currently using camera " ++ i32_text current_camera_index) ∷ [])
    ++ [] ∷ []

abbrev pub print_command_help : List Bytes
print_command_help =
    []
    ∷ text "Available Commands:"
    ∷ text "    - list users|rooms|cameras   : Lists users, rooms, or available cameras"
    ∷ text "    - switch camera [index]      : Switches to camera at index"
    ∷ text "    - create room <string>       : Creates a new room"
    ∷ text "    - delete room <string>       : Deletes a room"
    ∷ text "    - join room <string>         : Joins a specific room"
    ∷ text "    - help                       : Displays a list of available commands"
    ∷ text "    - exit                       : Quits the application"
    ∷ []
    ∷ []

-- What is printed behind the clearing of the screen; `now` is the time as it is written.
unfoldable pub print_connected_message : Bytes → Bytes → Bytes → List Bytes
unfolding draw_double_box
print_connected_message now server_addr username =
    draw_double_box (text "Connected to WeSFU (version 5)") (
      (text "Time: " ++ now)
      ∷ (text "Server: " ++ server_addr)
      ∷ (text "User: " ++ username)
      ∷ text "Status: Connection OK"
      ∷ [])
    ++ print_command_help
    ++ text "Type a command to get started:" ∷ [] ∷ []
