-- ===== src/Client/Renderer.antt =====
-- client/src/renderer.rs: what is written to the terminal, as the list of the commands that are queued.
-- The terminal takes what it is given: a write to it that fails is not modelled.
pub mod Screen
pub mod Plain
pub mod Redraw
pub mod Difference
use facetime_v.Base.{
  Bool, Bytes, List, Option, [], bytes_instance, drop, false, get_elem?, if◌then◌else◌, length, ltb,
  min, nat_instance, none, not, same, some, suc, ℕ, ◌&&◌, ◌++◌, ◌+◌, ◌-◌, ◌/◌, ◌==◌, ◌∷◌,
}
use facetime_v.Client.Visible.{lines}
use facetime_v.Client.Layout.{spaces, cut_u16}

-- The commands of crossterm that are queued.
pub data TerminalCommand : Type 0 where
  hide show clear_all : TerminalCommand
  move_to : ℕ → ℕ → TerminalCommand
  print : Bytes → TerminalCommand

pub record Renderer : Type 0 where
  pub last_frame : Option (List Bytes)
  pub terminal_size : Option (ℕ × ℕ)
  pub cursor_hidden : Bool
  pub queued : List TerminalCommand

-- `Renderer::new`.
abbrev pub new_renderer : Renderer
new_renderer = record {
  last_frame = none;
  terminal_size = none;
  cursor_hidden = false;
  queued = [];
}

abbrev pub Size : Type 0
Size = Option (ℕ × ℕ)

unfoldable pub clear_to_end_of_line : Size → ℕ → List TerminalCommand
clear_to_end_of_line none pos = []
clear_to_end_of_line (some (width, height)) pos =
    if ltb pos width then print (spaces (width - pos)) ∷ [] else []

-- `lines.last()`.
abbrev pub last_len : List Bytes → ℕ
last_len [] = 0
last_len (line ∷ []) = length line
last_len (line ∷ next ∷ rest) = last_len (next ∷ rest)

unfoldable pub position_cursor_at_end : Size → List Bytes → List TerminalCommand
position_cursor_at_end none content = []
position_cursor_at_end (some (width, height)) content =
    move_to (min (cut_u16 (last_len content)) (width - 1))
      (min (cut_u16 (length content - 1)) (height - 1))
    ∷ []

abbrev pub clear_terminal : List TerminalCommand
clear_terminal = clear_all ∷ move_to 0 0 ∷ []

-- A line, and the rest of its row made blank.
abbrev pub whole_line : Size → ℕ → Bytes → List TerminalCommand
whole_line size line_num line =
    move_to 0 (cut_u16 line_num) ∷ print line ∷ clear_to_end_of_line size (length line)

-- `for (line_num, line) in lines.iter().enumerate()`, from `line_num` on.
unfoldable pub whole_lines : Size → ℕ → List Bytes → List TerminalCommand
unfolding clear_to_end_of_line
whole_lines size line_num [] = []
whole_lines size line_num (line ∷ rest) =
    whole_line size line_num line ++ whole_lines size (line_num + 1) rest

-- The lines of the last frame that have no line in the new one.
unfoldable pub blank_lines : ℕ → List Bytes → List TerminalCommand
blank_lines line_num [] = []
blank_lines line_num (old_line ∷ rest) =
    move_to 0 (cut_u16 line_num)
    ∷ print (spaces (length old_line))
    ∷ blank_lines (line_num + 1) rest

abbrev pub blank_rest : ℕ → Option (List Bytes) → List TerminalCommand
blank_rest count none = []
blank_rest count (some last_lines) = blank_lines count (drop count last_lines)

unfoldable pub render_full_frame : Size → Option (List Bytes) → List Bytes → List TerminalCommand
unfolding whole_lines blank_lines position_cursor_at_end
render_full_frame size last_frame content =
    move_to 0 0 ∷ whole_lines size 0 content
    ++ blank_rest (length content) last_frame
    ++ position_cursor_at_end size content

-- The first line that differs, or how many lines the shorter one has.
unfoldable pub first_diff : List Bytes → List Bytes → ℕ
first_diff [] old = 0
first_diff (line ∷ content) [] = 0
first_diff (line ∷ content) (old_line ∷ old) =
    let later = first_diff content old in if same line old_line then suc later else 0

-- `last_lines.get(line_num)`.
abbrev pub clear_after : Size → Bytes → Option Bytes → List TerminalCommand
clear_after size line none = []
clear_after size line (some old_line) =
    if ltb (length line) (length old_line) then clear_to_end_of_line size (length line) else []

abbrev pub plain_line : Size → ℕ → Bytes → Option Bytes → List TerminalCommand
plain_line size line_num line old_line =
    move_to 0 (cut_u16 line_num) ∷ print line ∷ clear_after size line old_line

-- `new_lines.iter().enumerate().skip(first_diff)`, from `line_num` on.
unfoldable pub plain_lines : Size → ℕ → List Bytes → List Bytes → List TerminalCommand
unfolding clear_to_end_of_line
plain_lines size line_num last_lines [] = []
plain_lines size line_num last_lines (line ∷ rest) =
    plain_line size line_num line (get_elem? last_lines line_num)
    ++ plain_lines size (line_num + 1) last_lines rest

-- The lines behind those of the last frame, once more.
unfoldable pub added_lines : ℕ → List Bytes → List TerminalCommand
added_lines line_num [] = []
added_lines line_num (line ∷ rest) =
    move_to 0 (cut_u16 line_num) ∷ print line ∷ added_lines (line_num + 1) rest

unfoldable pub render_plain : Size → Option (List Bytes) → List Bytes → List TerminalCommand
unfolding render_full_frame first_diff plain_lines added_lines position_cursor_at_end
render_plain size none new_lines = render_full_frame size none new_lines
render_plain size (some last_lines) new_lines =
    plain_lines size (first_diff new_lines last_lines) last_lines
      (drop (first_diff new_lines last_lines) new_lines)
    ++ added_lines (length last_lines) (drop (length last_lines) new_lines)
    ++ position_cursor_at_end size new_lines

-- The lines that differ, with their numbers from `line_num` on.
unfoldable pub diffs : ℕ → List Bytes → List Bytes → List (ℕ × Bytes)
diffs line_num [] last_lines = []
diffs line_num (line ∷ rest) [] = (line_num, line) ∷ diffs (line_num + 1) rest []
diffs line_num (line ∷ rest) (old ∷ last_lines) =
    let later = diffs (line_num + 1) rest last_lines in
    if same line old then later else (line_num, line) ∷ later

unfoldable pub diff_lines : Size → List (ℕ × Bytes) → List TerminalCommand
unfolding clear_to_end_of_line
diff_lines size [] = []
diff_lines size ((line_num, line) ∷ rest) = whole_line size line_num line ++ diff_lines size rest

unfoldable pub render_colored : Size → Option (List Bytes) → List Bytes → List TerminalCommand
unfolding render_full_frame diffs diff_lines position_cursor_at_end
render_colored size none new_lines = render_full_frame size none new_lines
render_colored size (some last_lines) new_lines =
    let changed = diffs 0 new_lines last_lines in
    if not (length new_lines == length last_lines)
    then render_full_frame size (some last_lines) new_lines
    else if ltb (length new_lines / 3) (length changed)
    then render_full_frame size (some last_lines) new_lines
    else diff_lines size changed ++ position_cursor_at_end size new_lines

abbrev pub same_size : ℕ → ℕ → Size → Bool
same_size width height none = false
same_size width height (some (w, h)) = width == w && height == h

-- `new_content.replace("\r\n", "\n")`.
unfoldable pub replace_returns : Bytes → Bytes
replace_returns [] = []
replace_returns (b ∷ []) = b ∷ []
replace_returns (b ∷ c ∷ rest) =
    let later = replace_returns (c ∷ rest) in if b == 13 && c == 10 then later else b ∷ later

-- The first block of `update_terminal`.
unfoldable pub take_size : ℕ → ℕ → Renderer → Renderer
take_size width height r = if same_size width height r.terminal_size then r else record r {
  terminal_size = some (width, height);
  last_frame = none;
  queued = r.queued ++ clear_terminal;
}

abbrev pub hide_cursor : Bool → List TerminalCommand
hide_cursor cursor_hidden = if cursor_hidden then [] else hide ∷ []

unfoldable pub update_terminal : Bytes → ℕ → ℕ → Bool → Renderer → Renderer
unfolding lines replace_returns take_size render_colored render_plain
update_terminal new_content width height color_enabled renderer =
    let r = take_size width height renderer in
    let new_lines = lines (replace_returns new_content) in
    let commands =
      if color_enabled
      then render_colored r.terminal_size r.last_frame new_lines
      else render_plain r.terminal_size r.last_frame new_lines in
    record r {
      last_frame = some new_lines;
      cursor_hidden = false;
      queued = r.queued ++ hide_cursor r.cursor_hidden ++ commands ++ show ∷ [];
    }
