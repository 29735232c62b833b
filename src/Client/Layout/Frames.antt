-- ===== src/Client/Layout/Frames.antt =====
-- frame.rs: the frames of a call drawn, centred in their cells, and put into a grid.
use facetime_v.Base.{
  Bool, Bytes, List, Option, Result, [], drop, err, get_elem?, if◌then◌else◌, is_empty, length, ltb,
  map, max, none, ok, panicked, replicate, some, suc, take, zero, ℕ, ◌*◌, ◌++◌, ◌+◌, ◌-◌, ◌==◌,
  ◌>>=◌, ◌^◌, ◌∷◌,
}
use facetime_v.Client.Frame.{Frame}
use facetime_v.Client.Visible.{lines, unlines}
use facetime_v.Client.Ascii.{Mode, Resize, to_ascii}
use facetime_v.Client.Layout.{
  Floats, cell_of, calculate_frame_dimensions, optimal_two_frame_layout, calculate_optimal_grid,
  center_in_cell, center_full_grid, spaces,
}

abbrev pub spacing_x : ℕ
spacing_x = 2

abbrev pub spacing_y : ℕ
spacing_y = 1

-- `frame.get(line)`, and nothing where the frame has no such line.
abbrev pub cell_line : ℕ → List Bytes → Bytes
cell_line i frame = elim (get_elem? frame i) [ none ↦ [] | some l ↦ l ]

abbrev pub row_rest : ℕ → List (List Bytes) → Bytes
row_rest i [] = []
row_rest i (frame ∷ row) = spaces spacing_x ++ (cell_line i frame ++ row_rest i row)

-- Line `i` of a row of frames, with the spacing before all but the first.
unfoldable pub row_line : ℕ → List (List Bytes) → Bytes
row_line i [] = []
row_line i (frame ∷ row) = cell_line i frame ++ row_rest i row

-- `for line in 0..max_lines`, from `i` on for `n` lines.
unfoldable pub row_lines : ℕ → ℕ → List (List Bytes) → List Bytes
unfolding row_line
row_lines zero i row = []
row_lines (suc n) i row = row_line i row ∷ row_lines n (i + 1) row

unfoldable pub max_lines : List (List Bytes) → ℕ
max_lines [] = 0
max_lines (frame ∷ row) = max (length frame) (max_lines row)

abbrev pub grid_row : List Bytes → List Bytes
grid_row row = row_lines (max_lines (map lines row)) 0 (map lines row)

-- `frames.chunks(cols)`; there are at most as many as frames.
unfoldable pub frame_chunks : ℕ → ℕ → List Bytes → List (List Bytes)
frame_chunks zero cols frames = []
frame_chunks (suc fuel) cols [] = []
frame_chunks (suc fuel) cols (frame ∷ frames) =
    take cols (frame ∷ frames) ∷ frame_chunks fuel cols (drop cols (frame ∷ frames))

-- The rows behind the first, each with its line feeds before it: empty lines.
unfoldable pub grid_rest : List (List Bytes) → List Bytes
unfolding row_lines max_lines lines
grid_rest [] = []
grid_rest (row ∷ rows) = replicate spacing_y [] ++ (grid_row row ++ grid_rest rows)

unfoldable pub grid_lines : List (List Bytes) → List Bytes
unfolding grid_rest
grid_lines [] = []
grid_lines (row ∷ rows) = grid_row row ++ grid_rest rows

-- `chunks` panics at a width of 0.
unfoldable pub combine_into_grid : List Bytes → ℕ → Result Bytes
unfolding grid_lines frame_chunks unlines
combine_into_grid frames cols =
    if is_empty frames
    then ok []
    else if cols == 0
    then err panicked
    else ok (unlines (grid_lines (frame_chunks (length frames) cols frames)))

-- The match on the number of frames.
unfoldable pub grid_for : (floats : Floats) → ℕ → ℕ → ℕ → floats.f64 → Result (ℕ × ℕ)
unfolding calculate_optimal_grid optimal_two_frame_layout
grid_for floats count target_width target_height aspect_ratio =
    if count == 1
    then ok (1, 1)
    else if count == 2
    then ok (optimal_two_frame_layout floats target_width target_height aspect_ratio)
    else calculate_optimal_grid floats count target_width target_height aspect_ratio

-- A buffer keeps what it had where the frame cannot be drawn.
abbrev pub fill_buffer : Bytes → ℕ → ℕ → Option Bytes → Result Bytes
fill_buffer buffer cell_width cell_height none = ok buffer
fill_buffer buffer cell_width cell_height (some ascii) = center_in_cell ascii cell_width cell_height

-- The loop over the frames and their buffers.
unfoldable pub draw_frames :
    Resize → Mode → ℕ × ℕ → ℕ × ℕ → List Frame → List Bytes → Result (List Bytes)
unfolding to_ascii center_in_cell
draw_frames resize mode size cell [] buffers = ok []
draw_frames resize mode size cell (frame ∷ frames) [] = ok []
draw_frames resize mode (w, h) (cell_w, cell_h) (frame ∷ frames) (buffer ∷ buffers) = do
  ascii ← to_ascii resize mode frame w h
  filled ← fill_buffer buffer cell_w cell_h ascii
  others ← draw_frames resize mode (w, h) (cell_w, cell_h) frames buffers
  ok (filled ∷ others)

-- `temp_buffers.resize(count, String::new())`.
abbrev pub resize_buffers : ℕ → List Bytes → List Bytes
resize_buffers count buffers = take count buffers ++ replicate (count - length buffers) []

-- A product of `u16`, which panics where it does not fit.
abbrev pub checked_mul : ℕ → ℕ → Result ℕ
checked_mul a b = if ltb (a * b) (2 ^ 16) then ok (a * b) else err panicked

-- The bytes that are reckoned for a character.
abbrev pub per_character : Bool → ℕ
per_character color_enabled = if color_enabled then 15 else 2

-- `estimated_size`, of which nothing is kept but that it can be computed.
unfoldable pub estimated_size : Bool → ℕ × ℕ → Result ℕ
estimated_size color_enabled (frame_width, frame_height) = do
  area ← checked_mul frame_width frame_height
  checked_mul area (per_character color_enabled)

abbrev pub aspect_of : (floats : Floats) → Frame → floats.f64
aspect_of floats frame = floats.over (floats.of_nat frame.width) (floats.of_nat frame.height)

-- The size of the terminal as the layout takes it and as it is.
pub record Terminal : Type 0 where
  pub target_width : ℕ
  pub target_height : ℕ
  pub true_width : ℕ
  pub true_height : ℕ

-- `combine_frames_with_buffers`: the text, and the buffers for the next time.
unfoldable pub combine_frames :
    Floats → Resize → Mode → Terminal → List Frame → List Bytes → Result (Bytes × List Bytes)
unfolding grid_for estimated_size draw_frames combine_into_grid center_full_grid
    calculate_frame_dimensions
combine_frames floats resize mode t [] buffers = ok ([], buffers)
combine_frames floats resize mode t (frame ∷ frames) buffers = do
  (cols, rows) ←
      grid_for floats (length (frame ∷ frames)) t.target_width t.target_height
        (aspect_of floats frame)
  (cell_w, cell_h) ← cell_of t.target_width t.target_height cols rows
  reserved ←
      estimated_size mode.color_enabled
        (calculate_frame_dimensions floats cell_w cell_h (aspect_of floats frame))
  temp_buffers ←
      draw_frames resize mode
        (calculate_frame_dimensions floats cell_w cell_h (aspect_of floats frame)) (cell_w, cell_h)
        (frame ∷ frames) (resize_buffers (length (frame ∷ frames)) buffers)
  content ← combine_into_grid temp_buffers cols
  centered ← center_full_grid content t.true_width t.true_height
  ok (centered, temp_buffers)
