-- ===== src/Client/Layout.antt =====
-- client/src/frame.rs: the frames of a call laid out in the terminal. Floating-point numbers are a
-- parameter. Sizes of the terminal are 16-bit words. A subtraction of `usize` below 0 is `panicked`: a
-- debug build panics at it, and what a release build goes on to do with the huge number, to repeat a
-- space that often or to run a loop that often, ends the program too.
pub mod Frames
pub mod Center
pub mod Size
pub mod Grid
pub mod Whole
use facetime_v.Base.{
  Bytes, List, Result, [], err, if◌then◌else◌, leb, length, ltb, min, ok, panicked, replicate, suc,
  text, zero, ℕ, ◌%◌, ◌&&◌, ◌*◌, ◌++◌, ◌+◌, ◌-◌, ◌/◌, ◌==◌, ◌>>=◌, ◌^◌, ◌||◌, ◌∷◌,
}
use facetime_v.Client.Visible.{count_visible_chars, lines, unlines}
use facetime_v.Client.Display.{repeat}

-- `f64`, and its operations that the layout uses: `n as f64`, `*`, `/`, `x as u16`, and `as usize` of
-- a root that is rounded up.
pub record Floats : Type 1 where
  pub f64 : Type 0
  pub of_nat : ℕ → f64
  pub times : f64 → f64 → f64
  pub over : f64 → f64 → f64
  pub as_u16 : f64 → ℕ
  pub sqrt_ceil : f64 → ℕ

-- `n as u16`.
abbrev pub cut_u16 : ℕ → ℕ
cut_u16 n = n % 2 ^ 16

abbrev pub checked_sub : ℕ → ℕ → Result ℕ
checked_sub a b = if ltb a b then err panicked else ok (a - b)

abbrev pub checked_div : ℕ → ℕ → Result ℕ
checked_div a b = if b == 0 then err panicked else ok (a / b)

module _ (floats : Floats) where
  -- The two sizes that fill the width and the height.
  abbrev pub effective_aspect_ratio : floats.f64 → floats.f64
  effective_aspect_ratio aspect_ratio = floats.times aspect_ratio (floats.of_nat 2)

  abbrev pub height_from_width : ℕ → floats.f64 → ℕ
  height_from_width max_width aspect_ratio =
      floats.as_u16 (floats.over (floats.of_nat max_width) (effective_aspect_ratio aspect_ratio))

  abbrev pub width_from_height : ℕ → floats.f64 → ℕ
  width_from_height max_height aspect_ratio =
      floats.as_u16 (floats.times (floats.of_nat max_height) (effective_aspect_ratio aspect_ratio))

-- The choice between the two.
unfoldable pub choose_size : ℕ → ℕ → ℕ → ℕ → ℕ × ℕ
choose_size max_width max_height from_width from_height =
    if leb from_width max_height && leb from_height max_width
    then if leb (from_height * max_height) (max_width * from_width)
      then (max_width, from_width)
      else (from_height, max_height)
    else if leb from_width max_height
    then (max_width, from_width)
    else if leb from_height max_width
    then (from_height, max_height)
    else (max_width, max_height)

unfoldable pub calculate_frame_dimensions : (floats : Floats) → ℕ → ℕ → floats.f64 → ℕ × ℕ
unfolding choose_size
calculate_frame_dimensions floats max_width max_height aspect_ratio =
    choose_size max_width max_height (height_from_width floats max_width aspect_ratio)
      (width_from_height floats max_height aspect_ratio)

abbrev pub area : ℕ × ℕ → ℕ
area (w, h) = w * h

unfoldable pub optimal_two_frame_layout : (floats : Floats) → ℕ → ℕ → floats.f64 → ℕ × ℕ
unfolding calculate_frame_dimensions
optimal_two_frame_layout floats width height aspect_ratio =
    let half_height = (height - 1) / 2 in
    let half_width = (width - 2) / 2 in
    let vertical_area = area (calculate_frame_dimensions floats width half_height aspect_ratio) in
    let horizontal_area = area (calculate_frame_dimensions floats half_width height aspect_ratio) in
    if leb horizontal_area vertical_area then (1, 2) else (2, 1)

-- `best` and `best_area`.
pub record Best : Type 0 where
  pub grid : ℕ × ℕ
  pub best_area : ℕ

abbrev pub better : ℕ × ℕ → ℕ → Best → Best
better grid new_area best =
    if ltb best.best_area new_area then record { grid = grid; best_area = new_area } else best

-- The cell that the frames of a grid have.
abbrev pub cell_of : ℕ → ℕ → ℕ → ℕ → Result (ℕ × ℕ)
cell_of width height cols rows = do
  cell_w ← checked_div (width - cut_u16 (2 * (cols - 1))) (cut_u16 cols)
  cell_h ← checked_div (height - cut_u16 (rows - 1)) (cut_u16 rows)
  ok (cell_w, cell_h)

-- One turn of the loop, where the cell is known.
unfoldable pub try_cell : (floats : Floats) → floats.f64 → ℕ × ℕ → ℕ × ℕ → Best → Best
unfolding calculate_frame_dimensions
try_cell floats aspect_ratio grid (cell_w, cell_h) best =
    if cell_w == 0 || cell_h == 0
    then best
    else better grid (area (calculate_frame_dimensions floats cell_w cell_h aspect_ratio)) best

-- `for cols in 1..=max_cols`, from `cols` on for `n` turns.
unfoldable pub grid_loop : (floats : Floats) → ℕ → ℕ → ℕ → floats.f64 → ℕ → ℕ → Best → Result Best
unfolding try_cell
grid_loop floats count width height aspect_ratio zero cols best = ok best
grid_loop floats count width height aspect_ratio (suc n) cols best = do
  rows ← checked_div (count + cols - 1) cols
  cell ← cell_of width height cols rows
  grid_loop floats count width height aspect_ratio n (cols + 1)
      (try_cell floats aspect_ratio (cols, rows) cell best)

unfoldable pub calculate_optimal_grid : (floats : Floats) → ℕ → ℕ → ℕ → floats.f64 → Result (ℕ × ℕ)
unfolding grid_loop
calculate_optimal_grid floats count width height aspect_ratio = do
  best ←
      grid_loop floats count width height aspect_ratio
        (min (min (floats.sqrt_ceil (floats.of_nat count) + 2) count) (width / 10)) 1
        (record { grid = (1, count); best_area = 0 })
  ok best.grid

abbrev pub spaces : ℕ → Bytes
spaces n = repeat (text " ") n

-- A line in the middle of `width` columns.
unfoldable pub center_line : ℕ → Bytes → Result Bytes
unfolding count_visible_chars repeat
center_line width line = do
  pad_right ←
      checked_sub (width - (width - count_visible_chars line) / 2) (count_visible_chars line)
  ok (spaces ((width - count_visible_chars line) / 2) ++ line ++ spaces pad_right)

unfoldable pub center_lines : ℕ → List Bytes → Result (List Bytes)
unfolding center_line
center_lines width [] = ok []
center_lines width (line ∷ rest) = do
  centered ← center_line width line
  below ← center_lines width rest
  ok (centered ∷ below)

-- The body that `center_in_cell` and `center_full_grid` share.
unfoldable pub center_text : ℕ → ℕ → List Bytes → Result (List Bytes)
unfolding center_lines repeat
center_text width height content = do
  pad_bottom ← checked_sub (height - (height - length content) / 2) (length content)
  body ← center_lines width content
  ok (
      replicate ((height - length content) / 2) (spaces width)
      ++ body
      ++ replicate pad_bottom (spaces width))

unfoldable pub center_in_cell : Bytes → ℕ → ℕ → Result Bytes
unfolding center_text lines unlines
center_in_cell frame cell_w cell_h = do
  out ← center_text cell_w cell_h (lines frame)
  ok (unlines out)

unfoldable pub center_full_grid : Bytes → ℕ → ℕ → Result Bytes
unfolding center_text lines unlines
center_full_grid grid true_w true_h = do
  out ← center_text true_w true_h (lines grid)
  ok (unlines out)
