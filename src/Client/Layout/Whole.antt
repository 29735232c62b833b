-- ===== src/Client/Layout/Whole.antt =====
-- frame.rs: `combine_frames_with_buffers` fills the terminal.
use native.Mathlib.Nat.{div-le_self, div-mul-le_self}
use facetime_v.Client.Frame.{Frame}
use facetime_v.Client.Ascii.{Mode, Resize}
use facetime_v.Client.Layout.{Floats, cell_of, calculate_frame_dimensions}
use facetime_v.Client.Layout.Size.{cell_of-ok, grid_for-Covers, calculate_frame_dimensions_fits}
use facetime_v.Base.{
  All, All-append, All-drop, All-take, All-weaken, Bool, Bytes, List, [], arith, drop, false,
  length, length-append, length-drop, length-take, ltb, map, ok, refl, replicate, suc, take, true,
  zero, ℕ, ◌*◌, ◌++◌, ◌+◌, ◌-◌, ◌/◌, ◌<◌, ◌^◌, ◌∷◌, ◌≡◌, ◌≤◌,
}
use facetime_v.Client.Visible.{lines, unlines}
use facetime_v.Client.Ascii.Rows.{Fills-nil, IsPicture}
use facetime_v.Client.Layout.Center.{length-replicate, Within, center_full_grid-IsPicture}
use facetime_v.Client.Layout.Grid.{
  IsTile, tile-lines, mul_mono, row_width, row_lines-Within, max_lines-le, Drawable,
  draw_frames-IsTile, Within-le,
}
use facetime_v.Client.Layout.Frames.{
  per_character, estimated_size, grid_row, max_lines, frame_chunks, grid_rest, grid_lines,
  spacing_y, combine_into_grid, grid_for, resize_buffers, aspect_of, Terminal, combine_frames,
}

module _ (w h cols : ℕ) where
  -- Lines that fit into a row of cells, and how many at most.
  record Fit (n : ℕ) (ls : List Bytes) : Type 0 where
    few : length ls ≤ n
    within : All (Within (row_width w h cols)) ls

  Fit-append : (a b : ℕ) (ls ms : List Bytes) → Fit a ls → Fit b ms → Fit (a + b) (ls ++ ms)
  Fit-append a b ls ms f g = record {
    few = omega (arith, length-append ls ms, f.few, g.few);
    within = All-append (Within (row_width w h cols)) ls ms f.within g.within;
  }

  -- One row of the grid.
  record IsRow (row : List Bytes) : Type 0 where
    tiles : All (IsTile w h) row
    short : length row ≤ cols

  pictures : (row : List Bytes) → All (IsTile w h) row → All (IsPicture w h) (map lines row)
  pictures [] ts = tt
  pictures (t ∷ row) (t_ok, ts) = (tile-lines w h t t_ok, pictures row ts)

  length-map : (row : List Bytes) → length (map lines row) ≡ length row
  length-map [] = refl
  length-map (t ∷ row) = omega (arith, length-map row)

  grid_row-Fit : (row : List Bytes) → IsRow row → Fit h (grid_row row)
  grid_row-Fit row r =
      let ps = pictures row r.tiles in
      let (l, ws) =
        row_lines-Within w h cols (max_lines (map lines row)) 0 (map lines row)
          (omega (arith, length-map row, r.short)) ps in
      record { few = omega (arith, l, max_lines-le w h (map lines row) ps); within = ws }

  blank-Fit : Fit 1 (replicate spacing_y [])
  blank-Fit = record { few = omega arith; within = ((0, omega arith, Fills-nil), tt) }

  grid_rest-Fit :
      (rows : List (List Bytes)) → All IsRow rows → Fit (length rows * (1 + h)) (grid_rest rows)
  unfolding grid_rest
  grid_rest-Fit [] rs = record { few = omega arith; within = tt }
  grid_rest-Fit (row ∷ rows) (r, rs) =
      let f = Fit-append 1 (h + length rows * (1 + h)) (replicate spacing_y []) _ blank-Fit (
        Fit-append h (length rows * (1 + h)) (grid_row row) (grid_rest rows) (grid_row-Fit row r)
          (grid_rest-Fit rows rs)) in
      record { few = omega (arith, f.few); within = f.within }

  -- The lines of a grid of `n` rows of cells, with one line between two of them.
  grid_lines-Fit :
      (n : ℕ) (rows : List (List Bytes))
      → All IsRow rows
      → length rows ≤ n
      → Fit (h + (n - 1) * (1 + h)) (grid_lines rows)
  unfolding grid_lines
  grid_lines-Fit n [] rs le = record { few = omega arith; within = tt }
  grid_lines-Fit n (row ∷ rows) (r, rs) le =
      let f =
        Fit-append h (length rows * (1 + h)) (grid_row row) (grid_rest rows) (grid_row-Fit row r)
          (grid_rest-Fit rows rs) in
      record {
        few = omega (arith, f.few, mul_mono (length rows) (n - 1) (1 + h) (omega arith));
        within = f.within;
      }

  frame_chunks-IsRow :
      (fuel : ℕ) (ts : List Bytes) → All (IsTile w h) ts → All IsRow (frame_chunks fuel cols ts)
  unfolding frame_chunks
  frame_chunks-IsRow zero ts h' = tt
  frame_chunks-IsRow (suc fuel) [] h' = tt
  frame_chunks-IsRow (suc fuel) (t ∷ ts) h' = (
    record {
      tiles = All-take (IsTile w h) cols (t ∷ ts) h';
      short = omega (arith, length-take cols (t ∷ ts));
    },
    frame_chunks-IsRow fuel (drop cols (t ∷ ts)) (All-drop (IsTile w h) cols (t ∷ ts) h'),
  )

-- There are no more rows than are needed.
length-frame_chunks :
    (fuel cols n : ℕ) (ts : List Bytes)
    → length ts ≤ n * cols
    → length (frame_chunks fuel cols ts) ≤ n
unfolding frame_chunks
length-frame_chunks zero cols n ts le = omega arith
length-frame_chunks (suc fuel) cols n [] le = omega arith
length-frame_chunks (suc fuel) cols zero (t ∷ ts) le = absurd (omega arith)
length-frame_chunks (suc fuel) cols (suc n) (t ∷ ts) le = omega (
  arith,
  length-frame_chunks fuel cols n (drop cols (t ∷ ts)) (omega (arith, length-drop cols (t ∷ ts))),
)

-- Cells of the size that is left beside the spacing fit, with the spacing, into the whole.
spread :
    (whole n gap cell : ℕ)
    → 1 ≤ n
    → gap * (n - 1) ≤ whole
    → cell * n ≤ whole - gap * (n - 1)
    → cell + (n - 1) * (gap + cell) ≤ whole
spread whole zero gap cell one le h = absurd (omega arith)
spread whole (suc n) gap cell one le h =
    let e : suc n - 1 ≡ n = omega arith in
    let le' : gap * n ≤ whole = rw e at le in
    let h' : cell * suc n ≤ whole - gap * n = rw e at h in rw e (omega (arith, le', h'))

-- OpenCV resizes each frame to the size that the layout chooses.
pub record IsDrawn (floats : Floats) (resize : Resize) (t : Terminal) (frame : Frame)
    (frames : List Frame) : Type 0 where
  pub drawn :
      (cols rows cell_w cell_h : ℕ)
      → grid_for floats
          (length (frame ∷ frames))
          t.target_width
          t.target_height
          (aspect_of floats frame)
        ≡ ok (cols, rows)
      → cell_of t.target_width t.target_height cols rows ≡ ok (cell_w, cell_h)
      → let (w, h) = calculate_frame_dimensions floats cell_w cell_h (aspect_of floats frame) in
        All (Drawable resize w h) (frame ∷ frames)

-- A terminal that the layout can work with. Its characters are few enough for the estimate of their
-- bytes, which is made in 16 bits.
pub record IsUsual (color_enabled : Bool) (t : Terminal) (count : ℕ) : Type 0 where
  pub word : t.target_width < 2 ^ 16
  pub two_columns : 2 ≤ t.target_width
  pub one_line : 1 ≤ t.target_height
  pub lines_for_frames : count - 1 ≤ t.target_height
  pub few_characters : t.target_width * t.target_height * per_character color_enabled < 2 ^ 16
  pub wide : t.target_width ≤ t.true_width
  pub high : t.target_height ≤ t.true_height

combine_into_grid-Fit :
    (w h cols rows : ℕ) (tiles : List Bytes)
    → 1 ≤ cols
    → All (IsTile w h) tiles
    → length tiles ≤ rows * cols
    → (ls : List Bytes) × (combine_into_grid tiles cols ≡ ok (unlines ls))
      × Fit w h cols (h + (rows - 1) * (1 + h)) ls
unfolding combine_into_grid unlines
combine_into_grid-Fit w h cols rows [] c ts le =
    ([], refl, record { few = omega arith; within = tt })
combine_into_grid-Fit w h cols rows (t ∷ tiles) c ts le =
    let rs = frame_chunks (length (t ∷ tiles)) cols (t ∷ tiles) in
    (
      grid_lines rs,
      ground (arith, c),
      grid_lines-Fit w h cols rows rs
          (frame_chunks-IsRow w h cols (length (t ∷ tiles)) (t ∷ tiles) ts)
          (length-frame_chunks (length (t ∷ tiles)) cols rows (t ∷ tiles) le),
    )

length-resize_buffers :
    (count : ℕ) (buffers : List Bytes) → count ≤ length (resize_buffers count buffers)
length-resize_buffers count buffers = omega (
  arith,
  length-append (take count buffers) (replicate (count - length buffers) []),
  length-take count buffers,
  length-replicate (count - length buffers) [],
)

per_character_positive : (color_enabled : Bool) → 1 ≤ per_character color_enabled
per_character_positive true = omega arith
per_character_positive false = omega arith

-- A frame of at most so many columns and lines has an estimate.
estimated_size-ok :
    (color_enabled : Bool) (w h width height : ℕ)
    → w ≤ width
    → h ≤ height
    → width * height * per_character color_enabled < 2 ^ 16
    → (n : ℕ) × (estimated_size color_enabled (w, h) ≡ ok n)
unfolding estimated_size
estimated_size-ok color_enabled w h width height lw lh few =
    let area : w * h ≤ width * height =
      omega (arith, mul_mono w width h lw, mul_mono h height width lh) in
    let whole = mul_mono (w * h) (width * height) (per_character color_enabled) area in
    let one_each =
      mul_mono 1 (per_character color_enabled) (w * h) (per_character_positive color_enabled) in
    let one : ltb (w * h) (2 ^ 16) ≡ true = ground (arith, one_each, whole, few) in
    let two : ltb (w * h * per_character color_enabled) (2 ^ 16) ≡ true =
      ground (arith, whole, few) in
    (w * h * per_character color_enabled, rw (one, two) refl)

-- Where the layout's part of the terminal has at least two columns and one line, at most 4369
-- characters with colours or 32767 without, and no fewer lines than one less than the frames, and
-- OpenCV can resize the frames, fewer than 65536 frames give a text without a panic, and it is a
-- picture of exactly the terminal's true size, whatever the floating-point operations return and
-- whatever the buffers held before.
pub combine_frames-IsPicture :
    (floats : Floats) (resize : Resize) (mode : Mode) (t : Terminal) (frame : Frame)
    (frames : List Frame) (buffers : List Bytes)
    → length (frame ∷ frames) < 2 ^ 16
    → IsUsual mode.color_enabled t (length (frame ∷ frames))
    → IsDrawn floats resize t frame frames
    → (out : List Bytes) × (temp_buffers : List Bytes) × (combine_frames floats resize mode t
          (frame ∷ frames)
          buffers
        ≡ ok (unlines out, temp_buffers))
      × IsPicture t.true_width t.true_height out
unfolding combine_frames
combine_frames-IsPicture floats resize mode t frame frames buffers few u d =
    let count = length (frame ∷ frames) in
    let aspect = aspect_of floats frame in
    let ((cols, rows), eg, k) =
      grid_for-Covers floats count t.target_width t.target_height aspect (omega arith) few u.word
        u.two_columns u.one_line u.lines_for_frames in
    let cell_w = (t.target_width - 2 * (cols - 1)) / cols in
    let cell_h = (t.target_height - (rows - 1)) / rows in
    let ec = cell_of-ok t.target_width t.target_height cols rows k.cols k.rows k.narrow k.low in
    let fits = calculate_frame_dimensions_fits floats cell_w cell_h aspect in
    let size = calculate_frame_dimensions floats cell_w cell_h aspect in
    let (tiles, ed, n, ts) =
      draw_frames-IsTile resize mode size.0 size.1 cell_w cell_h (frame ∷ frames)
        (resize_buffers count buffers) fits.0 fits.1 (d.drawn cols rows cell_w cell_h eg ec)
        (length-resize_buffers count buffers) in
    let (ls, el, f) =
      combine_into_grid-Fit cell_w cell_h cols rows tiles k.cols ts (omega (arith, n, k.cells)) in
    let wide =
      spread t.target_width cols 2 cell_w k.cols k.wide
        (div-mul-le_self (t.target_width - 2 * (cols - 1)) cols) in
    let high =
      spread t.target_height rows 1 cell_h k.rows (omega (arith, k.high))
        (omega (arith, div-mul-le_self (t.target_height - (rows - 1)) rows)) in
    let (out, eo, p) =
      center_full_grid-IsPicture t.true_width t.true_height ls
        (All-weaken ls
          (λ line h.
            Within-le (row_width cell_w cell_h cols) t.true_width line (omega (arith, wide, u.wide))
              h)
          f.within)
        (omega (arith, f.few, high, u.high)) in
    let (bytes, es) =
      estimated_size-ok mode.color_enabled size.0 size.1 t.target_width t.target_height
        (omega (arith, fits.0, div-le_self (t.target_width - 2 * (cols - 1)) cols))
        (omega (arith, fits.1, div-le_self (t.target_height - (rows - 1)) rows)) u.few_characters in
    (out, tiles, rw (eg, ec, es, ed, el, eo) refl, p)
