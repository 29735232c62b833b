-- ===== src/Client/Layout/Size.antt =====
-- frame.rs: the sizes and the grids that the layout chooses, whatever the floating-point numbers are.
use native.Mathlib.Nat.{lt-div-mul-add, div-lt_iff_lt-mul, zero-div}
use facetime_v.Base.{
  ==_iff, Bool-cases, arith, inl, inr, ltb, ltb→le, ltb→lt, min, ok, refl, suc, zero, ℕ, ◌*◌, ◌+◌,
  ◌-◌, ◌/◌, ◌<◌, ◌==◌, ◌^◌, ◌||◌, ◌≡◌, ◌≤◌,
}
use facetime_v.Client.Layout.{
  area, grid_loop, calculate_optimal_grid, optimal_two_frame_layout, Best, try_cell, cell_of,
  Floats, cut_u16, checked_div, choose_size, calculate_frame_dimensions,
}
use facetime_v.Client.Layout.Frames.{grid_for}

choose_size_fits :
    (max_width max_height from_width from_height : ℕ)
    → let (w, h) = choose_size max_width max_height from_width from_height in
      (w ≤ max_width) × (h ≤ max_height)
unfolding choose_size
choose_size_fits max_width max_height from_width from_height = ground arith

-- A frame is never wider or higher than the room that it is given, whatever the floating-point
-- operations return.
pub calculate_frame_dimensions_fits :
    (floats : Floats) (max_width max_height : ℕ) (aspect_ratio : floats.f64)
    → let (w, h) = calculate_frame_dimensions floats max_width max_height aspect_ratio in
      (w ≤ max_width) × (h ≤ max_height)
unfolding calculate_frame_dimensions
calculate_frame_dimensions_fits floats max_width max_height aspect_ratio =
    choose_size_fits max_width max_height _ _

-- The grid has a cell for each of `count` frames, and its spacing fits into the terminal.
pub record Covers (count w h : ℕ) (grid : ℕ × ℕ) : Type 0 where
  pub cols : 1 ≤ grid.0
  pub rows : 1 ≤ grid.1
  pub cells : count ≤ grid.1 * grid.0
  pub wide : 2 * (grid.0 - 1) ≤ w
  pub high : grid.1 - 1 ≤ h
  pub narrow : grid.0 < 2 ^ 15
  pub low : grid.1 < 2 ^ 16

pub cut_u16-small : (n : ℕ) → n < 2 ^ 16 → cut_u16 n ≡ n
cut_u16-small n h = omega arith

pub checked_div-ok : (a b : ℕ) → 1 ≤ b → checked_div a b ≡ ok (a / b)
checked_div-ok a b h = ground arith

mul_pos : (rows cols count : ℕ) → 1 ≤ count → count ≤ rows * cols → 1 ≤ rows
mul_pos zero cols count h le = omega arith
mul_pos (suc rows) cols count h le = omega arith

le_mul : (count cols : ℕ) → 1 ≤ cols → count ≤ count * cols
le_mul count zero h = absurd (omega arith)
le_mul count (suc cols) h = omega arith

-- The rows that the frames need.
abbrev rows_for : ℕ → ℕ → ℕ
rows_for count cols = (count + cols - 1) / cols

module _ (count cols : ℕ) (some_frames : 1 ≤ count) (some_cols : 1 ≤ cols) where
  rows_for_cells : count ≤ rows_for count cols * cols
  rows_for_cells = omega (arith, lt-div-mul-add {a = count + cols - 1} some_cols)

  rows_for_few : rows_for count cols < count + 1
  rows_for_few =
      (div-lt_iff_lt-mul {k = cols} {x = count + cols - 1} {y = count + 1} some_cols).1
        (omega (arith, le_mul count cols some_cols))

pub cell_of-ok :
    (w h cols rows : ℕ)
    → 1 ≤ cols
    → 1 ≤ rows
    → cols < 2 ^ 15
    → rows < 2 ^ 16
    → cell_of w h cols rows ≡ ok ((w - 2 * (cols - 1)) / cols, (h - (rows - 1)) / rows)
cell_of-ok w h cols rows c r nc nr =
    rw
      (
        cut_u16-small cols (omega arith),
        cut_u16-small rows nr,
        cut_u16-small (2 * (cols - 1)) (omega arith),
        cut_u16-small (rows - 1) (omega arith),
        checked_div-ok (w - 2 * (cols - 1)) cols c,
        checked_div-ok (h - (rows - 1)) rows r,
      )
      refl

-- A cell that is not empty has its spacing in the terminal.
div_pos : (h n rows : ℕ) → 1 ≤ (h - n) / rows → n ≤ h
div_pos h n rows le = elim (Bool-cases (ltb h n)) [
  | inl e ↦
      let z : h - n ≡ 0 = omega (arith, ltb→lt h n e) in
      absurd (omega (arith, zero-div rows, (let le' : 1 ≤ 0 / rows = rw z at le in le')))
  | inr e ↦ ltb→le h n e
]

module _ (floats : Floats) (count w h : ℕ) (aspect_ratio : floats.f64) (some_frames : 1 ≤ count)
    (few_frames : count < 2 ^ 16) (word : w < 2 ^ 16) where
  try_cell-Covers :
      (cols : ℕ) (best : Best)
      → 1 ≤ cols
      → cols ≤ w / 10
      → Covers count w h best.grid
      → Covers count w h
          (try_cell floats aspect_ratio
            (cols, rows_for count cols)
            ((w - 2 * (cols - 1)) / cols, (h - (rows_for count cols - 1)) / rows_for count cols)
            best).grid
  unfolding try_cell
  try_cell-Covers cols best c le k =
      let rows = rows_for count cols in
      let cell_w = (w - 2 * (cols - 1)) / cols in
      let cell_h = (h - (rows - 1)) / rows in
      elim (Bool-cases (cell_w == 0 || cell_h == 0)) [
        | inl e ↦ rw e k
        | inr e ↦
            elim (Bool-cases (
              ltb best.best_area
                (area (calculate_frame_dimensions floats cell_w cell_h aspect_ratio)))) [
                  | inl b ↦
                      rw (e, b)
                        (record {
                          cols = c;
                          rows =
                              mul_pos rows cols count some_frames
                                (rows_for_cells count cols some_frames c);
                          cells = rows_for_cells count cols some_frames c;
                          wide = omega arith;
                          high = div_pos h (rows - 1) rows (ground (arith, e));
                          narrow = omega arith;
                          low = omega (arith, rows_for_few count cols some_frames c);
                        })
                  | inr b ↦ rw (e, b) k
                ]
      ]

  grid_loop-Covers :
      (n cols : ℕ) (best : Best)
      → 1 ≤ cols
      → cols + n ≤ w / 10 + 1
      → Covers count w h best.grid
      → (best' : Best) × (grid_loop floats count w h aspect_ratio n cols best ≡ ok best')
        × Covers count w h best'.grid
  unfolding grid_loop
  grid_loop-Covers zero cols best c le k = (best, refl, k)
  grid_loop-Covers (suc n) cols best c le k =
      let rows = rows_for count cols in
      let pos = mul_pos rows cols count some_frames (rows_for_cells count cols some_frames c) in
      let few = rows_for_few count cols some_frames c in
      let (best', e, k') =
        grid_loop-Covers n (cols + 1)
          (try_cell floats aspect_ratio (cols, rows)
            ((w - 2 * (cols - 1)) / cols, (h - (rows - 1)) / rows) best)
          (omega arith) (omega arith) (try_cell-Covers cols best c (omega arith) k) in
      (
        best',
        rw
            (
              checked_div-ok (count + cols - 1) cols c,
              cell_of-ok w h cols rows c pos (omega arith) (omega arith),
            )
            e,
        k',
      )

  calculate_optimal_grid-Covers :
      count - 1 ≤ h
      → (grid : ℕ × ℕ) × (calculate_optimal_grid floats count w h aspect_ratio ≡ ok grid)
        × Covers count w h grid
  unfolding calculate_optimal_grid
  calculate_optimal_grid-Covers le =
      let (best, e, k) =
        grid_loop-Covers (min (min (floats.sqrt_ceil (floats.of_nat count) + 2) count) (w / 10)) 1
          (record { grid = (1, count); best_area = 0 }) (omega arith) (omega arith)
          (record {
            cols = omega arith;
            rows = some_frames;
            cells = omega arith;
            wide = omega arith;
            high = le;
            narrow = omega arith;
            low = few_frames;
          }) in
      (best.grid, rw e refl, k)

  two-Covers :
      count ≡ 2
      → 2 ≤ w
      → 1 ≤ h
      → Covers count w h (optimal_two_frame_layout floats w h aspect_ratio)
  unfolding optimal_two_frame_layout
  two-Covers e hw hh = ground arith

one-Covers : (count w h : ℕ) → count ≡ 1 → Covers count w h (1, 1)
one-Covers count w h e = record {
  cols = omega arith;
  rows = omega arith;
  cells = omega arith;
  wide = omega arith;
  high = omega arith;
  narrow = omega arith;
  low = omega arith;
}

-- For any number of frames that is not 0, and is at most one more than the terminal has lines, the
-- layout chooses a grid, and never divides by 0: it has a cell for each frame, and its spacing fits
-- into the terminal. The terminal has at least two columns and one line.
pub grid_for-Covers :
    (floats : Floats) (count w h : ℕ) (aspect_ratio : floats.f64)
    → 1 ≤ count
    → count < 2 ^ 16
    → w < 2 ^ 16
    → 2 ≤ w
    → 1 ≤ h
    → count - 1 ≤ h
    → (grid : ℕ × ℕ) × (grid_for floats count w h aspect_ratio ≡ ok grid) × Covers count w h grid
unfolding grid_for
grid_for-Covers floats count w h aspect_ratio some_frames few word hw hh le =
    elim (Bool-cases (count == 1)) [
      | inl one ↦ ((1, 1), rw one refl, one-Covers count w h ((==_iff count 1).0 one))
      | inr many ↦ elim (Bool-cases (count == 2)) [
        | inl two ↦ (
          optimal_two_frame_layout floats w h aspect_ratio,
          rw (many, two) refl,
          two-Covers floats count w h aspect_ratio some_frames few word ((==_iff count 2).0 two) hw
              hh,
        )
        | inr more ↦
            let (grid, e, k) =
              calculate_optimal_grid-Covers floats count w h aspect_ratio some_frames few word le in
            (grid, rw (many, more) e, k)
      ]
    ]
