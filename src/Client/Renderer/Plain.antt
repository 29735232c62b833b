-- ===== src/Client/Renderer/Plain.antt =====
-- renderer.rs: what one line that is drawn does to the screen.
use facetime_v.Base.{
  Bool-cases, Bytes, Option, [], ap, arith, inl, inr, length, ltb, ltb→le, min, none, some, ℕ, ◌+◌,
  ◌-◌, ◌<◌, ◌^◌, ◌∙◌, ◌∷◌, ◌≡◌, ◌≢◌, ◌≤◌,
}
use facetime_v.Client.Layout.{spaces, cut_u16}
use facetime_v.Client.Renderer.{move_to, print, Size, clear_to_end_of_line, whole_line, plain_line}
use facetime_v.Client.Renderer.Screen.{
  set_row-same, set_row-other, overwrite-full, overwrite, Screen, set_row, apply, apply_all, padded,
  length-padded, overwrite-padded, overwrite-blank,
}

-- Commands that make one row blank behind a line, and leave the other rows.
pub record Sets (width y : ℕ) (line : Bytes) (screen after : Screen) : Type 0 where
  pub at_row : after.rows y ≡ padded width line
  pub elsewhere : (i : ℕ) → i ≢ y → after.rows i ≡ screen.rows i

module _ (width height : ℕ) where
  abbrev pub size : Size
  size = some (width, height)

  -- The cursor goes where it is sent, if that is a row of the terminal.
  row_at : (y : ℕ) → y < 2 ^ 16 → y < height → min (cut_u16 y) (height - 1) ≡ y
  row_at y small low = omega arith

  column_at : min 0 (width - 1) ≡ 0
  column_at = omega arith

  -- A line that is written and then cleared behind, over any row of the right length.
  pub whole_line-Sets :
      (y : ℕ) (line : Bytes) (screen : Screen)
      → y < 2 ^ 16
      → y < height
      → length line ≤ width
      → length (screen.rows y) ≡ width
      → Sets width y line screen (apply_all width height (whole_line size y line) screen)
  unfolding apply_all apply clear_to_end_of_line
  whole_line-Sets y line screen small low le lr =
      let written = overwrite 0 line (screen.rows y) in
      let blank = spaces (width - length line) in
      elim (Bool-cases (ltb (length line) width)) [
        | inl e ↦
            rw (clear_to_end_of_line, e, row_at y small low, column_at)
              (record {
                at_row =
                    set_row-same y _ (set_row y written screen.rows)
                    ∙ ap (λ (r : Bytes). overwrite (0 + length line) blank r)
                        (set_row-same y written screen.rows)
                    ∙ overwrite-blank width line (screen.rows y) le lr;
                elsewhere = λ i ne.
                    set_row-other y i _ (set_row y written screen.rows) ne
                    ∙ set_row-other y i written screen.rows ne;
              })
        | inr e ↦
            rw (clear_to_end_of_line, e, row_at y small low, column_at)
              (record {
                at_row =
                    set_row-same y written screen.rows
                    ∙ overwrite-full width line (screen.rows y)
                        (omega (arith, ltb→le (length line) width e)) lr;
                elsewhere = λ i ne. set_row-other y i written screen.rows ne;
              })
      ]

  -- A line over an old one that is not longer.
  pub over_line-Sets :
      (y : ℕ) (line old : Bytes) (screen : Screen)
      → y < 2 ^ 16
      → y < height
      → length old ≤ length line
      → screen.rows y ≡ padded width old
      → Sets width y line screen
          (apply_all width height (move_to 0 (cut_u16 y) ∷ print line ∷ []) screen)
  unfolding apply_all apply
  over_line-Sets y line old screen small low le r =
      let written = overwrite 0 line (screen.rows y) in
      rw (row_at y small low, column_at)
        (record {
          at_row =
              set_row-same y written screen.rows
              ∙ ap (λ (s : Bytes). overwrite 0 line s) r
              ∙ overwrite-padded width line old le;
          elsewhere = λ i ne. set_row-other y i written screen.rows ne;
        })

  pub plain_line-Sets :
      (y : ℕ) (line : Bytes) (old : Option Bytes) (shown : Bytes) (screen : Screen)
      → y < 2 ^ 16
      → y < height
      → length line ≤ width
      → length shown ≤ width
      → (elim old [ none ↦ [] | some old_line ↦ old_line ]) ≡ shown
      → screen.rows y ≡ padded width shown
      → Sets width y line screen (apply_all width height (plain_line size y line old) screen)
  plain_line-Sets y line none shown screen small low le lo eq r =
      over_line-Sets y line shown screen small low (rw⁻¹ eq (omega arith)) r
  plain_line-Sets y line (some old_line) shown screen small low le lo eq r =
      elim (Bool-cases (ltb (length line) (length old_line))) [
        | inl e ↦ rw e (
            whole_line-Sets y line screen small low le
              (ap (λ (s : Bytes). length s) r ∙ length-padded width shown lo))
        | inr e ↦ rw e (
            over_line-Sets y line shown screen small low
              (rw⁻¹ eq (ltb→le (length line) (length old_line) e)) r)
      ]
