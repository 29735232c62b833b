-- ===== src/Client/Renderer/Difference.antt =====
-- renderer.rs: drawing only what has changed, against drawing everything.
use facetime_v.Base.{
  Bytes, List, [], ap, arith, drop, length, length-drop, none, some, sym, ℕ, ◌++◌, ◌+◌, ◌-◌, ◌<◌,
  ◌∙◌, ◌≡◌,
}
use facetime_v.Client.Renderer.{
  move_to, position_cursor_at_end, whole_lines, render_full_frame, first_diff, plain_lines,
  added_lines, render_plain,
}
use facetime_v.Client.Renderer.Screen.{
  Screen, apply, apply_all, apply_all-append, padded, line_of, Shows, length-padded,
}
use facetime_v.Client.Renderer.Plain.{size}
use facetime_v.Client.Renderer.Redraw.{
  Redraws, plain_lines-Shows, added_lines-rows, whole_lines-ShowsFrom, cursor-rows, line_of-behind,
  line_of-drop, line_of-Narrow,
}

module _ (width height : ℕ) (old content : List Bytes) (screen : Screen) where
  render_plain-Shows :
      Redraws width height old content screen
      → Shows width height content
          (apply_all width height (render_plain (size width height) (some old) content) screen)
  unfolding render_plain
  render_plain-Shows r =
      let n = length old in
      let added = added_lines n (drop n content) in
      let cursor = position_cursor_at_end (size width height) content in
      let plain =
        plain_lines (size width height) (first_diff content old) old
          (drop (first_diff content old) content) in
      let first = apply_all width height plain screen in
      let p = plain_lines-Shows width height old content screen r in
      let same_rows =
        added_lines-rows width height n (drop n content) first
          (λ i le lt.
            let e : n + (i - n) ≡ i = omega arith in
            p.row i lt
            ∙ ap (padded width) (sym (line_of-drop content n (i - n) ∙ ap (line_of content) e)))
          (omega (arith, length-drop n content, r.not_fewer, r.small))
          (omega (arith, length-drop n content, r.not_fewer, r.fits)) in
      record {
        row = λ i lt.
            ap (λ (s : Screen). s.rows i)
              (apply_all-append width height (plain ++ added) cursor screen)
            ∙ cursor-rows width height (size width height) content
                (apply_all width height (plain ++ added) screen) i
            ∙ ap (λ (s : Screen). s.rows i) (apply_all-append width height plain added screen)
            ∙ same_rows i
            ∙ p.row i lt;
      }

  render_full_frame-Shows :
      Redraws width height old content screen
      → Shows width height content
          (apply_all width height (render_full_frame (size width height) none content) screen)
  unfolding render_full_frame apply_all
  render_full_frame-Shows r =
      let moved = apply width height (move_to 0 0) screen in
      let whole = whole_lines (size width height) 0 content in
      let cursor = position_cursor_at_end (size width height) content in
      let f =
        whole_lines-ShowsFrom width height 0 content moved
          (λ i le lt.
            ap (λ (s : Bytes). length s) (r.shown.row i lt)
            ∙ length-padded width (line_of old i) (line_of-Narrow width old i r.old_narrow))
          (λ i le lt.
            r.shown.row i lt
            ∙ ap (padded width) (line_of-behind old i (omega (arith, r.not_fewer))))
          (omega (arith, r.small)) (omega (arith, r.fits)) r.narrow in
      record {
        row = λ i lt.
            let e : 0 + i ≡ i = omega arith in
            ap (λ (s : Screen). s.rows i) (apply_all-append width height (whole ++ []) cursor moved)
            ∙ cursor-rows width height (size width height) content
                (apply_all width height (whole ++ []) moved) i
            ∙ ap (λ (s : Screen). s.rows i) (apply_all-append width height whole [] moved)
            ∙ ap (λ (j : ℕ). (apply_all width height whole moved).rows j) (sym e)
            ∙ f.from i (omega arith);
      }

  -- On a terminal that shows the old lines, each with one column for each byte and blanks to the end of
  -- its row, where the new lines are at least as many and at most as many as the terminal has rows, and
  -- at most 65536, and none of either is wider than the terminal, drawing only what has changed leaves
  -- every row of the terminal as drawing the whole frame does.
  pub render_plain-render_full_frame :
      Redraws width height old content screen
      → (i : ℕ) → i < height
      → (apply_all width height (render_plain (size width height) (some old) content) screen).rows i
        ≡ (apply_all width height (render_full_frame (size width height) none content) screen).rows
            i
  render_plain-render_full_frame r i lt =
      (render_plain-Shows r).row i lt ∙ sym ((render_full_frame-Shows r).row i lt)
