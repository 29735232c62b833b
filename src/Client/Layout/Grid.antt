-- ===== src/Client/Layout/Grid.antt =====
-- frame.rs: the frames of a call, drawn and put together, fill the terminal.
use mathlib.Core.Path.{subst}
use facetime_v.Base.{
  ==_iff, All, All-weaken, Bytes, IsByte, List, [], ap, arith, length, ok, refl, some, suc, sym,
  zero, ℕ, ◌*◌, ◌++◌, ◌+◌, ◌-◌, ◌∙◌, ◌∷◌, ◌≡◌, ◌≤◌,
}
use facetime_v.Client.Frame.{Frame}
use facetime_v.Client.Visible.{lines, unlines}
use facetime_v.Client.Visible.Lines.{lines-unlines}
use facetime_v.Client.Ascii.{Mode, Resize, to_ascii}
use facetime_v.Client.Ascii.Rows.{Fills, Fills-append, Fills-nil, IsPicture, ascii_rows-IsPicture}
use facetime_v.Client.Layout.{spaces}
use facetime_v.Client.Layout.Center.{Within, spaces-Fills, center_in_cell-IsPicture}
use facetime_v.Client.Layout.Frames.{
  spacing_x, cell_line, row_rest, row_line, row_lines, max_lines, draw_frames,
}

-- A frame with the right number of pixels, which OpenCV resizes to so many columns and lines.
pub record Drawable (resize : Resize) (w h : ℕ) (frame : Frame) : Type 0 where
  pub size : length frame.pixels ≡ frame.width * frame.height * 3
  pub resized : Bytes
  pub resizes : resize frame.pixels frame.width frame.height w h ≡ some resized
  pub is_bytes : All IsByte resized
  pub enough : h * (3 * w) ≤ length resized

-- The text of a picture of so many columns and lines.
abbrev pub IsTile : ℕ → ℕ → Bytes → Type 0
IsTile w h t = (ls : List Bytes) × (t ≡ unlines ls) × IsPicture w h ls

to_ascii-IsTile :
    (resize : Resize) (mode : Mode) (frame : Frame) (w h : ℕ)
    → Drawable resize w h frame
    → (ls : List Bytes) × (to_ascii resize mode frame w h ≡ ok (some (unlines ls)))
      × IsPicture w h ls
unfolding to_ascii
to_ascii-IsTile resize mode frame w h d =
    let (rows, e, p) = ascii_rows-IsPicture mode w h d.resized d.is_bytes d.enough in
    (
      rows,
      rw ((==_iff (length frame.pixels) (frame.width * frame.height * 3)).1 d.size, d.resizes, e)
          refl,
      p,
    )

picture-Within :
    (w h cell_w : ℕ) (ls : List Bytes) → IsPicture w h ls → w ≤ cell_w → All (Within cell_w) ls
picture-Within w h cell_w ls p le = All-weaken ls (λ line f. (w, le, f)) p.wide

pub draw_frames-IsTile :
    (resize : Resize) (mode : Mode) (w h cell_w cell_h : ℕ) (frames : List Frame)
    (buffers : List Bytes)
    → w ≤ cell_w
    → h ≤ cell_h
    → All (Drawable resize w h) frames
    → length frames ≤ length buffers
    → (tiles : List Bytes) × (draw_frames resize mode (w, h) (cell_w, cell_h) frames buffers
        ≡ ok tiles)
      × (length tiles ≡ length frames)
      × All (IsTile cell_w cell_h) tiles
unfolding draw_frames
draw_frames-IsTile resize mode w h cell_w cell_h [] buffers lw lh ds le = ([], refl, refl, tt)
draw_frames-IsTile resize mode w h cell_w cell_h (frame ∷ frames) [] lw lh ds le =
    absurd (omega arith)
draw_frames-IsTile resize mode w h cell_w cell_h (frame ∷ frames) (buffer ∷ buffers) lw lh (d, ds)
      le =
    let (ls, e, p) = to_ascii-IsTile resize mode frame w h d in
    let (out, ec, pc) =
      center_in_cell-IsPicture cell_w cell_h ls (picture-Within w h cell_w ls p lw)
        (omega (arith, p.high)) in
    let (tiles, er, n, ts) =
      draw_frames-IsTile resize mode w h cell_w cell_h frames buffers lw lh ds (omega arith) in
    (unlines out ∷ tiles, rw (e, ec, er) refl, omega (arith, n), ((out, refl, pc), ts))

pub tile-lines : (w h : ℕ) (t : Bytes) → IsTile w h t → IsPicture w h (lines t)
tile-lines w h t (ls, e, p) =
    subst (IsPicture w h)
      (sym (ap lines e ∙ lines-unlines ls (All-weaken ls (λ line f. f.line) p.wide))) p

pub mul_mono : (a b k : ℕ) → a ≤ b → a * k ≤ b * k
mul_mono zero b k le = omega arith
mul_mono (suc a) zero k le = absurd (omega arith)
mul_mono (suc a) (suc b) k le = omega (arith, mul_mono a b k (omega arith))

Within-append : (a b : ℕ) (s t : Bytes) → Within a s → Within b t → Within (a + b) (s ++ t)
Within-append a b s t (n, le, f) (k, le', g) = (n + k, omega arith, Fills-append n k s t f g)

pub Within-le : (a b : ℕ) (s : Bytes) → a ≤ b → Within a s → Within b s
Within-le a b s le (n, l, f) = (n, omega arith, f)

module _ (w h : ℕ) where
  cell_line-Within : (i : ℕ) (ls : List Bytes) → All (Fills w) ls → Within w (cell_line i ls)
  cell_line-Within i [] f = (0, omega arith, Fills-nil)
  cell_line-Within zero (l ∷ ls) f = (w, omega arith, f.0)
  cell_line-Within (suc i) (l ∷ ls) f = cell_line-Within i ls f.1

  row_rest-Within :
      (i : ℕ) (row : List (List Bytes))
      → All (IsPicture w h) row
      → Within (length row * (2 + w)) (row_rest i row)
  row_rest-Within i [] ps = (0, omega arith, Fills-nil)
  row_rest-Within i (ls ∷ row) (p, ps) =
      Within-le (2 + (w + length row * (2 + w))) _ _ (omega arith) (
        Within-append 2 (w + length row * (2 + w)) (spaces spacing_x) _
          (2, omega arith, spaces-Fills 2)
          (Within-append w (length row * (2 + w)) (cell_line i ls) (row_rest i row)
            (cell_line-Within i ls p.wide) (row_rest-Within i row ps)))

  -- The columns of a row of `cols` cells.
  abbrev pub row_width : ℕ → ℕ
  row_width cols = w + (cols - 1) * (2 + w)

  row_line-Within :
      (cols i : ℕ) (row : List (List Bytes))
      → length row ≤ cols
      → All (IsPicture w h) row
      → Within (row_width cols) (row_line i row)
  unfolding row_line
  row_line-Within cols i [] le ps = (0, omega arith, Fills-nil)
  row_line-Within cols i (ls ∷ row) le (p, ps) =
      Within-le (w + length row * (2 + w)) (row_width cols) _
        (omega (arith, mul_mono (length row) (cols - 1) (2 + w) (omega arith)))
        (Within-append w (length row * (2 + w)) (cell_line i ls) (row_rest i row)
          (cell_line-Within i ls p.wide) (row_rest-Within i row ps))

  pub row_lines-Within :
      (cols n i : ℕ) (row : List (List Bytes))
      → length row ≤ cols
      → All (IsPicture w h) row
      → (length (row_lines n i row) ≡ n) × All (Within (row_width cols)) (row_lines n i row)
  unfolding row_lines
  row_lines-Within cols zero i row le ps = (refl, tt)
  row_lines-Within cols (suc n) i row le ps =
      let (l, ws) = row_lines-Within cols n (i + 1) row le ps in
      (omega (arith, l), (row_line-Within cols i row le ps, ws))

  pub max_lines-le : (row : List (List Bytes)) → All (IsPicture w h) row → max_lines row ≤ h
  unfolding max_lines
  max_lines-le [] ps = omega arith
  max_lines-le (ls ∷ row) (p, ps) = omega (arith, p.high, max_lines-le row ps)
