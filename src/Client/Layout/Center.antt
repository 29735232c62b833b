-- ===== src/Client/Layout/Center.antt =====
-- frame.rs: `center_in_cell` and `center_full_grid` on a text that fits.
use facetime_v.Base.{
  All, All-append, All-weaken, Bytes, List, [], arith, length, length-append, ok, refl, replicate,
  suc, text, zero, ℕ, ◌++◌, ◌+◌, ◌-◌, ◌/◌, ◌∷◌, ◌≡◌, ◌≤◌,
}
use facetime_v.Client.Visible.{lines, unlines}
use facetime_v.Client.Visible.Lines.{lines-unlines}
use facetime_v.Client.Visible.Count.{Takes-visible}
use facetime_v.Client.Ascii.Rows.{Fills, Fills-append, Fills-nil, Fills-eq, Fills-char, IsPicture}
use facetime_v.Client.Display.{repeat}
use facetime_v.Client.Layout.{
  checked_sub, spaces, center_line, center_lines, center_text, center_in_cell, center_full_grid,
}

pub spaces-Fills : (n : ℕ) → Fills n (spaces n)
unfolding repeat
spaces-Fills zero = Fills-nil
spaces-Fills (suc n) =
    Fills-eq (1 + n) (suc n) _ (omega arith)
      (Fills-append 1 n (text " ") (spaces n) (Fills-char 32 refl) (spaces-Fills n))

-- A line that takes at most so many columns.
abbrev pub Within : ℕ → Bytes → Type 0
Within w line = (n : ℕ) × (n ≤ w) × Fills n line

pub checked_sub-ok : (a b : ℕ) → b ≤ a → checked_sub a b ≡ ok (a - b)
checked_sub-ok a b h = ground arith

center_line-Fills :
    (w : ℕ) (line : Bytes)
    → Within w line
    → (out : Bytes) × (center_line w line ≡ ok out) × Fills w out
unfolding center_line
center_line-Fills w line (n, le, f) =
    let e = Takes-visible n line f.takes in
    let left = (w - n) / 2 in
    let right = w - left - n in
    (
      spaces left ++ line ++ spaces right,
      rw (e, checked_sub-ok (w - left) n (omega arith)) refl,
      Fills-eq (left + n + right) w _ (omega arith) (
          Fills-append (left + n) right (spaces left ++ line) (spaces right)
            (Fills-append left n (spaces left) line (spaces-Fills left) f) (spaces-Fills right)),
    )

center_lines-Fills :
    (w : ℕ) (ls : List Bytes)
    → All (Within w) ls
    → (out : List Bytes) × (center_lines w ls ≡ ok out)
      × (length out ≡ length ls)
      × All (Fills w) out
unfolding center_lines
center_lines-Fills w [] h = ([], refl, refl, tt)
center_lines-Fills w (line ∷ ls) h =
    let (out, e, f) = center_line-Fills w line h.0 in
    let (below, e', n, fs) = center_lines-Fills w ls h.1 in
    (out ∷ below, rw (e, e') refl, omega (arith, n), (f, fs))

pub length-replicate : (n : ℕ) (line : Bytes) → length (replicate n line) ≡ n
length-replicate zero line = refl
length-replicate (suc n) line = omega (arith, length-replicate n line)

All-replicate : (P : Bytes → Type 0) (n : ℕ) (line : Bytes) → P line → All P (replicate n line)
All-replicate P zero line h = tt
All-replicate P (suc n) line h = (h, All-replicate P n line h)

-- A text that fits into a rectangle is centred in it.
pub center_text-IsPicture :
    (w h : ℕ) (ls : List Bytes)
    → All (Within w) ls
    → length ls ≤ h
    → (out : List Bytes) × (center_text w h ls ≡ ok out) × IsPicture w h out
unfolding center_text
center_text-IsPicture w h ls within le =
    let (body, e, n, fs) = center_lines-Fills w ls within in
    let top = (h - length ls) / 2 in
    let bottom = h - top - length ls in
    let blank = spaces w in
    (
      replicate top blank ++ body ++ replicate bottom blank,
      rw (checked_sub-ok (h - top) (length ls) (omega arith), e) refl,
      record {
        high = omega (
          arith,
          length-append (replicate top blank ++ body) (replicate bottom blank),
          length-append (replicate top blank) body,
          length-replicate top blank,
          length-replicate bottom blank,
          n,
        );
        wide =
            All-append (Fills w) (replicate top blank ++ body) (replicate bottom blank)
              (All-append (Fills w) (replicate top blank) body
                (All-replicate (Fills w) top blank (spaces-Fills w)) fs)
              (All-replicate (Fills w) bottom blank (spaces-Fills w));
      },
    )

Within-lines : (w : ℕ) (ls : List Bytes) → All (Within w) ls → lines (unlines ls) ≡ ls
Within-lines w ls h = lines-unlines ls (All-weaken ls (λ line f. f.2.line) h)

-- The same of the texts: where no line is too wide and there are not too many, the result has exactly
-- the lines and columns of the cell.
pub center_in_cell-IsPicture :
    (w h : ℕ) (ls : List Bytes)
    → All (Within w) ls
    → length ls ≤ h
    → (out : List Bytes) × (center_in_cell (unlines ls) w h ≡ ok (unlines out)) × IsPicture w h out
unfolding center_in_cell
center_in_cell-IsPicture w h ls within le =
    let (out, e, p) = center_text-IsPicture w h ls within le in
    (out, rw (Within-lines w ls within, e) refl, p)

pub center_full_grid-IsPicture :
    (w h : ℕ) (ls : List Bytes)
    → All (Within w) ls
    → length ls ≤ h
    → (out : List Bytes) × (center_full_grid (unlines ls) w h ≡ ok (unlines out))
      × IsPicture w h out
unfolding center_full_grid
center_full_grid-IsPicture w h ls within le =
    let (out, e, p) = center_text-IsPicture w h ls within le in
    (out, rw (Within-lines w ls within, e) refl, p)
