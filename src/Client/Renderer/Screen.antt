-- ===== src/Client/Renderer/Screen.antt =====
-- What a terminal shows: the documented effect of the commands that renderer.rs queues, on a terminal
-- of some columns and rows, and on text of one column for each byte that does not run over the end of
-- its row. The cursor does not leave the terminal: a place outside it is the nearest one inside. Row
-- numbers from the height on are no rows of the terminal.
use facetime_v.Base.{
  ==_iff, ==_refl, Bool-cases, Bytes, List, [], ap, append-nil, arith, drop, drop-append, drop-drop,
  if◌then◌else◌, inl, inr, length, length-append, length-drop, min, refl, suc, sym, take,
  take-append, zero, ℕ, ◌++◌, ◌+◌, ◌-◌, ◌<◌, ◌==◌, ◌∙◌, ◌∷◌, ◌≡◌, ◌≢◌, ◌≤◌,
}
use facetime_v.Client.Display.{repeat}
use facetime_v.Client.Layout.{spaces}
use facetime_v.Client.Renderer.{TerminalCommand, hide, show, clear_all, move_to, print}

pub record Screen : Type 0 where
  pub rows : ℕ → Bytes
  pub x : ℕ
  pub y : ℕ

-- A row with a text written over it.
abbrev pub overwrite : ℕ → Bytes → Bytes → Bytes
overwrite x s row = take x row ++ (s ++ drop (x + length s) row)

abbrev pub set_row : ℕ → Bytes → (ℕ → Bytes) → ℕ → Bytes
set_row y row rows i = if i == y then row else rows i

unfoldable pub apply : ℕ → ℕ → TerminalCommand → Screen → Screen
apply width height hide screen = screen
apply width height show screen = screen
apply width height clear_all screen = record screen { rows = λ i. spaces width }
apply width height (move_to x y) screen = record screen {
  x = min x (width - 1);
  y = min y (height - 1);
}
apply width height (print s) screen = record screen {
  rows = set_row screen.y (overwrite screen.x s (screen.rows screen.y)) screen.rows;
  x = screen.x + length s;
}

unfoldable pub apply_all : ℕ → ℕ → List TerminalCommand → Screen → Screen
unfolding apply
apply_all width height [] screen = screen
apply_all width height (command ∷ commands) screen =
    apply_all width height commands (apply width height command screen)

pub apply_all-append :
    (width height : ℕ) (first second : List TerminalCommand) (screen : Screen)
    → apply_all width height (first ++ second) screen
      ≡ apply_all width height second (apply_all width height first screen)
unfolding apply_all
apply_all-append width height [] second screen = refl
apply_all-append width height (command ∷ first) second screen =
    apply_all-append width height first second (apply width height command screen)

-- A line, and blanks to the end of the row.
abbrev pub padded : ℕ → Bytes → Bytes
padded width line = line ++ spaces (width - length line)

-- A line of a text, and nothing behind its end.
abbrev pub line_of : List Bytes → ℕ → Bytes
line_of [] i = []
line_of (line ∷ rest) zero = line
line_of (line ∷ rest) (suc i) = line_of rest i

-- Every row of the terminal shows its line.
pub record Shows (width height : ℕ) (content : List Bytes) (screen : Screen) : Type 0 where
  pub row : (i : ℕ) → i < height → screen.rows i ≡ padded width (line_of content i)

pub length-spaces : (n : ℕ) → length (spaces n) ≡ n
unfolding repeat
length-spaces zero = refl
length-spaces (suc n) = omega (arith, length-spaces n)

pub length-padded :
    (width : ℕ) (line : Bytes) → length line ≤ width → length (padded width line) ≡ width
length-padded width line le =
    omega (
      arith,
      length-append line (spaces (width - length line)),
      length-spaces (width - length line),
    )

drop-spaces : (j n : ℕ) → drop j (spaces n) ≡ spaces (n - j)
unfolding repeat
drop-spaces zero n = let e : n - 0 ≡ n = omega arith in rw e refl
drop-spaces (suc j) zero = let e : 0 - suc j ≡ 0 = omega arith in rw e refl
drop-spaces (suc j) (suc n) = let e : suc n - suc j ≡ n - j = omega arith in rw e (drop-spaces j n)

-- What is left of a padded row behind a longer line.
pub drop-padded :
    (width n : ℕ) (line : Bytes) → length line ≤ n → drop n (padded width line) ≡ spaces (width - n)
drop-padded width n line le =
    let e : length line + (n - length line) ≡ n = omega arith in
    let f : width - length line - (n - length line) ≡ width - n = omega arith in
    ap (λ (i : ℕ). drop i (padded width line)) (sym e)
    ∙ sym (drop-drop (length line) (n - length line) (padded width line))
    ∙ ap (λ (s : Bytes). drop (n - length line) s) (drop-append line (spaces (width - length line)))
    ∙ drop-spaces (n - length line) (width - length line)
    ∙ ap spaces f

drop-all : (n : ℕ) (xs : Bytes) → length xs ≤ n → drop n xs ≡ []
drop-all zero [] le = refl
drop-all (suc n) [] le = refl
drop-all zero (b ∷ xs) le = absurd (omega arith)
drop-all (suc n) (b ∷ xs) le = drop-all n xs (omega arith)

-- A line over a row that was padded, where the old line was not longer.
pub overwrite-padded :
    (width : ℕ) (line old : Bytes)
    → length old ≤ length line
    → overwrite 0 line (padded width old) ≡ padded width line
overwrite-padded width line old le =
    let e : 0 + length line ≡ length line = omega arith in
    rw e (ap (λ (s : Bytes). line ++ s) (drop-padded width (length line) old le))

-- A line over any row, and blanks to the end of it.
pub overwrite-blank :
    (width : ℕ) (line row : Bytes)
    → length line ≤ width
    → length row ≡ width
    → overwrite (0 + length line) (spaces (width - length line)) (overwrite 0 line row)
      ≡ padded width line
overwrite-blank width line row le lr =
    let e : 0 + length line ≡ length line = omega arith in
    let blank = spaces (width - length line) in
    let behind = drop (length line) row in
    rw (e, take-append line behind)
      (ap (λ (s : Bytes). line ++ s)
        (ap (λ (s : Bytes). blank ++ s)
            (drop-all (length line + length blank) (line ++ behind) (
              omega (
                arith,
                length-append line behind,
                length-drop (length line) row,
                length-spaces (width - length line),
                lr,
              )))
          ∙ append-nil blank))

pub set_row-same : (y : ℕ) (row : Bytes) (rows : ℕ → Bytes) → set_row y row rows y ≡ row
set_row-same y row rows = rw (==_refl y) refl

pub set_row-other :
    (y i : ℕ) (row : Bytes) (rows : ℕ → Bytes) → i ≢ y → set_row y row rows i ≡ rows i
set_row-other y i row rows ne = elim (Bool-cases (i == y)) [
  | inl e ↦ absurd (ne ((==_iff i y).0 e))
  | inr e ↦ rw e refl
]

-- A line over a row of just its length.
pub overwrite-full :
    (width : ℕ) (line row : Bytes)
    → length line ≡ width
    → length row ≡ width
    → overwrite 0 line row ≡ padded width line
unfolding repeat
overwrite-full width line row le lr =
    let e : width - length line ≡ 0 = omega arith in
    rw e (ap (λ (s : Bytes). line ++ s) (drop-all (0 + length line) row (omega arith)))
