-- ===== src/Client/Renderer/Redraw.antt =====
-- renderer.rs: what many lines that are drawn do to the screen.
use mathlib.Core.Path.{subst}
use facetime_v.Base.{
  ==_iff, All, All-drop, Bool-cases, Bytes, List, [], ap, arith, bytes_instance, drop, get_elem?,
  inl, inr, length, length-drop, ltb, ltb→le, ltb→lt, nat_instance, none, refl, same, same_iff,
  some, suc, sym, zero, ℕ, ◌++◌, ◌+◌, ◌-◌, ◌<◌, ◌==◌, ◌^◌, ◌∙◌, ◌∷◌, ◌≡◌, ◌≤◌,
}
use facetime_v.Client.Renderer.{
  first_diff, position_cursor_at_end, Size, TerminalCommand, Size, position_cursor_at_end,
  whole_line, whole_lines, first_diff, plain_line, plain_lines, added_lines,
}
use facetime_v.Client.Renderer.Screen.{
  apply, Shows, Screen, apply, apply_all, apply_all-append, padded, line_of, Shows,
}
use facetime_v.Client.Renderer.Plain.{
  size, over_line-Sets, Sets, whole_line-Sets, over_line-Sets, plain_line-Sets,
}

get-line_of :
    (ls : List Bytes) (i : ℕ) → elim (get_elem? ls i) [ none ↦ [] | some l ↦ l ] ≡ line_of ls i
get-line_of [] i = refl
get-line_of (l ∷ ls) zero = refl
get-line_of (l ∷ ls) (suc i) = get-line_of ls i

pub line_of-behind : (ls : List Bytes) (i : ℕ) → length ls ≤ i → line_of ls i ≡ []
line_of-behind [] i le = refl
line_of-behind (l ∷ ls) zero le = absurd (omega arith)
line_of-behind (l ∷ ls) (suc i) le = line_of-behind ls i (omega arith)

pub line_of-drop : (ls : List Bytes) (n i : ℕ) → line_of (drop n ls) i ≡ line_of ls (n + i)
line_of-drop ls zero i = let e : 0 + i ≡ i = omega arith in rw e refl
line_of-drop [] (suc n) i = refl
line_of-drop (l ∷ ls) (suc n) i =
    let e : suc n + i ≡ suc (n + i) = omega arith in rw e (line_of-drop ls n i)

-- No line is wider than the terminal.
abbrev pub Narrow : ℕ → List Bytes → Type 0
Narrow width ls = All (λ (line : Bytes). length line ≤ width) ls

pub line_of-Narrow :
    (width : ℕ) (ls : List Bytes) (i : ℕ) → Narrow width ls → length (line_of ls i) ≤ width
line_of-Narrow width [] i h = omega arith
line_of-Narrow width (l ∷ ls) zero h = h.0
line_of-Narrow width (l ∷ ls) (suc i) h = line_of-Narrow width ls i h.1

-- The rows of the terminal from `n` on show a text, and those before are as they were.
pub record ShowsFrom (width height n : ℕ) (content : List Bytes) (screen after : Screen)
    : Type 0 where
  pub from : (i : ℕ) → n + i < height → after.rows (n + i) ≡ padded width (line_of content i)
  pub before : (i : ℕ) → i < n → after.rows i ≡ screen.rows i

module _ (width height : ℕ) where
  cons-row :
      (n i : ℕ) (line : Bytes) (rest : List Bytes) (screen between after : Screen)
      → Sets width n line screen between
      → ShowsFrom width height (n + 1) rest between after
      → n + i < height
      → after.rows (n + i) ≡ padded width (line_of (line ∷ rest) i)
  cons-row n zero line rest screen between after s f lt =
      let e : n + 0 ≡ n = omega arith in rw e (f.before n (omega arith) ∙ s.at_row)
  cons-row n (suc i) line rest screen between after s f lt =
      let e : n + suc i ≡ n + 1 + i = omega arith in rw e (f.from i (omega arith))

  -- One more line, where its row is set and the rows behind it are drawn.
  ShowsFrom-cons :
      (n : ℕ) (line : Bytes) (rest : List Bytes) (screen between after : Screen)
      → Sets width n line screen between
      → ShowsFrom width height (n + 1) rest between after
      → ShowsFrom width height n (line ∷ rest) screen after
  ShowsFrom-cons n line rest screen between after s f = record {
    from = λ i lt. cons-row n i line rest screen between after s f lt;
    before = λ i lt. f.before i (omega arith) ∙ s.elsewhere i (omega arith);
  }

  -- The same of commands: those of the line, and those of the rest.
  ShowsFrom-append :
      (n : ℕ) (line : Bytes) (rest : List Bytes) (screen : Screen)
      (first second : List TerminalCommand)
      → Sets width n line screen (apply_all width height first screen)
      → ShowsFrom width height
          (n + 1)
          rest
          (apply_all width height first screen)
          (apply_all width height second (apply_all width height first screen))
      → ShowsFrom width height n
          (line ∷ rest)
          screen
          (apply_all width height (first ++ second) screen)
  ShowsFrom-append n line rest screen first second s f =
      subst (ShowsFrom width height n (line ∷ rest) screen)
        (sym (apply_all-append width height first second screen))
        (ShowsFrom-cons n line rest screen (apply_all width height first screen) _ s f)

module _ (width height : ℕ) where
  plain_lines-ShowsFrom :
      (n : ℕ) (last rest : List Bytes) (screen : Screen)
      → ((i : ℕ) → n ≤ i → i < height → screen.rows i ≡ padded width (line_of last i))
      → length last ≤ n + length rest
      → n + length rest ≤ 2 ^ 16
      → n + length rest ≤ height
      → Narrow width last
      → Narrow width rest
      → ShowsFrom width height n rest screen
          (apply_all width height (plain_lines (size width height) n last rest) screen)
  unfolding plain_lines apply_all
  plain_lines-ShowsFrom n last [] screen shown le small low hl hr = record {
    from = λ i lt.
        shown (n + i) (omega arith) lt
        ∙ ap (padded width) (line_of-behind last (n + i) (omega arith));
    before = λ i lt. refl;
  }
  plain_lines-ShowsFrom n last (line ∷ rest) screen shown le small low hl hr =
      let s =
        plain_line-Sets width height n line (get_elem? last n) (line_of last n) screen (omega arith)
          (omega arith) hr.0 (line_of-Narrow width last n hl) (get-line_of last n)
          (shown n (omega arith) (omega arith)) in
      ShowsFrom-append width height n line rest screen
        (plain_line (size width height) n line (get_elem? last n))
        (plain_lines (size width height) (n + 1) last rest) s
        (plain_lines-ShowsFrom (n + 1) last rest _
          (λ i le' lt. s.elsewhere i (omega arith) ∙ shown i (omega arith) lt) (omega arith)
          (omega arith) (omega arith) hl hr.1)

  pub whole_lines-ShowsFrom :
      (n : ℕ) (rest : List Bytes) (screen : Screen)
      → ((i : ℕ) → n ≤ i → i < height → length (screen.rows i) ≡ width)
      → ((i : ℕ) → n + length rest ≤ i → i < height → screen.rows i ≡ padded width [])
      → n + length rest ≤ 2 ^ 16
      → n + length rest ≤ height
      → Narrow width rest
      → ShowsFrom width height n rest screen
          (apply_all width height (whole_lines (size width height) n rest) screen)
  unfolding whole_lines apply_all
  whole_lines-ShowsFrom n [] screen full blank small low hr = record {
    from = λ i lt. blank (n + i) (omega arith) lt;
    before = λ i lt. refl;
  }
  whole_lines-ShowsFrom n (line ∷ rest) screen full blank small low hr =
      let s =
        whole_line-Sets width height n line screen (omega arith) (omega arith) hr.0
          (full n (omega arith) (omega arith)) in
      ShowsFrom-append width height n line rest screen (whole_line (size width height) n line)
        (whole_lines (size width height) (n + 1) rest) s
        (whole_lines-ShowsFrom (n + 1) rest _
          (λ i le' lt.
            ap (λ (r : Bytes). length r) (s.elsewhere i (omega arith)) ∙ full i (omega arith) lt)
          (λ i le' lt. s.elsewhere i (omega arith) ∙ blank i (omega arith) lt) (omega arith)
          (omega arith) hr.1)

  -- Lines that are drawn once more change no row.
  pub added_lines-rows :
      (n : ℕ) (rest : List Bytes) (screen : Screen)
      → ((i : ℕ) → n ≤ i → i < height → screen.rows i ≡ padded width (line_of rest (i - n)))
      → n + length rest ≤ 2 ^ 16
      → n + length rest ≤ height
      → (i : ℕ) → (apply_all width height (added_lines n rest) screen).rows i ≡ screen.rows i
  unfolding added_lines apply_all
  added_lines-rows n [] screen shown small low i = refl
  added_lines-rows n (line ∷ rest) screen shown small low i =
      let z : n - n ≡ 0 = omega arith in
      let at_n : screen.rows n ≡ padded width line =
        shown n (omega arith) (omega arith) ∙ (rw z refl) in
      let s =
        over_line-Sets width height n line line screen (omega arith) (omega arith) (omega arith)
          at_n in
      added_lines-rows (n + 1) rest _
        (λ j le lt.
          let e : j - n ≡ suc (j - (n + 1)) = omega arith in
          s.elsewhere j (omega arith) ∙ shown j (omega arith) lt ∙ (rw e refl))
        (omega arith) (omega arith) i
      ∙ elim (Bool-cases (i == n)) [
        | inl e ↦ let f = (==_iff i n).0 e in rw f (s.at_row ∙ sym at_n)
        | inr e ↦ s.elsewhere i (λ f. absurd (ground (arith, e, f)))
      ]

first_diff-same :
    (content old : List Bytes) (i : ℕ)
    → i < first_diff content old
    → line_of content i ≡ line_of old i
unfolding first_diff
first_diff-same [] old i lt = absurd (omega arith)
first_diff-same (line ∷ content) [] i lt = absurd (omega arith)
first_diff-same (line ∷ content) (old_line ∷ old) zero lt = elim (Bool-cases (same line old_line)) [
  | inl e ↦ (same_iff line old_line).0 e
  | inr e ↦ absurd (ground (arith, e, lt))
]
first_diff-same (line ∷ content) (old_line ∷ old) (suc i) lt =
    first_diff-same content old i (ground (arith, lt))

first_diff-le : (content old : List Bytes) → first_diff content old ≤ length content
unfolding first_diff
first_diff-le [] old = omega arith
first_diff-le (line ∷ content) [] = omega arith
first_diff-le (line ∷ content) (old_line ∷ old) = ground (arith, first_diff-le content old)

pub cursor-rows :
    (width height : ℕ) (size : Size) (content : List Bytes) (screen : Screen) (i : ℕ)
    → (apply_all width height (position_cursor_at_end size content) screen).rows i ≡ screen.rows i
unfolding position_cursor_at_end apply_all apply
cursor-rows width height none content screen i = refl
cursor-rows width height (some s) content screen i = refl

module _ (width height : ℕ) (old content : List Bytes) (screen : Screen) where
  -- The screen shows the old lines, and the new ones are not fewer and fit.
  pub record Redraws : Type 0 where
    pub shown : Shows width height old screen
    pub not_fewer : length old ≤ length content
    pub small : length content ≤ 2 ^ 16
    pub fits : length content ≤ height
    pub old_narrow : Narrow width old
    pub narrow : Narrow width content

  pub plain_lines-Shows :
      Redraws
      → Shows width height content (
          apply_all width height
            (plain_lines
              (size width height)
              (first_diff content old)
              old
              (drop (first_diff content old) content))
            screen)
  plain_lines-Shows r =
      let d = first_diff content old in
      let le = first_diff-le content old in
      let l = length-drop d content in
      let f =
        plain_lines-ShowsFrom width height d old (drop d content) screen
          (λ i h lt. r.shown.row i lt) (omega (arith, l, le, r.not_fewer))
          (omega (arith, l, le, r.small)) (omega (arith, l, le, r.fits)) r.old_narrow
          (All-drop (λ (line : Bytes). length line ≤ width) d content r.narrow) in
      record {
        row = λ i lt. elim (Bool-cases (ltb i d)) [
          | inl e ↦
              f.before i (ltb→lt i d e)
              ∙ r.shown.row i lt
              ∙ ap (padded width) (sym (first_diff-same content old i (ltb→lt i d e)))
          | inr e ↦
              let g : d + (i - d) ≡ i = omega (arith, ltb→le i d e) in
              ap
                (λ (j : ℕ).
                  (apply_all width height (plain_lines (size width height) d old (drop d content))
                      screen).rows
                    j)
                (sym g)
              ∙ f.from (i - d) (omega (arith, g))
              ∙ ap (padded width) (line_of-drop content d (i - d) ∙ ap (line_of content) g)
        ];
      }
