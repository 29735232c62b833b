-- ===== src/Client/Ascii/Rows.antt =====
-- frame.rs: the text of a frame is a rectangle of characters.
use mathlib.Core.Path.{subst}
use facetime_v.Base.{
  All, All-append, All-drop, All-weaken, Bool, Bool-cases, Bytes, IsByte, List, Result, [], all,
  arith, decimal, decimal-IsDigit, drop, inl, inr, length, length-drop, ltb, not, ok, refl, suc,
  text, true, zero, ℕ, ◌&&◌, ◌*◌, ◌++◌, ◌+◌, ◌-◌, ◌/◌, ◌<◌, ◌==◌, ◌∷◌, ◌≡◌, ◌≢◌, ◌≤◌,
}
use facetime_v.Client.Visible.Lines.{IsLine}
use facetime_v.Client.Visible.Count.{Takes, Takes-nil, Takes-append, Takes-char, Takes-code}
use facetime_v.Client.Ascii.{
  ascii_rows, ascii_row, row_end, Mode, chars_of, gray, index, char_of, color_code, rgb_to_ansi256,
  ascii_chars, color_ascii_chars, true_color_ascii_chars,
}

-- A printable ASCII character.
abbrev is_plain : ℕ → Bool
is_plain c = ltb 31 c && ltb c 127

get_elem?-all :
    (p : ℕ → Bool) (xs : List ℕ) (i : ℕ)
    → all p xs ≡ true
    → i < length xs
    → (c : ℕ) × (index xs i ≡ ok c) × (p c ≡ true)
get_elem?-all p [] i h lt = absurd (omega arith)
get_elem?-all p (x ∷ xs) zero h lt = (x, refl, ground (arith, h))
get_elem?-all p (x ∷ xs) (suc i) h lt = get_elem?-all p xs i (ground (arith, h)) (omega arith)

gray-IsByte : (r g b : ℕ) → IsByte r → IsByte g → IsByte b → gray r g b ≤ 255
unfolding gray
gray-IsByte r g b hr hg hb = omega arith

char_in_bounds :
    (chars : Bytes) (g : ℕ)
    → all is_plain chars ≡ true
    → g * (length chars - 1) / 255 < length chars
    → (c : ℕ) × (index chars (g * (length chars - 1) / 255) ≡ ok c) × (is_plain c ≡ true)
char_in_bounds chars g h lt = get_elem?-all is_plain chars (g * (length chars - 1) / 255) h lt

char_of-plain :
    (mode : Mode) (r g b : ℕ)
    → IsByte r
    → IsByte g
    → IsByte b
    → (c : ℕ) × (char_of (chars_of mode) r g b ≡ ok c) × (is_plain c ≡ true)
unfolding char_of
char_of-plain mode r g b hr hg hb =
    let h = gray-IsByte r g b hr hg hb in
    elim (Bool-cases mode.color_enabled) [
      | inl c ↦ elim (Bool-cases mode.true_color) [
        | inl t ↦ rw (c, t) (char_in_bounds true_color_ascii_chars (gray r g b) refl (omega arith))
        | inr t ↦ rw (c, t) (char_in_bounds color_ascii_chars (gray r g b) refl (omega arith))
      ]
      | inr c ↦ rw c (char_in_bounds ascii_chars (gray r g b) refl (omega arith))
    ]

-- Bytes in a colour code.
abbrev IsCodeByte : ℕ → Type 0
IsCodeByte b = (b ≢ b'm') × (b ≢ 10) × (b ≢ 13)

decimal-code : (n : ℕ) → All IsCodeByte (decimal n)
decimal-code n =
    All-weaken (decimal n) (λ b h. (omega (arith, h.0), omega (arith, h.0), omega (arith, h.0)))
      (decimal-IsDigit n)

-- What takes `n` columns and breaks no line.
pub record Fills (n : ℕ) (s : Bytes) : Type 0 where
  pub takes : Takes n s
  pub line : IsLine s

pub Fills-append : (n k : ℕ) (s t : Bytes) → Fills n s → Fills k t → Fills (n + k) (s ++ t)
Fills-append n k s t hs ht = record {
  takes = Takes-append n k s t hs.takes ht.takes;
  line = All-append (λ (b : ℕ). (b ≢ 10) × (b ≢ 13)) s t hs.line ht.line;
}

pub Fills-nil : Fills 0 []
Fills-nil = record { takes = Takes-nil; line = tt }

pub Fills-eq : (n k : ℕ) (s : Bytes) → n ≡ k → Fills n s → Fills k s
Fills-eq n k s e h = subst (λ (i : ℕ). Fills i s) e h

pub Fills-char : (c : ℕ) → is_plain c ≡ true → Fills 1 (c ∷ [])
Fills-char c h = record {
  takes = Takes-char c (ground (arith, h)) (ground (arith, h));
  line = ((ground (arith, h), ground (arith, h)), tt);
}

Fills-code : (s : Bytes) → All IsCodeByte s → Fills 0 (27 ∷ s ++ b'm' ∷ [])
Fills-code s h = record {
  takes = Takes-code s (All-weaken s (λ b hb. hb.0) h);
  line = (
    (omega arith, omega arith),
    All-append (λ (b : ℕ). (b ≢ 10) × (b ≢ 13)) s (b'm' ∷ [])
        (All-weaken s (λ b hb. (hb.1, hb.2)) h) ((omega arith, omega arith), tt),
  );
}

code-append : (s t : Bytes) → All IsCodeByte s → All IsCodeByte t → All IsCodeByte (s ++ t)
code-append s t hs ht = All-append IsCodeByte s t hs ht

is_code_byte : ℕ → Bool
is_code_byte b = not (b == b'm') && not (b == 10) && not (b == 13)

code-constant : (s : Bytes) → all is_code_byte s ≡ true → All IsCodeByte s
unfolding is_code_byte
code-constant [] h = tt
code-constant (b ∷ s) h =
    ((ground (arith, h), ground (arith, h), ground (arith, h)), code-constant s (ground (arith, h)))

-- The numbers in a colour code, behind its first text.
code_number : (s : Bytes) (n : ℕ) → All IsCodeByte s → All IsCodeByte (s ++ decimal n)
code_number s n h = code-append s (decimal n) h (decimal-code n)

code_next : (s : Bytes) (n : ℕ) → All IsCodeByte s → All IsCodeByte (s ++ text ";" ++ decimal n)
unfolding is_code_byte
code_next s n h =
    code_number (s ++ text ";") n (code-append s (text ";") h (code-constant (text ";") refl))

color_code-Fills : (mode : Mode) (r g b : ℕ) → Fills 0 (color_code mode r g b)
unfolding color_code is_code_byte
color_code-Fills mode r g b = elim (Bool-cases mode.color_enabled) [
  | inl c ↦ elim (Bool-cases mode.true_color) [
    | inl t ↦
        let first = text "[38;2;" ++ decimal r in
        let second = first ++ text ";" ++ decimal g in
        rw (c, t)
          (Fills-code (second ++ text ";" ++ decimal b) (
            code_next second b (
              code_next first g
                (code_number (text "[38;2;") r (code-constant (text "[38;2;") refl)))))
    | inr t ↦
        let n = rgb_to_ansi256 r g b in
        rw (c, t)
          (Fills-code (text "[38;5;" ++ decimal n)
            (code_number (text "[38;5;") n (code-constant (text "[38;5;") refl)))
  ]
  | inr c ↦ rw c Fills-nil
]

row_end-Fills : (mode : Mode) → Fills 0 (row_end mode)
unfolding is_code_byte
row_end-Fills mode = elim (Bool-cases mode.color_enabled) [
  | inl c ↦ rw c (Fills-code (text "[0") (code-constant (text "[0") refl))
  | inr c ↦ rw c Fills-nil
]

-- A row of the picture is written whole: it takes one column for each pixel, and no index is out of
-- bounds.
abbrev IsRow : ℕ → Bytes → Result (Bytes × Bytes) → Type 0
IsRow n pixels outcome = (row : Bytes) × (outcome ≡ ok (row, drop (3 * n) pixels)) × Fills n row

ascii_row-IsRow :
    (mode : Mode) (n : ℕ) (pixels : Bytes)
    → All IsByte pixels
    → 3 * n ≤ length pixels
    → IsRow n pixels (ascii_row mode n pixels)
unfolding ascii_row
ascii_row-IsRow mode zero pixels h le = ([], refl, Fills-nil)
ascii_row-IsRow mode (suc n) [] h le = absurd (omega arith)
ascii_row-IsRow mode (suc n) (r ∷ []) h le = absurd (omega arith)
ascii_row-IsRow mode (suc n) (r ∷ g ∷ []) h le = absurd (omega arith)
ascii_row-IsRow mode (suc n) (r ∷ g ∷ b ∷ pixels) (hr, (hg, (hb, h))) le =
    let (c, ec, plain) = char_of-plain mode r g b hr hg hb in
    let (row, e, fills) = ascii_row-IsRow mode n pixels h (omega arith) in
    let e3 : 3 * suc n ≡ suc (suc (suc (3 * n))) = omega arith in
    (
      color_code mode r g b ++ c ∷ row,
      rw (ec, e, e3) refl,
      Fills-eq (0 + (1 + n)) (suc n) _ (omega arith) (
          Fills-append 0 (1 + n) (color_code mode r g b) (c ∷ row) (color_code-Fills mode r g b)
            (Fills-append 1 n (c ∷ []) row (Fills-char c plain) fills)),
    )

suc_mul : (n k : ℕ) → suc n * k ≡ k + n * k
suc_mul n k = omega arith

-- The text of a picture: as many lines as it is high, each taking as many columns as it is wide.
pub record IsPicture (w h : ℕ) (ls : List Bytes) : Type 0 where
  pub high : length ls ≡ h
  pub wide : All (Fills w) ls

pub ascii_rows-IsPicture :
    (mode : Mode) (w h : ℕ) (pixels : Bytes)
    → All IsByte pixels
    → h * (3 * w) ≤ length pixels
    → (rows : List Bytes) × (ascii_rows mode w h pixels ≡ ok rows) × IsPicture w h rows
unfolding ascii_rows
ascii_rows-IsPicture mode w zero pixels b le = ([], refl, record { high = refl; wide = tt })
ascii_rows-IsPicture mode w (suc h) pixels b le =
    let e3 = suc_mul h (3 * w) in
    let (row, er, fr) = ascii_row-IsRow mode w pixels b (omega arith) in
    let (rows, es, p) =
      ascii_rows-IsPicture mode w h (drop (3 * w) pixels) (All-drop IsByte (3 * w) pixels b)
        (omega (arith, length-drop (3 * w) pixels)) in
    (
      (row ++ row_end mode) ∷ rows,
      rw (er, es) refl,
      record {
        high = omega (arith, p.high);
        wide = (
          Fills-eq (w + 0) w _ (omega arith)
              (Fills-append w 0 row (row_end mode) fr (row_end-Fills mode)),
          p.wide,
        );
      },
    )
