-- ===== src/Client/Visible.antt =====
-- client/src/frame.rs: lines of text with colour codes in them. `lines` is the standard library's
-- `str::lines`, `count_visible_chars` is the source's count of the columns that a line takes.
pub mod Lines
pub mod Count
use facetime_v.Base.{
  Bool, Bytes, List, [], false, if◌then◌else◌, leb, refl, suc, text, zero, ℕ, ◌&&◌, ◌++◌, ◌+◌, ◌==◌,
  ◌∷◌, ◌≡◌,
}

-- Where the scan of a line is: at a character, inside one, or inside a colour code.
pub data Scan : Type 0 where
  skip : ℕ → Scan
  escape : Scan

-- How many bytes of a character follow its first byte `b`.
abbrev pub char_rest : ℕ → ℕ
char_rest b =
    if leb 0xc0 b && leb b 0xdf
    then 1
    else if leb 0xe0 b && leb b 0xef
    then 2
    else if leb 0xf0 b && leb b 0xf7
    then 3
    else 0

-- The place after a byte, and whether a character begins with it.
unfoldable pub advance : Scan → ℕ → Scan
advance (skip zero) b = if b == 0x1b then escape else skip (char_rest b)
advance (skip (suc n)) b = skip n
advance escape b = if b == b'm' then skip 0 else escape

unfoldable pub begins : Scan → ℕ → ℕ
begins (skip zero) b = if b == 0x1b then 0 else 1
begins (skip (suc n)) b = 0
begins escape b = 0

unfoldable pub count_from : Scan → Bytes → ℕ
unfolding advance begins
count_from scan [] = 0
count_from scan (b ∷ rest) = begins scan b + count_from (advance scan b) rest

unfoldable pub count_visible_chars : Bytes → ℕ
unfolding count_from
count_visible_chars s = count_from (skip 0) s

-- One line feed after each line.
unfoldable pub unlines : List Bytes → Bytes
unlines [] = []
unlines (line ∷ rest) = line ++ 10 ∷ unlines rest

abbrev pub onto_first : ℕ → List Bytes → List Bytes
onto_first b [] = (b ∷ []) ∷ []
onto_first b (line ∷ rest) = (b ∷ line) ∷ rest

abbrev pub line_feed_next : Bytes → Bool
line_feed_next [] = false
line_feed_next (b ∷ rest) = b == 10

-- A carriage return right before a line feed belongs to the line's end. What follows the last line
-- feed is a line if it is not empty.
unfoldable pub lines : Bytes → List Bytes
lines [] = []
lines (b ∷ rest) =
    let later = lines rest in
    if b == 10
    then [] ∷ later
    else if b == 13 && line_feed_next rest
    then later
    else onto_first b later

count_runs :
    (count_visible_chars (0x1b ∷ text "[38;5;16ma" ++ 0x1b ∷ text "[0m") ≡ 1)
    × (count_visible_chars (0xc3 ∷ 0xa9 ∷ text "t" ++ 0xc3 ∷ 0xa9 ∷ []) ≡ 3)
    × (lines (text "a\r\r\n\nb\r") ≡ text "a\r" ∷ [] ∷ text "b\r" ∷ [])
unfolding count_visible_chars lines
count_runs = (refl, refl, refl)
