-- ===== src/Client/Ascii.antt =====
-- client/src/frame.rs: a frame as text. What OpenCV's `reshape` and `resize` make of the pixels of a
-- frame of some width and height, at a new width and height, is a parameter: no bytes where one of
-- them fails, and else the bytes of the new picture.
pub mod Rows
use facetime_v.Base.{
  Bool, Bytes, List, Option, Result, [], decimal, err, false, get_elem?, if◌then◌else◌, length, ltb,
  none, not, ok, panicked, refl, some, suc, text, true, zero, ℕ, ◌%◌, ◌&&◌, ◌*◌, ◌++◌, ◌+◌, ◌-◌,
  ◌/◌, ◌==◌, ◌>>=◌, ◌>>◌, ◌^◌, ◌∷◌, ◌≡◌,
}
use facetime_v.Client.Frame.{Frame}
use facetime_v.Client.Visible.{unlines}

abbrev pub Resize : Type 0
Resize = Bytes → ℕ → ℕ → ℕ → ℕ → Option Bytes

abbrev pub ascii_chars : Bytes
ascii_chars = text " .'`^\",_-|\\/*rxz%@$B"

abbrev pub color_ascii_chars : Bytes
color_ascii_chars = text " `'.,-^~:;!*+=cr?%$S#@"

abbrev pub true_color_ascii_chars : Bytes
true_color_ascii_chars = text " ,:;lll$$$$&&&&&#####"

-- `rgb_to_ansi256_fast`, on bytes; the sums and products fit the words that they are made in.
unfoldable pub rgb_to_ansi256 : ℕ → ℕ → ℕ → ℕ
rgb_to_ansi256 r g b =
    if r == g && g == b
    then if ltb r 8 then 16 else if ltb 248 r then 231 else (r - 8) * 24 / 247 % 256 + 232
    else 16 + 36 * (r * 5 / 255) + 6 * (g * 5 / 255) + b * 5 / 255

-- The two switches of the source: whether there are colours, and whether they are 24-bit.
pub record Mode : Type 0 where
  pub color_enabled : Bool
  pub true_color : Bool

abbrev pub chars_of : Mode → Bytes
chars_of mode =
    if mode.color_enabled && mode.true_color
    then true_color_ascii_chars
    else if mode.color_enabled
    then color_ascii_chars
    else ascii_chars

unfoldable pub gray : ℕ → ℕ → ℕ → ℕ
gray r g b = (r * 77 + g * 150 + b * 29) / 2 ^ 8 % 256

-- `ascii_chars[ascii_index]`, which panics where the index is out of bounds.
abbrev pub index : Bytes → ℕ → Result ℕ
index chars i = elim (get_elem? chars i) [ none ↦ err panicked | some c ↦ ok c ]

unfoldable pub char_of : Bytes → ℕ → ℕ → ℕ → Result ℕ
unfolding gray
char_of chars r g b = index chars (gray r g b * (length chars - 1) / 255)

-- What is written for a pixel before its character.
unfoldable pub color_code : Mode → ℕ → ℕ → ℕ → Bytes
unfolding rgb_to_ansi256
color_code mode r g b =
    if not mode.color_enabled
    then []
    else if mode.true_color
    then 27 ∷ text "[38;2;"
      ++ decimal r
      ++ text ";"
      ++ decimal g
      ++ text ";"
      ++ decimal b
      ++ text "m"
    else 27 ∷ text "[38;5;" ++ decimal (rgb_to_ansi256 r g b) ++ text "m"

-- `for col in 0..width`, on the pixels that are left of the picture: the row, and what is left behind
-- it. A pixel that is not there is passed over.
unfoldable pub ascii_row : Mode → ℕ → Bytes → Result (Bytes × Bytes)
unfolding color_code char_of
ascii_row mode (suc n) (r ∷ g ∷ b ∷ data_rest) = do
  c ← char_of (chars_of mode) r g b
  (row, rest) ← ascii_row mode n data_rest
  ok (color_code mode r g b ++ c ∷ row, rest)
ascii_row mode n pixels = ok ([], pixels)

abbrev pub row_end : Mode → Bytes
row_end mode = if mode.color_enabled then 27 ∷ text "[0m" else []

-- `for row in 0..height`: the lines of the text.
unfoldable pub ascii_rows : Mode → ℕ → ℕ → Bytes → Result (List Bytes)
unfolding ascii_row
ascii_rows mode width zero pixels = ok []
ascii_rows mode width (suc height) pixels = do
  (row, rest) ← ascii_row mode width pixels
  rows ← ascii_rows mode width height rest
  ok ((row ++ row_end mode) ∷ rows)

-- `to_ascii_with_buffer`: the text, or nothing where an error is returned and the buffer is left as
-- it was.
unfoldable pub to_ascii : Resize → Mode → Frame → ℕ → ℕ → Result (Option Bytes)
unfolding ascii_rows unlines
to_ascii resize mode frame width height =
    if not (length frame.pixels == frame.width * frame.height * 3)
    then ok none
    else elim (resize frame.pixels frame.width frame.height width height) [
      | none ↦ ok none
      | some resized ↦ do rows ← ascii_rows mode width height resized; ok (some (unlines rows))
    ]

ascii_runs :
    (ascii_row (record { color_enabled = true; true_color = false }) 1 (255 ∷ 0 ∷ 0 ∷ [])
      ≡ ok (27 ∷ text "[38;5;196m^", []))
    × (ascii_row
          (record { color_enabled = false; true_color = false })
          2
          (255 ∷ 255 ∷ 255 ∷ 0 ∷ 0 ∷ 0 ∷ [])
        ≡ ok (text "B ", []))
unfolding ascii_row decimal
ascii_runs = (refl, refl)
