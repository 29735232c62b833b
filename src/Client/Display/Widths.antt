-- ===== src/Client/Display/Widths.antt =====
-- cli_display.rs: the lines of a frame have the same number of characters.
use facetime_v.Base.{
  All, All-append, Bytes, List, Option, [], ap, arith, length, length-append, map, none, refl, some,
  suc, text, zero, ℕ, ◌++◌, ◌+◌, ◌-◌, ◌/◌, ◌∙◌, ◌∷◌, ◌≡◌, ◌≤◌,
}
use facetime_v.Protocol.Utf8.{from_utf8, Pending, advance, emit, decode, start, chars}
use facetime_v.Protocol.RoundTrip.{IsText}
use facetime_v.Protocol.Texts.{IsText-decode, append-IsText, chars-append}
use facetime_v.Client.Display.{
  horizontal, vertical, top_left, top_right, bottom_left, bottom_right, repeat, pad_right, longest,
  border_fill_width, box_line, padded, box_lines, title_str,
}

-- How many characters a text has, which is what the source pads by: columns, where each takes one.
abbrev pub char_count : Bytes → ℕ
char_count s = length (chars s)

-- A text is well formed and has a number of characters.
pub record HasCharCount (n : ℕ) (s : Bytes) : Type 0 where
  pub is_text : IsText s
  pub count : char_count s ≡ n

HasCharCount-append :
    (a b : ℕ) (s t : Bytes) → HasCharCount a s → HasCharCount b t → HasCharCount (a + b) (s ++ t)
HasCharCount-append a b s t hs ht = record {
  is_text = append-IsText s t hs.is_text ht.is_text;
  count =
      ap (λ (cs : List ℕ). length cs) (chars-append s t hs.is_text ht.is_text)
      ∙ length-append (chars s) (chars t)
      ∙ omega (arith, hs.count, ht.count);
}

HasCharCount-eq : (a b : ℕ) (s : Bytes) → a ≡ b → HasCharCount a s → HasCharCount b s
HasCharCount-eq a b s e h = record { is_text = h.is_text; count = h.count ∙ e }

HasCharCount-repeat : (s : Bytes) (n : ℕ) → HasCharCount 1 s → HasCharCount n (repeat s n)
unfolding repeat
HasCharCount-repeat s zero h = record {
  is_text = unfold from_utf8 in refl;
  count = unfold chars in refl;
}
HasCharCount-repeat s (suc n) h =
    HasCharCount-eq (1 + n) (suc n) (s ++ repeat s n) (omega arith)
      (HasCharCount-append 1 n s (repeat s n) h (HasCharCount-repeat s n h))

emit-shorter :
    (o : Option Pending) (first : Option (List ℕ)) (cs : List ℕ) (n : ℕ)
    → emit o first ≡ some cs
    → ((ds : List ℕ) → first ≡ some ds → length ds ≤ n)
    → length cs ≤ suc n
emit-shorter none first cs n h each = cc
emit-shorter (some p) none cs n h each = ground arith
emit-shorter (some p) (some ds) cs n h each = let e = each ds refl in ground arith

-- No text has more characters than bytes.
decode-shorter :
    (o : Option Pending) (s : Bytes) (cs : List ℕ) → decode o s ≡ some cs → length cs ≤ length s
unfolding decode
decode-shorter none s cs h = cc
decode-shorter (some p) [] cs h = ground arith
decode-shorter (some p) (b ∷ s) cs h =
    emit-shorter (advance p b) (decode (advance p b) s) cs (length s) h
      (λ ds e. decode-shorter (advance p b) s ds e)

char_count-bytes : (s : Bytes) → IsText s → char_count s ≤ length s
char_count-bytes s h = decode-shorter (some start) s (chars s) (IsText-decode s h)

pad_right-HasCharCount :
    (w : ℕ) (s : Bytes) → IsText s → char_count s ≤ w → HasCharCount w (pad_right w s)
unfolding pad_right
pad_right-HasCharCount w s h le =
    HasCharCount-eq (char_count s + (w - char_count s)) w _ (omega arith) (
      HasCharCount-append (char_count s) (w - char_count s) s (repeat (text " ") (w - char_count s))
        (record { is_text = h; count = refl })
        (HasCharCount-repeat (text " ") (w - char_count s)
          (record { is_text = unfold from_utf8 in refl; count = unfold chars in refl })))

-- A glyph, or a space.
abbrev IsGlyph : Bytes → Type 0
IsGlyph s = HasCharCount 1 s

glyph : (s : Bytes) (c : ℕ) → decode (some start) s ≡ some (c ∷ []) → IsGlyph s
unfolding from_utf8 chars
glyph s c h = record { is_text = rw (from_utf8, h) refl; count = rw (chars, h) refl }

space-IsGlyph : IsGlyph (text " ")
unfolding decode
space-IsGlyph = glyph (text " ") 32 refl

bars-IsGlyph : IsGlyph horizontal × IsGlyph vertical
unfolding decode
bars-IsGlyph = (glyph horizontal 0x2500 refl, glyph vertical 0x2502 refl)

corners-IsGlyph : IsGlyph top_left × IsGlyph top_right × IsGlyph bottom_left × IsGlyph bottom_right
unfolding decode
corners-IsGlyph = (
  glyph top_left 0x256d refl,
  glyph top_right 0x256e refl,
  glyph bottom_left 0x2570 refl,
  glyph bottom_right 0x256f refl,
)

-- Two bars with something between them.
framed-HasCharCount :
    (bar s : Bytes) (w : ℕ)
    → IsGlyph bar
    → IsText s
    → char_count s ≤ w
    → HasCharCount (w + 4) (bar ++ text " " ++ pad_right w s ++ text " " ++ bar)
framed-HasCharCount bar s w g h le = HasCharCount-eq (1 + 1 + w + 1 + 1) (w + 4) _ (omega arith) (
    HasCharCount-append (1 + 1 + w + 1) 1 _ bar
      (HasCharCount-append (1 + 1 + w) 1 _ (text " ")
        (HasCharCount-append (1 + 1) w _ (pad_right w s)
          (HasCharCount-append 1 1 bar (text " ") g space-IsGlyph)
          (pad_right-HasCharCount w s h le))
        space-IsGlyph)
      g)

framed_lines :
    (frame : Bytes → Bytes) (w : ℕ) (lines : List Bytes)
    → ((line : Bytes) → IsText line → length line ≤ longest lines → HasCharCount w (frame line))
    → All IsText lines
    → All (HasCharCount w) (map frame lines)
unfolding longest
framed_lines frame w [] each h = tt
framed_lines frame w (line ∷ lines) each h =
    (each line h.0 (omega arith), framed_lines frame w lines (λ l t le. each l t (omega arith)) h.1)

-- The title, in the colours of its frame or not, is written as it is.
pub record IsTitle (title : Bytes) : Type 0 where
  pub is_text : IsText title
  pub ascii : char_count title ≡ length title

spaces-HasCharCount : (n : ℕ) → HasCharCount n (repeat (text " ") n)
spaces-HasCharCount n = HasCharCount-repeat (text " ") n space-IsGlyph

module _ (title : Bytes) (t : IsTitle title) where
  title_str-HasCharCount : HasCharCount (length (title_str title)) (title_str title)
  title_str-HasCharCount =
      HasCharCount-eq (1 + length title + 1) _ _ (omega (arith, length-append title (text " "))) (
        HasCharCount-append (1 + length title) 1 _ (text " ")
          (HasCharCount-append 1 (length title) (text " ") title space-IsGlyph
            (record { is_text = t.is_text; count = t.ascii }))
          space-IsGlyph)

  top-HasCharCount :
      (w side : ℕ)
      → w ≡ length (title_str title) + side
      → HasCharCount (w + 4) (
          top_left
          ++ horizontal
          ++ repeat horizontal (side / 2)
          ++ title_str title
          ++ repeat horizontal (side - side / 2)
          ++ horizontal
          ++ top_right)
  top-HasCharCount w side e =
      HasCharCount-eq (1 + 1 + side / 2 + length (title_str title) + (side - side / 2) + 1 + 1)
        (w + 4) _ (omega arith)
        (HasCharCount-append _ 1 _ top_right
          (HasCharCount-append _ 1 _ horizontal
            (HasCharCount-append _ (side - side / 2) _ _
              (HasCharCount-append _ (length (title_str title)) _ (title_str title)
                (HasCharCount-append (1 + 1) (side / 2) _ _
                  (HasCharCount-append 1 1 top_left horizontal corners-IsGlyph.0 bars-IsGlyph.0)
                  (HasCharCount-repeat horizontal (side / 2) bars-IsGlyph.0))
                title_str-HasCharCount)
              (HasCharCount-repeat horizontal (side - side / 2) bars-IsGlyph.0))
            bars-IsGlyph.0)
          corners-IsGlyph.1)

bottom-HasCharCount :
    (left bar right : Bytes) (w : ℕ)
    → IsGlyph left
    → IsGlyph bar
    → IsGlyph right
    → HasCharCount (w + 4) (left ++ repeat bar (w + 2) ++ right)
bottom-HasCharCount left bar right w l b r =
    HasCharCount-eq (1 + (w + 2) + 1) (w + 4) _ (omega arith) (
      HasCharCount-append (1 + (w + 2)) 1 _ right
        (HasCharCount-append 1 (w + 2) left _ l (HasCharCount-repeat bar (w + 2) b)) r)

padded-HasCharCount :
    (line : Bytes) → IsText line → HasCharCount (2 + char_count line + 2) (padded line)
padded-HasCharCount line h =
    HasCharCount-append (2 + char_count line) 2 _ _
      (HasCharCount-append 2 (char_count line) _ line (spaces-HasCharCount 2)
        (record { is_text = h; count = refl }))
      (spaces-HasCharCount 2)

padded_line-HasCharCount :
    (w : ℕ) (line : Bytes)
    → IsText line
    → length line + 4 ≤ w
    → HasCharCount (w + 4) (box_line w (padded line))
padded_line-HasCharCount w line h le =
    let p = padded-HasCharCount line h in
    framed-HasCharCount vertical (padded line) w bars-IsGlyph.1 p.is_text
      (omega (arith, p.count, char_count-bytes line h))

nil-HasCharCount : HasCharCount 0 []
unfolding repeat
nil-HasCharCount = spaces-HasCharCount 0

-- The lines of the single frame around UTF-8 texts, under a title with one character for each byte,
-- are all UTF-8 and have the same number of characters, four more than the width that was computed.
-- (They take the same number of columns where each character takes one.)
pub box_lines-HasCharCount :
    (title : Bytes) (lines : List Bytes)
    → IsTitle title
    → All IsText lines
    → All (HasCharCount (border_fill_width title lines + 4)) (box_lines title lines)
unfolding box_lines border_fill_width
box_lines-HasCharCount title lines t h =
    let w = border_fill_width title lines in
    (
      top-HasCharCount title t w (w - length (title_str title)) (omega arith),
      (
        framed-HasCharCount vertical [] w bars-IsGlyph.1 nil-HasCharCount.is_text
            (omega (arith, nil-HasCharCount.count)),
        All-append (HasCharCount (w + 4)) (map (λ line. box_line w (padded line)) lines) _
            (framed_lines (λ line. box_line w (padded line)) (w + 4) lines
              (λ line tl le. padded_line-HasCharCount w line tl (omega arith)) h)
            (
              bottom-HasCharCount bottom_left horizontal bottom_right w corners-IsGlyph.2
                  bars-IsGlyph.0 corners-IsGlyph.3,
              tt,
            ),
      ),
    )
