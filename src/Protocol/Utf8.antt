-- ===== src/Protocol/Utf8.antt =====
-- `core::str::from_utf8` and `str::chars` of Rust's standard library. A text is kept as its bytes,
-- as a Rust `String` keeps it; `decode` accepts exactly the well-formed UTF-8 of the Unicode
-- standard (its table 3-7: no overlong form, no surrogate, nothing above U+10FFFF) and returns the
-- code points.
use facetime_v.Base.{
  ℕ, ◌+◌, ◌-◌, ◌*◌, ◌%◌, ◌≡◌, refl, arith, ◌==◌, ◌&&◌, if◌then◌else◌, leb, ltb, Option, none, some,
  List, [], ◌∷◌, Bytes, Result, ok, err, invalid_utf8,
}
use mathlib.Core.Option

-- What is still to come of a character: how many bytes, the range of the next one, and the bits
-- read so far.
pub record Pending : Type 0 where
  pub need : ℕ
  pub lo : ℕ
  pub hi : ℕ
  pub bits : ℕ

unfoldable pub lead : ℕ → Option Pending
lead b =
    if leb 0xc2 b && leb b 0xdf
    then some (record { need = 1; lo = 0x80; hi = 0xbf; bits = b % 32 })
    else if leb 0xe0 b && leb b 0xef
    then some (record {
      need = 2;
      lo = if leb b 0xe0 then 0xa0 else 0x80;
      hi = if leb 0xed b && leb b 0xed then 0x9f else 0xbf;
      bits = b % 16;
    })
    else if leb 0xf0 b && leb b 0xf4
    then some (record {
      need = 3;
      lo = if leb b 0xf0 then 0x90 else 0x80;
      hi = if leb 0xf4 b then 0x8f else 0xbf;
      bits = b % 8;
    })
    else none

abbrev pub start : Pending
start = record { need = 0; lo = 0x80; hi = 0xbf; bits = 0 }

-- One byte: the first of a character where nothing is needed, else the next one of it.
unfoldable pub advance : Pending → ℕ → Option Pending
unfolding lead
advance p b =
    if p.need == 0
    then if ltb b 0x80 then some (record start { bits = b }) else lead b
    else if leb p.lo b && leb b p.hi
    then some (record { need = p.need - 1; lo = 0x80; hi = 0xbf; bits = p.bits * 64 + b % 64 })
    else none

-- A character is complete where no more bytes are needed.
abbrev pub emit : Option Pending → Option (List ℕ) → Option (List ℕ)
emit none chars = none
emit (some p) chars = if p.need == 0 then Option.map (λ cs. p.bits ∷ cs) chars else chars

unfoldable pub decode : Option Pending → Bytes → Option (List ℕ)
unfolding advance
decode none bytes = none
decode (some p) [] = if p.need == 0 then some [] else none
decode (some p) (b ∷ rest) = let next = advance p b in emit next (decode next rest)

-- `from_utf8(bytes)?.to_string()`.
unfoldable pub from_utf8 : Bytes → Result Bytes
unfolding decode
from_utf8 bytes = elim (decode (some start) bytes) [ none ↦ err invalid_utf8 | some cs ↦ ok bytes ]

-- `s.chars()`; a text that was read is well-formed.
unfoldable pub chars : Bytes → List ℕ
unfolding decode
chars s = elim (decode (some start) s) [ none ↦ [] | some cs ↦ cs ]

pub from_utf8-eq-ok : (s r : Bytes) → from_utf8 s ≡ ok r → r ≡ s
unfolding from_utf8
from_utf8-eq-ok s r h = ground arith

-- A character in two bytes, an overlong form, a surrogate and a cut character.
chars_euro : chars (0x61 ∷ 0xe2 ∷ 0x82 ∷ 0xac ∷ 0xc3 ∷ 0xa9 ∷ []) ≡ 0x61 ∷ 0x20ac ∷ 0xe9 ∷ []
unfolding chars
chars_euro = refl

from_utf8_refusals :
    (from_utf8 (0xc0 ∷ 0x80 ∷ []) ≡ err invalid_utf8)
    × (from_utf8 (0xed ∷ 0xa0 ∷ 0x80 ∷ []) ≡ err invalid_utf8)
    × (from_utf8 (0xe2 ∷ 0x82 ∷ []) ≡ err invalid_utf8)
unfolding from_utf8
from_utf8_refusals = (refl, refl, refl)
