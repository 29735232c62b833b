-- ===== src/Protocol/Texts.antt =====
-- core::str: a text that is put together from two texts has the characters of both.
use facetime_v.Base.{
  Bytes, List, Option, Option-cases, [], ap, arith, inl, inr, none, refl, some, ℕ, ◌++◌, ◌∙◌, ◌∷◌,
  ◌≡◌,
}
use mathlib.Core.Option
use facetime_v.Protocol.Utf8.{Pending, start, advance, emit, decode, from_utf8, chars}
use facetime_v.Protocol.RoundTrip.{IsText}

advance_complete : (p : Pending) (b : ℕ) → p.need ≡ 0 → advance p b ≡ advance start b
unfolding advance
advance_complete p b h = rw h refl

decode_complete :
    (p : Pending) (ys : Bytes) → p.need ≡ 0 → decode (some p) ys ≡ decode (some start) ys
unfolding decode
decode_complete p [] h = rw h refl
decode_complete p (b ∷ ys) h = rw (advance_complete p b h) refl

map-nil : (o : Option (List ℕ)) → o ≡ Option.map (λ ds. [] ++ ds) o
map-nil none = refl
map-nil (some cs) = refl

decode-nil : (p : Pending) (cs : List ℕ) → decode (some p) [] ≡ some cs → (p.need ≡ 0) × (cs ≡ [])
unfolding decode
decode-nil p cs h = ground arith

-- What `emit` adds stands in front.
emit-append :
    (o : Option Pending) (first second : Option (List ℕ)) (cs : List ℕ) (rest : Option (List ℕ))
    → emit o first ≡ some cs
    → ((ds : List ℕ) → first ≡ some ds → second ≡ Option.map (λ es. ds ++ es) rest)
    → emit o second ≡ Option.map (λ es. cs ++ es) rest
emit-append none first second cs rest h each = ground arith
emit-append (some p) none second cs rest h each = ground arith
emit-append (some p) (some ds) second cs none h each = rw (each ds refl) (ground arith)
emit-append (some p) (some ds) second cs (some es) h each = rw (each ds refl) (ground arith)

decode-append :
    (o : Option Pending) (xs ys : Bytes) (cs : List ℕ)
    → decode o xs ≡ some cs
    → decode o (xs ++ ys) ≡ Option.map (λ es. cs ++ es) (decode (some start) ys)
unfolding decode
decode-append none xs ys cs h = ground arith
decode-append (some p) [] ys cs h =
    let (hp, hc) = decode-nil p cs h in
    rw (hc, decode_complete p ys hp) (map-nil (decode (some start) ys))
decode-append (some p) (b ∷ xs) ys cs h =
    emit-append (advance p b) (decode (advance p b) xs) (decode (advance p b) (xs ++ ys)) cs
      (decode (some start) ys) h (λ ds e. decode-append (advance p b) xs ys ds e)

-- A text has characters.
pub IsText-decode : (s : Bytes) → IsText s → decode (some start) s ≡ some (chars s)
unfolding from_utf8 chars
IsText-decode s h = elim (Option-cases (decode (some start) s)) [
  | inl e ↦ ground (arith, e)
  | inr (cs, e) ↦ rw (chars, e) refl
]

decode-IsText : (s : Bytes) (cs : List ℕ) → decode (some start) s ≡ some cs → IsText s
unfolding from_utf8
decode-IsText s cs h = rw (from_utf8, h) refl

decode-append_text :
    (s t : Bytes) → IsText s → IsText t → decode (some start) (s ++ t) ≡ some (chars s ++ chars t)
decode-append_text s t hs ht =
    decode-append (some start) s t (chars s) (IsText-decode s hs)
    ∙ ap (λ (o : Option (List ℕ)). Option.map (λ es. chars s ++ es) o) (IsText-decode t ht)

pub append-IsText : (s t : Bytes) → IsText s → IsText t → IsText (s ++ t)
append-IsText s t hs ht = decode-IsText (s ++ t) (chars s ++ chars t) (decode-append_text s t hs ht)

pub chars-append : (s t : Bytes) → IsText s → IsText t → chars (s ++ t) ≡ chars s ++ chars t
unfolding chars
chars-append s t hs ht = rw (chars, decode-append_text s t hs ht) refl
