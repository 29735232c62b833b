-- ===== src/Client/Commands/Words.antt =====
-- pre_call_interface.rs: proofs about the lines that are commands with a name.
use facetime_v.Base.{
  ==_iff, All, Bool-cases, Bytes, List, [], ap, arith, inl, inr, map, refl, sym, text, ℕ, ◌++◌,
  ◌==◌, ◌∙◌, ◌∷◌, ◌≡◌, ◌≢◌,
}
use facetime_v.Client.Commands.Typed.{
  Typed, create, delete, join, switch, lower, to_lowercase, split, choose_arm, typed,
}

-- A part of a line.
abbrev pub NoSpace : Bytes → Type 0
NoSpace s = All (λ (b : ℕ). b ≢ 32) s

lower-space : (b : ℕ) → (lower b == 32) ≡ (b == 32)
lower-space b = ground arith

lower-append : (s t : Bytes) → to_lowercase (s ++ t) ≡ to_lowercase s ++ to_lowercase t
lower-append [] t = refl
lower-append (b ∷ s) t = ap (λ (r : Bytes). lower b ∷ r) (lower-append s t)

-- A line has a first part.
record Parts (s : Bytes) : Type 0 where
  first : Bytes
  others : List Bytes
  parts : split s ≡ first ∷ others

split-Parts : (s : Bytes) → Parts s
unfolding split
split-Parts [] = record { first = []; others = []; parts = refl }
split-Parts (b ∷ s) = elim (Bool-cases (b == 32)) [
  | inl e ↦ record { first = []; others = split s; parts = rw e refl }
  | inr e ↦
      let p = split-Parts s in
      record { first = b ∷ p.first; others = p.others; parts = rw (e, p.parts) refl }
]

-- Cutting at a space.
split-space : (s t : Bytes) → split (s ++ 32 ∷ t) ≡ split s ++ split t
unfolding split
split-space [] t = refl
split-space (b ∷ s) t = elim (Bool-cases (b == 32)) [
  | inl e ↦ rw (e, split-space s t) refl
  | inr e ↦ let p = split-Parts s in rw (e, split-space s t, p.parts) refl
]

split-NoSpace : (s : Bytes) → NoSpace s → split s ≡ s ∷ []
unfolding split
split-NoSpace [] h = refl
split-NoSpace (b ∷ s) h = elim (Bool-cases (b == 32)) [
  | inl e ↦ absurd (h.0 ((==_iff b 32).0 e))
  | inr e ↦ rw (e, split-NoSpace s h.1) refl
]

split-lower : (s : Bytes) → split (to_lowercase s) ≡ map to_lowercase (split s)
unfolding split
split-lower [] = refl
split-lower (b ∷ s) = elim (Bool-cases (b == 32)) [
  | inl e ↦ rw (lower-space b, e, split-lower s) refl
  | inr e ↦ let p = split-Parts s in rw (lower-space b, e, split-lower s, p.parts) refl
]

-- The commands that take a name.
pub data Verb : Type 0 where
  create_verb delete_verb join_verb switch_verb : Verb

abbrev pub words : Verb → Bytes
words create_verb = text "create room"
words delete_verb = text "delete room"
words join_verb = text "join room"
words switch_verb = text "switch camera"

abbrev pub arm : Verb → Bytes → Typed
arm create_verb = create
arm delete_verb = delete
arm join_verb = join
arm switch_verb = switch

two_parts :
    (ps : List Bytes) (a b : Bytes)
    → map to_lowercase ps ≡ a ∷ b ∷ []
    → (x : Bytes) × (y : Bytes) × (ps ≡ x ∷ y ∷ [])
two_parts [] a b h = cc
two_parts (x ∷ []) a b h = cc
two_parts (x ∷ y ∷ []) a b h = (x, y, refl)
two_parts (x ∷ y ∷ z ∷ ps) a b h = cc

-- A line of the words of a command in any case, then one space, then a name in which there is no
-- space, is that command with exactly that name, in the case in which it is written.
pub typed-words :
    (v : Verb) (head name : Bytes)
    → to_lowercase head ≡ words v
    → NoSpace name
    → typed (head ++ 32 ∷ name) ≡ arm v name
unfolding typed choose_arm
typed-words create_verb head name e h =
    let (x, y, p) =
      two_parts (split head) (text "create") (text "room")
        (sym (split-lower head) ∙ ap split e ∙ (unfold split in refl)) in
    rw (lower-append head (32 ∷ name), e, split-space head name, p, split-NoSpace name h) refl
typed-words delete_verb head name e h =
    let (x, y, p) =
      two_parts (split head) (text "delete") (text "room")
        (sym (split-lower head) ∙ ap split e ∙ (unfold split in refl)) in
    rw (lower-append head (32 ∷ name), e, split-space head name, p, split-NoSpace name h) refl
typed-words join_verb head name e h =
    let (x, y, p) =
      two_parts (split head) (text "join") (text "room")
        (sym (split-lower head) ∙ ap split e ∙ (unfold split in refl)) in
    rw (lower-append head (32 ∷ name), e, split-space head name, p, split-NoSpace name h) refl
typed-words switch_verb head name e h =
    let (x, y, p) =
      two_parts (split head) (text "switch") (text "camera")
        (sym (split-lower head) ∙ ap split e ∙ (unfold split in refl)) in
    rw (lower-append head (32 ∷ name), e, split-space head name, p, split-NoSpace name h) refl
