-- ===== src/Client/Visible/Lines.antt =====
-- str::lines: the lines of a text that has a line feed after each line.
use facetime_v.Base.{All, Bytes, List, [], ap, arith, refl, ℕ, ◌++◌, ◌∷◌, ◌≡◌, ◌≢◌}
use facetime_v.Client.Visible.{unlines, lines}

-- No line feed and no carriage return.
abbrev pub IsLine : Bytes → Type 0
IsLine line = All (λ (b : ℕ). (b ≢ 10) × (b ≢ 13)) line

lines-cons : (line rest : Bytes) → IsLine line → lines (line ++ 10 ∷ rest) ≡ line ∷ lines rest
unfolding lines
lines-cons [] rest h = refl
lines-cons (b ∷ line) rest h = let e = lines-cons line rest h.1 in ground (arith, e, h.0.0, h.0.1)

pub lines-unlines : (ls : List Bytes) → All IsLine ls → lines (unlines ls) ≡ ls
unfolding unlines lines
lines-unlines [] h = refl
lines-unlines (line ∷ rest) h =
    rw (lines-cons line (unlines rest) h.0)
      (ap (λ (ls : List Bytes). line ∷ ls) (lines-unlines rest h.1))
