-- ===== src/Client/Send/Chunks.antt =====
-- Cutting the bytes of a frame into chunks loses nothing.
use facetime_v.Base.{
  All, Bytes, List, [], ap, arith, drop, length, length-drop, refl, suc, take-append-drop, zero, ℕ,
  ◌++◌, ◌∷◌, ◌≡◌, ◌≤◌,
}
use facetime_v.Client.Send.{chunks_of}

abbrev pub concat : List Bytes → Bytes
concat [] = []
concat (c ∷ cs) = c ++ concat cs

-- What holds of the chunks of some data.
pub record Cut (content : Bytes) (chunks : List Bytes) : Type 0 where
  pub whole : concat chunks ≡ content
  pub filled : All (λ (c : Bytes). 1 ≤ length c) chunks
  pub few : length chunks ≤ length content
  pub some_chunk : 1 ≤ length content → 1 ≤ length chunks

pub chunks_of-Cut :
    (fuel n : ℕ) (content : Bytes)
    → length content ≤ fuel
    → Cut content (chunks_of fuel (suc n) content)
unfolding chunks_of
chunks_of-Cut zero n [] h = record {
  whole = refl;
  filled = tt;
  few = omega arith;
  some_chunk = λ p. p;
}
chunks_of-Cut zero n (b ∷ content) h = absurd (omega arith)
chunks_of-Cut (suc fuel) n [] h = record {
  whole = refl;
  filled = tt;
  few = omega arith;
  some_chunk = λ p. p;
}
chunks_of-Cut (suc fuel) n (b ∷ content) h =
    let later = chunks_of-Cut fuel n (drop n content) (omega (arith, length-drop {0} n content)) in
    record {
      whole = rw later.whole (ap (λ (r : Bytes). b ∷ r) (take-append-drop n content));
      filled = (omega arith, later.filled);
      few = omega (arith, later.few, length-drop {0} n content);
      some_chunk = λ p. omega arith;
    }
