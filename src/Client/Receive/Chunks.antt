-- ===== src/Client/Receive/Chunks.antt =====
-- The chunks of a frame in the buffer of its stream: numbered from 0 on, and put together in order.
use facetime_v.Base.{Bytes, List, Map, [], ap, arith, length, refl, ℕ, ◌++◌, ◌+◌, ◌∷◌, ◌≡◌}
use facetime_v.Client.Receive.{insert_chunk, assemble}
use facetime_v.Client.Send.Chunks.{concat}

abbrev pub numbered : ℕ → List Bytes → Map ℕ Bytes
numbered i [] = []
numbered i (c ∷ cs) = (i, c) ∷ numbered (i + 1) cs

pub length-numbered : (i : ℕ) (cs : List Bytes) → length (numbered i cs) ≡ length cs
length-numbered i [] = refl
length-numbered i (c ∷ cs) = omega (arith, length-numbered (i + 1) cs)

pub insert_chunk-numbered :
    (i id : ℕ) (cs : List Bytes) (c : Bytes)
    → id ≡ i + length cs
    → insert_chunk id c (numbered i cs) ≡ numbered i (cs ++ c ∷ [])
unfolding insert_chunk
insert_chunk-numbered i id [] c h = ground (arith, h)
insert_chunk-numbered i id (d ∷ cs) c h =
    ground (arith, h, insert_chunk-numbered (i + 1) id cs c (omega arith))

pub assemble-numbered : (i : ℕ) (cs : List Bytes) → assemble (numbered i cs) ≡ concat cs
unfolding assemble
assemble-numbered i [] = refl
assemble-numbered i (c ∷ cs) = ap (λ (r : Bytes). c ++ r) (assemble-numbered (i + 1) cs)
