-- ===== src/Client/Delta/Bounds.antt =====
-- The chunks of a delta that was made lie inside the frame, and applying keeps the frame's length.
use facetime_v.Base.{
  All, Bool-cases, Bytes, IsU32, List, [], all, arith, drop, inl, inr, length, length-append,
  length-drop, length-take, ok, refl, suc, take, true, zero, ℕ, ◌++◌, ◌+◌, ◌∙◌, ◌∷◌, ◌≡◌, ◌≤◌,
}
use facetime_v.Client.Delta.{
  Pairs, news, same_run, chunk_size, made, delta_loop, DeltaChunk, copy_chunk, copy_chunks,
  in_bounds, apply_delta_safe,
}
use facetime_v.Client.Delta.Chunks.{same_run-le, chunk_size-le, delta_loop-made}

abbrev pub Inside : ℕ → DeltaChunk → Type 0
Inside len d = d.offset + length d.bytes ≤ len

pub length-taken : (n : ℕ) (p : Pairs) → length (take n (news p)) ≤ n
length-taken zero p = omega arith
length-taken (suc n) [] = omega arith
length-taken (suc n) ((a, b) ∷ p) = omega (arith, length-taken n p)

pub delta_loop-bounds :
    (fuel t i : ℕ) (p : Pairs) (total len : ℕ) (ds : List DeltaChunk)
    → i + length p ≤ len
    → IsU32 len
    → delta_loop fuel t i p total ≡ made ds
    → All (Inside len) ds × (length ds ≤ length p)
delta_loop-bounds zero t i p total len ds hi fits h = unfold delta_loop in cc
delta_loop-bounds (suc fuel) t i p total len ds hi fits h =
    elim (delta_loop-made fuel t i p total ds h) [
      | inl (_, e) ↦ rw e (tt, omega arith)
      | inr (rest, e, pos, h') ↦
          let s = same_run p in
          let c = drop s p in
          let n = chunk_size c in
          let below : i + s + n + length (drop n c) ≤ len =
            omega
              (arith, length-drop {0} s p, length-drop {0} n c, chunk_size-le c, same_run-le p) in
          let (inside, count) =
            delta_loop-bounds fuel t (i + s + n) (drop n c) _ len rest below fits h' in
          rw e (
            (omega (arith, length-taken n c, same_run-le p), inside),
            omega (
              arith,
              count,
              pos,
              length-drop {0} s p,
              length-drop {0} n c,
              chunk_size-le c,
              same_run-le p,
            ),
          )
    ]

pub Inside→in_bounds :
    (len : ℕ) (ds : List DeltaChunk) → All (Inside len) ds → all (in_bounds len) ds ≡ true
unfolding in_bounds
Inside→in_bounds len [] h = refl
Inside→in_bounds len (d ∷ ds) h = ground (arith, h.0, Inside→in_bounds len ds h.1)

length-copy_chunk :
    (d : DeltaChunk) (base : Bytes)
    → Inside (length base) d
    → length (copy_chunk d base) ≡ length base
unfolding copy_chunk
length-copy_chunk d base h = omega (
  arith,
  length-append (take d.offset base) (d.bytes ++ drop (d.offset + length d.bytes) base),
  length-append d.bytes (drop (d.offset + length d.bytes) base),
  length-take {0} d.offset base,
  length-drop {0} (d.offset + length d.bytes) base,
)

length-copy_chunks :
    (ds : List DeltaChunk) (base : Bytes)
    → all (in_bounds (length base)) ds ≡ true
    → length (copy_chunks ds base) ≡ length base
unfolding copy_chunks in_bounds
length-copy_chunks [] base h = refl
length-copy_chunks (d ∷ ds) base h =
    let same_length = length-copy_chunk d base (ground arith) in
    length-copy_chunks ds (copy_chunk d base) (rw same_length (ground arith)) ∙ same_length

-- Applying any chunks, from wherever they come, either fails or gives a frame of the same length.
pub length-apply_delta_safe :
    (base : Bytes) (ds : List DeltaChunk) (r : Bytes)
    → apply_delta_safe base ds ≡ ok r
    → length r ≡ length base
unfolding apply_delta_safe
length-apply_delta_safe base ds r h = elim (Bool-cases (all (in_bounds (length base)) ds)) [
  | inl fine ↦
      let e : copy_chunks ds base ≡ r = cc (rw fine at h) in
      rw (← e) (length-copy_chunks ds base fine)
  | inr bad ↦ cc (rw bad at h)
]
