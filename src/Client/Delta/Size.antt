-- ===== src/Client/Delta/Size.antt =====
-- A delta that is not given up takes fewer bytes than the limit, but for the word in front.
use facetime_v.Base.{
  Bool-cases, Bytes, List, [], ap, arith, drop, false, inl, inr, is_empty, leb, length,
  length-append, refl, suc, to_be_bytes, zero, ℕ, ◌+◌, ◌<◌, ◌∙◌, ◌∷◌, ◌≡◌, ◌≤◌,
}
use facetime_v.Client.Delta.{
  DeltaChunk, Pairs, made, same_run, chunk_size, delta_loop, serialize_chunks,
  create_delta_optimized, serialize_deltas_optimized,
}
use facetime_v.Client.Delta.Chunks.{push_front-made}
use facetime_v.Client.Delta.Bounds.{length-taken}
use facetime_v.Client.Delta.Codec.{create-Made}

length-serialize_chunks :
    (d : DeltaChunk) (ds : List DeltaChunk)
    → length (serialize_chunks (d ∷ ds)) ≡ 8 + (length d.bytes + length (serialize_chunks ds))
unfolding serialize_chunks to_be_bytes
length-serialize_chunks d ds = omega (arith, length-append d.bytes (serialize_chunks ds))

no_chunks : length (serialize_chunks []) ≡ 0
unfolding serialize_chunks
no_chunks = refl

-- A first chunk below the limit, with later chunks that stay below it.
with_later :
    (t total n : ℕ) (c : DeltaChunk) (rest : List DeltaChunk)
    → length c.bytes ≤ n
    → leb t (total + (n + 8)) ≡ false
    → ((d : DeltaChunk) (ds : List DeltaChunk)
        → rest ≡ d ∷ ds
        → total + (n + 8) + length (serialize_chunks (d ∷ ds)) < t)
    → total + length (serialize_chunks (c ∷ rest)) < t
with_later t total n c [] short small later =
    ground (arith, length-serialize_chunks c [], no_chunks, small, short)
with_later t total n c (d ∷ ds) short small later =
    omega (arith, length-serialize_chunks c (d ∷ ds), short, later d ds refl)

delta_loop-size :
    (fuel t i : ℕ) (p : Pairs) (total : ℕ) (d : DeltaChunk) (ds : List DeltaChunk)
    → delta_loop fuel t i p total ≡ made (d ∷ ds)
    → total + length (serialize_chunks (d ∷ ds)) < t
unfolding delta_loop
delta_loop-size zero t i p total d ds h = cc
delta_loop-size (suc fuel) t i p total d ds h =
    let changed = drop (same_run p) p in
    elim (Bool-cases (is_empty changed)) [
      | inl done ↦ cc (rw done at h)
      | inr more ↦ elim (Bool-cases (leb t (total + (chunk_size changed + 8)))) [
        | inl big ↦ cc (rw big at (rw more at h))
        | inr small ↦
            let (rest, e, e') = push_front-made _ _ (d ∷ ds) (rw small at (rw more at h)) in
            rw e (
              with_later t total (chunk_size changed) _ rest (length-taken _ changed) small
                λ d' ds' same_rest. delta_loop-size fuel t _ _ _ d' ds' (e' ∙ ap made same_rest))
      ]
    ]

-- What is sent for a delta is shorter than the limit and the word for the number of chunks.
pub length-serialize_deltas :
    (threshold : ℕ → ℕ) (old_frame new_frame : Bytes) (d : DeltaChunk) (ds : List DeltaChunk)
    → create_delta_optimized threshold old_frame new_frame ≡ made (d ∷ ds)
    → length (serialize_deltas_optimized (d ∷ ds)) < threshold (length new_frame) + 4
unfolding serialize_deltas_optimized to_be_bytes
length-serialize_deltas threshold old_frame new_frame d ds h =
    let m = create-Made threshold old_frame new_frame (d ∷ ds) h in
    omega (arith, delta_loop-size _ _ _ _ _ d ds m.loop_made)

pub length-serialize_deltas_positive :
    (ds : List DeltaChunk) → 1 ≤ length (serialize_deltas_optimized ds)
unfolding serialize_deltas_optimized to_be_bytes
length-serialize_deltas_positive ds = omega arith
