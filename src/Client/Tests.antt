-- ===== src/Client/Tests.antt =====
-- The delta coding at small frames.
use facetime_v.Base.{
  Bytes, List, [], arith, length, ok, refl, replicate, some, ℕ, ◌++◌, ◌/◌, ◌>>=◌, ◌∷◌, ◌≡◌, ◌≢◌,
}
use facetime_v.Client.Frame.{Webp, Frame, to_bytes, from_bytes, from_bytes-to_bytes}
use facetime_v.Client.Delta.{
  refused, identical_count, diff_run, same_run, copy_chunk, copy_chunks, chunk_size, in_bounds,
  delta_loop, DeltaChunk, made, stuck, create_delta_optimized, serialize_deltas_optimized,
  deserialize_deltas, apply_delta_safe,
}
use facetime_v.Client.Delta.Chunks.{create-ne-stuck}
use facetime_v.Client.Delta.Bounds.{length-apply_delta_safe}
use facetime_v.Client.Delta.Codec.{deserialize-serialize, apply-create, frame_through_delta}

-- Two frames of 24 bytes that differ at the second byte and at the last; the 21 equal bytes between
-- are too many to be taken into one chunk.
abbrev before : Bytes
before = 1 ∷ 2 ∷ replicate 21 7 ++ (3 ∷ [])

abbrev after : Bytes
after = 1 ∷ 9 ∷ replicate 21 7 ++ (8 ∷ [])

abbrev changes : List DeltaChunk
changes = record { offset = 1; bytes = 9 ∷ [] } ∷ record { offset = 23; bytes = 8 ∷ [] } ∷ []

abbrev always_less : ℕ → ℕ
always_less n = n

create_changes : create_delta_optimized always_less before after ≡ made changes
unfolding create_delta_optimized delta_loop chunk_size same_run diff_run identical_count
create_changes = refl

-- With a third of 24 bytes as the limit the delta is given up.
create_refused : create_delta_optimized (λ n. n / 3) before after ≡ refused
unfolding create_delta_optimized delta_loop chunk_size same_run diff_run identical_count
create_refused = refl

apply_changes : apply_delta_safe before changes ≡ ok after
unfolding apply_delta_safe in_bounds copy_chunks copy_chunk
apply_changes = refl

create-ne-stuck_example : create_delta_optimized always_less before after ≢ stuck
create-ne-stuck_example = create-ne-stuck always_less before after

length-apply_delta_safe_example : length after ≡ length before
length-apply_delta_safe_example = length-apply_delta_safe before changes after apply_changes

deserialize-serialize_example :
    deserialize_deltas (serialize_deltas_optimized changes ++ (5 ∷ [])) ≡ ok changes
deserialize-serialize_example = deserialize-serialize changes (5 ∷ []) (ground arith) (omega arith)

apply-create_example : apply_delta_safe before changes ≡ ok after
apply-create_example = apply-create always_less before after changes (omega arith) create_changes

frame_through_delta_example :
    (deserialize_deltas (serialize_deltas_optimized changes) >>= apply_delta_safe before) ≡ ok after
frame_through_delta_example =
    frame_through_delta always_less before after changes (omega arith) create_changes

-- A coder that leaves pictures of two pixels as they are.
abbrev plain : Webp
plain = record { encode = λ pixels w h. pixels; decode = λ b. some (2, 1, b) }

abbrev picture : Frame
picture = record { width = 2; height = 1; pixels = 1 ∷ 2 ∷ 3 ∷ 4 ∷ 5 ∷ 6 ∷ [] }

abbrev picture_bytes : Bytes
picture_bytes = 2 ∷ 0 ∷ 0 ∷ 0 ∷ 1 ∷ 0 ∷ 0 ∷ 0 ∷ 6 ∷ 0 ∷ 0 ∷ 0 ∷ 1 ∷ 2 ∷ 3 ∷ 4 ∷ 5 ∷ 6 ∷ []

to_bytes-picture : to_bytes plain picture ≡ some picture_bytes
unfolding to_bytes
to_bytes-picture = refl

from_bytes-to_bytes_example : from_bytes plain (picture_bytes ++ (9 ∷ [])) ≡ ok picture
from_bytes-to_bytes_example =
    from_bytes-to_bytes plain picture picture_bytes (9 ∷ []) picture.pixels (omega arith)
      (omega arith) (omega arith) refl to_bytes-picture
