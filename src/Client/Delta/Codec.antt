-- ===== src/Client/Delta/Codec.antt =====
-- Deltas as bytes: what `deserialize_deltas` makes of what `serialize_deltas_optimized` wrote, and
-- the whole way of a frame through a delta.
use facetime_v.Base.{
  ==_iff, All, Bool-cases, Bytes, IsU32, List, [], ap, append-nil, append_assoc, arith, as_u32,
  drop-append, from_be_bytes-to_be_bytes, inl, inr, length, length-append, ok, refl, suc,
  take-append, to_be_bytes, ℕ, ◌++◌, ◌==◌, ◌>>=◌, ◌∷◌, ◌≡◌, ◌≤◌,
}
use facetime_v.Client.Delta.{
  pair_up, olds, news, made, delta_loop, create_delta_optimized, DeltaChunk, apply_delta_safe,
  read_chunk, deserialize_chunks, deserialize_deltas, serialize_chunks, serialize_deltas_optimized,
}
use facetime_v.Client.Delta.Bounds.{Inside, delta_loop-bounds, Inside→in_bounds}
use facetime_v.Client.Delta.Apply.{delta_loop-copies}

-- The words that describe the chunk fit 32 bits.
abbrev pub HasWords : DeltaChunk → Type 0
HasWords d = IsU32 d.offset × IsU32 (length d.bytes)

read_chunk-append :
    (d : DeltaChunk) (rest : Bytes)
    → read_chunk d.offset (length d.bytes) (d.bytes ++ rest) ≡ ok (d, rest)
unfolding read_chunk
read_chunk-append d rest =
    ground (arith, length-append d.bytes rest, take-append d.bytes rest, drop-append d.bytes rest)

as_u32_id : (n : ℕ) → IsU32 n → as_u32 n ≡ n
as_u32_id n h = omega arith

deserialize-serialize_chunks :
    (ds : List DeltaChunk) (rest : Bytes)
    → All HasWords ds
    → deserialize_chunks (length ds) (serialize_chunks ds ++ rest) ≡ ok ds
unfolding deserialize_chunks serialize_chunks to_be_bytes
deserialize-serialize_chunks [] rest h = refl
deserialize-serialize_chunks (d ∷ ds) rest h =
    rw
      (
        as_u32_id (length d.bytes) h.0.1,
        from_be_bytes-to_be_bytes d.offset h.0.0,
        from_be_bytes-to_be_bytes (length d.bytes) h.0.1,
        append_assoc d.bytes (serialize_chunks ds) rest,
        read_chunk-append d (serialize_chunks ds ++ rest),
      )
      (rw (deserialize-serialize_chunks ds rest h.1) refl)

-- Chunks whose offsets, lengths and number fit 32 bits are read back as they were written, whatever
-- follows them.
pub deserialize-serialize :
    (ds : List DeltaChunk) (rest : Bytes)
    → All HasWords ds
    → IsU32 (length ds)
    → deserialize_deltas (serialize_deltas_optimized ds ++ rest) ≡ ok ds
unfolding deserialize_deltas serialize_deltas_optimized to_be_bytes
deserialize-serialize ds rest h n =
    rw (as_u32_id (length ds) n, from_be_bytes-to_be_bytes (length ds) n)
      (deserialize-serialize_chunks ds rest h)

olds-pair_up :
    (xs ys : Bytes)
    → length xs ≡ length ys
    → (olds (pair_up xs ys) ≡ xs) × (news (pair_up xs ys) ≡ ys)
olds-pair_up [] [] h = (refl, refl)
olds-pair_up [] (y ∷ ys) h = absurd (omega arith)
olds-pair_up (x ∷ xs) [] h = absurd (omega arith)
olds-pair_up (x ∷ xs) (y ∷ ys) h = ground (arith, olds-pair_up xs ys (omega arith))

length-pair_up_le : (xs ys : Bytes) → length (pair_up xs ys) ≤ length ys
length-pair_up_le [] ys = omega arith
length-pair_up_le (x ∷ xs) [] = omega arith
length-pair_up_le (x ∷ xs) (y ∷ ys) = omega (arith, length-pair_up_le xs ys)

-- What a delta that was made says of its two frames.
pub record Made (threshold : ℕ) (old_frame new_frame : Bytes) (ds : List DeltaChunk) : Type 0 where
  pub same_length : length old_frame ≡ length new_frame
  pub loop_made :
      delta_loop (suc (length new_frame)) threshold 0 (pair_up old_frame new_frame) 0 ≡ made ds

pub create-Made :
    (threshold : ℕ → ℕ) (old_frame new_frame : Bytes) (ds : List DeltaChunk)
    → create_delta_optimized threshold old_frame new_frame ≡ made ds
    → Made (threshold (length new_frame)) old_frame new_frame ds
unfolding create_delta_optimized
create-Made threshold old_frame new_frame ds h =
    elim (Bool-cases (length old_frame == length new_frame)) [
      | inl same_len ↦ record {
        same_length = (==_iff _ _).0 same_len;
        loop_made = rw same_len at h;
      }
      | inr differ ↦ cc (rw differ at h)
    ]

Inside→HasWords :
    (len : ℕ) (ds : List DeltaChunk) → IsU32 len → All (Inside len) ds → All HasWords ds
Inside→HasWords len [] fits h = tt
Inside→HasWords len (d ∷ ds) fits h = ((omega arith, omega arith), Inside→HasWords len ds fits h.1)

module _ (threshold : ℕ → ℕ) (old_frame new_frame : Bytes) (ds : List DeltaChunk)
    (fits : IsU32 (length new_frame))
    (h : create_delta_optimized threshold old_frame new_frame ≡ made ds) where
  create-bounds : All (Inside (length new_frame)) ds × (length ds ≤ length new_frame)
  create-bounds =
      let m = create-Made threshold old_frame new_frame ds h in
      let (inside, count) =
        delta_loop-bounds _ _ 0 (pair_up old_frame new_frame) 0 (length new_frame) ds
          (omega (arith, length-pair_up_le old_frame new_frame)) fits m.loop_made in
      (inside, omega (arith, count, length-pair_up_le old_frame new_frame))

  -- A delta that was made from two frames below 4 GiB takes the first to the second.
  pub apply-create : apply_delta_safe old_frame ds ≡ ok new_frame
  unfolding apply_delta_safe
  apply-create =
      let m = create-Made threshold old_frame new_frame ds h in
      let (same_old, same_new) = olds-pair_up old_frame new_frame m.same_length in
      let copied =
        delta_loop-copies _ _ 0 (pair_up old_frame new_frame) 0 ds [] refl
          (omega (arith, length-pair_up_le old_frame new_frame)) m.loop_made in
      rw (m.same_length, Inside→in_bounds (length new_frame) ds create-bounds.0)
        (ap ok (rw (same_old, same_new) at copied))

  -- A delta that was made from two frames below 4 GiB, written to bytes and read back, applies to the
  -- first frame without an error and gives the second.
  pub frame_through_delta :
      (deserialize_deltas (serialize_deltas_optimized ds) >>= apply_delta_safe old_frame)
      ≡ ok new_frame
  frame_through_delta =
      let (inside, count) = create-bounds in
      let back =
        deserialize-serialize ds [] (Inside→HasWords (length new_frame) ds fits inside)
          (omega arith) in
      rw (rw append-nil at back) apply-create
