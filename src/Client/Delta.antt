-- ===== src/Client/Delta.antt =====
-- client/src/udp_handler.rs: frames as differences from the frame before. The loops of
-- `create_delta_optimized` walk one index up both frames; here they walk up the list of the pairs
-- `(old_frame[i], new_frame[i])` that are still ahead. The size at which a delta is given up,
-- `(len as f32 * DELTA_THRESHOLD) as usize`, is a function of the length that the caller supplies,
-- since there are no floats.
pub mod Chunks
pub mod Bounds
pub mod Apply
pub mod Codec
pub mod Size
use facetime_v.Base.{
  Bool, Bytes, List, Result, [], all, as_u32, delta_out_of_bounds, drop, err, from_be_bytes,
  if◌then◌else◌, invalid_delta_data, invalid_delta_format, invalid_delta_length, is_empty, leb,
  length, ltb, min, not, ok, suc, take, to_be_bytes, zero, ℕ, ◌++◌, ◌+◌, ◌/◌, ◌==◌, ◌>>=◌, ◌>>◌,
  ◌∷◌,
}

abbrev pub min_block_size : ℕ
min_block_size = 64

pub record DeltaChunk : Type 0 where
  pub offset : ℕ
  pub bytes : Bytes

abbrev pub Pairs : Type 0
Pairs = List (ℕ × ℕ)

abbrev pub pair_up : Bytes → Bytes → Pairs
pair_up [] ys = []
pair_up (x ∷ xs) [] = []
pair_up (x ∷ xs) (y ∷ ys) = (x, y) ∷ pair_up xs ys

abbrev pub olds : Pairs → Bytes
olds [] = []
olds ((a, b) ∷ p) = a ∷ olds p

abbrev pub news : Pairs → Bytes
news [] = []
news ((a, b) ∷ p) = b ∷ news p

-- How far `while i < len && old_frame[i] == new_frame[i]` goes.
unfoldable pub same_run : Pairs → ℕ
same_run [] = 0
same_run ((a, b) ∷ p) = if a == b then suc (same_run p) else 0

-- How far `while i < len && old_frame[i] != new_frame[i]` goes.
unfoldable pub diff_run : Pairs → ℕ
diff_run [] = 0
diff_run ((a, b) ∷ p) = if a == b then 0 else suc (diff_run p)

-- `identical_count`: the equal bytes within the lookahead.
unfoldable pub identical_count : Pairs → ℕ
identical_count p = same_run (take (min min_block_size (length p)) p)

-- The length of the chunk that starts where the frames differ: a short equal stretch is taken in,
-- with the differing bytes behind it.
unfoldable pub chunk_size : Pairs → ℕ
chunk_size p =
    let d = diff_run p in
    let ahead = drop d p in
    let k = identical_count ahead in
    if ltb k (min_block_size / 4) then d + k + diff_run (drop k ahead) else d

-- `made` and `refused` are the source's `Some` and `None`; `stuck` is no result of the source: the
-- loop ran out of fuel.
pub data Created : Type 0 where
  made : List DeltaChunk → Created
  refused stuck : Created

abbrev pub push_front : DeltaChunk → Created → Created
push_front c (made deltas) = made (c ∷ deltas)
push_front c refused = refused
push_front c stuck = stuck

-- The outer loop at index `i`, with `total_delta_size` so far.
unfoldable pub delta_loop : ℕ → ℕ → ℕ → Pairs → ℕ → Created
delta_loop zero threshold_size i ahead total = stuck
delta_loop (suc fuel) threshold_size i ahead total =
    let start = i + same_run ahead in
    let changed = drop (same_run ahead) ahead in
    let n = chunk_size changed in
    let total' = total + (n + 8) in
    let rest = delta_loop fuel threshold_size (start + n) (drop n changed) total' in
    if is_empty changed
    then made []
    else if leb threshold_size total'
    then refused
    else push_front (record { offset = as_u32 start; bytes = take n (news changed) }) rest

-- Each round but the last takes a byte at least, so one more round than bytes is enough.
unfoldable pub create_delta_optimized : (ℕ → ℕ) → Bytes → Bytes → Created
create_delta_optimized threshold old_frame new_frame =
    if not (length old_frame == length new_frame)
    then refused
    else delta_loop (suc (length new_frame)) (threshold (length new_frame)) 0
        (pair_up old_frame new_frame) 0

unfoldable pub serialize_chunks : List DeltaChunk → Bytes
serialize_chunks [] = []
serialize_chunks (delta ∷ deltas) =
    to_be_bytes delta.offset
    ++ (to_be_bytes (as_u32 (length delta.bytes)) ++ (delta.bytes ++ serialize_chunks deltas))

unfoldable pub serialize_deltas_optimized : List DeltaChunk → Bytes
serialize_deltas_optimized deltas = to_be_bytes (as_u32 (length deltas)) ++ serialize_chunks deltas

-- The bytes behind the two words of a chunk: its contents, if they are all there.
unfoldable pub read_chunk : ℕ → ℕ → Bytes → Result (DeltaChunk × Bytes)
read_chunk offset len rest =
    if leb len (length rest)
    then ok (record { offset = offset; bytes = take len rest }, drop len rest)
    else err invalid_delta_length

-- `for _ in 0..count`, over the bytes from `pos` on.
unfoldable pub deserialize_chunks : ℕ → Bytes → Result (List DeltaChunk)
deserialize_chunks zero ahead = ok []
deserialize_chunks (suc n) (a ∷ b ∷ c ∷ d ∷ e ∷ f ∷ g ∷ h ∷ rest) = do
  (delta, rest') ← read_chunk (from_be_bytes a b c d) (from_be_bytes e f g h) rest
  deltas ← deserialize_chunks n rest'
  ok (delta ∷ deltas)
deserialize_chunks (suc n) _ = err invalid_delta_format

unfoldable pub deserialize_deltas : Bytes → Result (List DeltaChunk)
deserialize_deltas (a ∷ b ∷ c ∷ d ∷ ahead) = deserialize_chunks (from_be_bytes a b c d) ahead
deserialize_deltas _ = err invalid_delta_data

unfoldable pub in_bounds : ℕ → DeltaChunk → Bool
in_bounds len delta = leb (delta.offset + length delta.bytes) len

-- `base_frame[start..end].copy_from_slice(&delta.data)`.
unfoldable pub copy_chunk : DeltaChunk → Bytes → Bytes
copy_chunk delta base =
    take delta.offset base ++ (delta.bytes ++ drop (delta.offset + length delta.bytes) base)

unfoldable pub copy_chunks : List DeltaChunk → Bytes → Bytes
copy_chunks [] base = base
copy_chunks (delta ∷ deltas) base = copy_chunks deltas (copy_chunk delta base)

unfoldable pub apply_delta_safe : Bytes → List DeltaChunk → Result Bytes
apply_delta_safe base_frame deltas =
    if all (in_bounds (length base_frame)) deltas
    then ok (copy_chunks deltas base_frame)
    else err delta_out_of_bounds
