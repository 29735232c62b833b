-- ===== src/Client/Receive.antt =====
-- client/src/udp_handler.rs, `udp_listener_loop`: one round of the loop for one datagram. Time is an
-- argument, in milliseconds. `from_bytes` is the decoder of frames, `unlocked` says whether `try_lock`
-- gets the map of frames. A `BTreeMap` is a list of entries in the order of its keys.
mod State
pub mod Untouched
pub mod Others
pub mod Chunks
pub mod Expiry
pub mod Packet
pub mod Round
pub mod Frame
unfoldable pub use State.*
use facetime_v.Base.{
  Bool, Bytes, List, Map, Option, Result, [], as_u32, bytes_instance, drop, err, from_be_bytes,
  if◌then◌else◌, insert, leb, length, lookup, ltb, nat_instance, none, not, ok, remove, retain,
  some, take, ℕ, ◌++◌, ◌+◌, ◌-◌, ◌==◌, ◌>>=◌, ◌>>◌, ◌∷◌,
}
use facetime_v.Protocol.Names.{StreamId, id_len}
use facetime_v.Client.Send.{FrameType, full, delta, heartbeat}
use facetime_v.Client.Delta.{deserialize_deltas, apply_delta_safe}

-- The new frame that a delta makes of the one before, if it can be read and applied.
unfoldable pub patched : Bytes → Bytes → Result Bytes
patched base_frame frame_data = do
  deltas ← deserialize_deltas frame_data
  apply_delta_safe base_frame deltas

unfoldable pub patch_cache : ℕ → FrameCache → Result Bytes → Option Bytes × FrameCache
patch_cache sequence cache (ok new_frame) = (
  some new_frame,
  record cache { reconstructed_frame = some new_frame; last_sequence = sequence },
)
patch_cache sequence cache (err e) = (none, mark_corrupted cache)

unfoldable pub apply_to : ℕ → Bytes → FrameCache → Option Bytes → Option Bytes × FrameCache
apply_to sequence frame_data cache none = (none, mark_corrupted cache)
apply_to sequence frame_data cache (some base_frame) =
    patch_cache sequence cache (patched base_frame frame_data)

-- The match on the type of the frame that is complete.
unfoldable pub final_frame : FrameType → ℕ → Bytes → FrameCache → Option Bytes × FrameCache
final_frame full sequence frame_data cache = (some frame_data, reset frame_data sequence cache)
final_frame delta sequence frame_data cache =
    if cache.corrupted
    then (none, cache)
    else apply_to sequence frame_data cache cache.reconstructed_frame
final_frame heartbeat sequence frame_data cache = (none, cache)

-- `entry(sid).or_insert_with(FrameCache::new)`.
abbrev pub cache_of : Option FrameCache → FrameCache
cache_of none = new_cache
cache_of (some cache) = cache

-- The caches of the streams whose buffers have expired are marked.
unfoldable pub mark :
    StreamId → Option FrameCache → Map StreamId FrameCache → Map StreamId FrameCache
mark sid none caches = caches
mark sid (some cache) caches = insert sid (mark_corrupted cache) caches

abbrev pub is_expired : ℕ → FragmentBuffer → Bool
is_expired now fb = leb chunk_timeout (now - fb.last_update)

unfoldable pub mark_expired :
    ℕ → Map StreamId FragmentBuffer → Map StreamId FrameCache → Map StreamId FrameCache
mark_expired now [] caches = caches
mark_expired now ((sid, fb) ∷ m) caches =
    mark_expired now m (if is_expired now fb then mark sid (lookup sid caches) caches else caches)

-- `0`, `1` and `2`; any other byte is passed over.
unfoldable pub type_of_byte : ℕ → Option FrameType
type_of_byte b =
    if b == 0
    then some full
    else if b == 1
    then some delta
    else if b == 2
    then some heartbeat
    else none

-- `fragment_buffers.retain`.
unfoldable pub expire : {F : Type 0} → ℕ → Listener F → Listener F
expire now l = record l {
  fragment_buffers = retain (λ e. not (is_expired now e.1)) l.fragment_buffers;
  frame_caches = mark_expired now l.fragment_buffers l.frame_caches;
}

module _ {F : Type 0} (from_bytes : Bytes → Option F) (unlocked : Bool) where
  -- What is shown for the stream, if the bytes decode and the map is free.
  unfoldable pub show_frame :
      StreamId → Option Bytes → Map StreamId (Option F) → Map StreamId (Option F)
  show_frame sid none frames = frames
  show_frame sid (some final_data) frames = elim (from_bytes final_data) [
    | none ↦ frames
    | some frame ↦ if unlocked then insert sid (some frame) frames else frames
  ]

  -- All chunks are there.
  unfoldable pub complete : StreamId → ℕ → FragmentBuffer → Listener F → Listener F
  complete sid sequence entry l =
      let (buffer, pool) = get_buffer l.buffer_pool in
      let (shown, cache) =
        final_frame entry.frame_type sequence (buffer ++ assemble entry.chunks)
          (cache_of (lookup sid l.frame_caches)) in
      record {
        fragment_buffers = remove sid l.fragment_buffers;
        frame_caches = insert sid cache l.frame_caches;
        buffer_pool = return_buffer pool;
        sid_to_frame_map = show_frame sid shown l.sid_to_frame_map;
      }

  -- The packet that says that it is the last tells how many there are.
  unfoldable pub close : StreamId → ℕ → ℕ → Bool → FragmentBuffer → Listener F → Listener F
  close sid sequence id is_last entry l =
      let closed = record entry { expected_chunks = as_u32 (id + 1) } in
      if not is_last
      then record l { fragment_buffers = insert sid entry l.fragment_buffers }
      else if length closed.chunks == closed.expected_chunks
      then complete sid sequence closed l
      else record l { fragment_buffers = insert sid closed l.fragment_buffers }

  unfoldable pub receive_chunk :
      ℕ → StreamId → FrameType → ℕ → ℕ → Bool → Bytes → Listener F → Listener F
  receive_chunk now sid t sequence id is_last chunk l =
      close sid sequence id is_last
        (add_chunk now t sequence id chunk (lookup sid l.fragment_buffers)) l

  -- Behind the stream identifier: type, sequence number, number of the chunk, mark of the last, chunk.
  unfoldable pub receive_body : ℕ → StreamId → Bytes → Listener F → Listener F
  receive_body now sid (t ∷ a ∷ b ∷ c ∷ d ∷ e ∷ f ∷ g ∷ h ∷ mark_last ∷ chunk) l =
      elim (type_of_byte t) [
        | none ↦ l
        | some heartbeat ↦ l
        | some frame_type ↦ expire now (
            receive_chunk now sid frame_type (from_be_bytes a b c d) (from_be_bytes e f g h)
              (mark_last == 1) chunk l)
      ]
  receive_body now sid _ l = expire now l

  -- A datagram of at most 14 bytes is not looked at.
  unfoldable pub receive : ℕ → Bytes → Listener F → Listener F
  receive now buf l =
      if ltb (id_len + 10) (length buf)
      then receive_body now (take id_len buf) (drop id_len buf) l
      else expire now l

  -- The datagrams in the order and at the times in which they come.
  unfoldable pub receive_all : List (ℕ × Bytes) → Listener F → Listener F
  receive_all [] l = l
  receive_all ((now, buf) ∷ later) l = receive_all later (receive now buf l)
