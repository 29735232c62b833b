-- ===== src/Client/Receive/State.antt =====
-- client/src/udp_handler.rs: what `udp_listener_loop` keeps. `FragmentBuffer`, `FrameCache`,
-- `BufferPool` and their operations.
use facetime_v.Base.{
  Bool, Bytes, List, Map, Option, [], false, if◌then◌else◌, length, ltb, none, not, some, true, ℕ,
  ◌++◌, ◌==◌, ◌∷◌,
}
use facetime_v.Protocol.Names.{StreamId}
use facetime_v.Client.Send.{FrameType}

abbrev pub chunk_timeout : ℕ
chunk_timeout = 50

abbrev pub buffer_pool_size : ℕ
buffer_pool_size = 10

pub record FragmentBuffer : Type 0 where
  pub chunks : Map ℕ Bytes
  pub last_update : ℕ
  pub frame_type : FrameType
  pub expected_chunks : ℕ
  pub sequence : ℕ

pub record FrameCache : Type 0 where
  pub last_frame : Option Bytes
  pub reconstructed_frame : Option Bytes
  pub last_sequence : ℕ
  pub corrupted : Bool

-- The chunks of each stream, the caches, the pool of buffers, and the frames that are shown.
pub record Listener (F : Type 0) : Type 0 where
  pub fragment_buffers : Map StreamId FragmentBuffer
  pub frame_caches : Map StreamId FrameCache
  pub buffer_pool : List Bytes
  pub sid_to_frame_map : Map StreamId (Option F)

-- `FrameCache::new`.
abbrev pub new_cache : FrameCache
new_cache = record {
  last_frame = none;
  reconstructed_frame = none;
  last_sequence = 0;
  corrupted = false;
}

unfoldable pub mark_corrupted : FrameCache → FrameCache
mark_corrupted cache = record cache { corrupted = true }

unfoldable pub reset : Bytes → ℕ → FrameCache → FrameCache
reset frame sequence cache = record {
  last_frame = some frame;
  reconstructed_frame = some frame;
  last_sequence = sequence;
  corrupted = false;
}

unfoldable pub get_buffer : List Bytes → Bytes × List Bytes
get_buffer [] = ([], [])
get_buffer (buffer ∷ buffers) = (buffer, buffers)

-- A buffer that goes back is cleared first.
unfoldable pub return_buffer : List Bytes → List Bytes
return_buffer buffers =
    if ltb (length buffers) buffer_pool_size then buffers ++ [] ∷ [] else buffers

-- `BTreeMap::insert`.
unfoldable pub insert_chunk : ℕ → Bytes → Map ℕ Bytes → Map ℕ Bytes
insert_chunk id chunk [] = (id, chunk) ∷ []
insert_chunk id chunk ((j, c) ∷ m) =
    let rest = insert_chunk id chunk m in
    if id == j
    then (id, chunk) ∷ m
    else if ltb id j
    then (id, chunk) ∷ (j, c) ∷ m
    else (j, c) ∷ rest

-- The buffer of the stream, made if it is missing, and cleared if it holds another frame.
unfoldable pub current_buffer : ℕ → FrameType → ℕ → Option FragmentBuffer → FragmentBuffer
current_buffer now t sequence none = record {
  chunks = [];
  last_update = now;
  frame_type = t;
  expected_chunks = 0;
  sequence = sequence;
}
current_buffer now t sequence (some entry) =
    if not (entry.sequence == sequence)
    then record entry { chunks = []; frame_type = t; sequence = sequence }
    else entry

unfoldable pub add_chunk : ℕ → FrameType → ℕ → ℕ → Bytes → Option FragmentBuffer → FragmentBuffer
add_chunk now t sequence id chunk o =
    let entry = current_buffer now t sequence o in
    record entry { chunks = insert_chunk id chunk entry.chunks; last_update = now }

-- `for chunk in entry.chunks.values() { frame_data.extend(chunk); }`
unfoldable pub assemble : Map ℕ Bytes → Bytes
assemble [] = []
assemble ((id, chunk) ∷ m) = chunk ++ assemble m
