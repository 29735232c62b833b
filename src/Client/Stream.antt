-- ===== src/Client/Stream.antt =====
-- A sender and a listener of one stream, when every packet arrives and in order, among the datagrams
-- of other streams: what the listener has reconstructed follows what the sender captured.
pub mod Hear
pub mod Frames
pub mod Run
use facetime_v.Base.{
  All, Bool, Bytes, List, Option, bytes_instance, false, length, lookup, nat_instance, none, some,
  ℕ, ◌++◌, ◌≡◌,
}
use facetime_v.Protocol.Names.{RoomId, StreamId, id_len}
use facetime_v.Client.Delta.{
  DeltaChunk, Created, made, refused, stuck, create_delta_optimized, serialize_deltas_optimized,
  deserialize_deltas, apply_delta_safe, copy_chunks,
}
use facetime_v.Client.Delta.Codec.{apply-create, frame_through_delta}
use facetime_v.Client.Delta.Size.{length-serialize_deltas}
use facetime_v.Client.Send.{
  FrameType, full, delta, heartbeat, Sending, Choice, nothing, packet_of, unchanged, choose_delta,
  choose, packets, packet, send_choice, send_frame, sequence_wrap, heartbeat_interval, type_byte,
}
use facetime_v.Client.Receive.{
  Listener, FragmentBuffer, FrameCache, receive, receive_all, expire, final_frame, cache_of,
  show_frame, current_buffer, patched, apply_to, patch_cache, reset, is_expired,
}
use facetime_v.Client.Receive.Expiry.{
  buffers_of, buffers_of-retain, lookup-retain-none, lookup-mark_expired-none,
}
use facetime_v.Client.Receive.Packet.{IsMedia}
use facetime_v.Client.Receive.Round.{seen_after, Holding, Finished, IsClear}
use facetime_v.Client.Receive.Frame.{InPieces-nil, InPieces, receive-packets, drop-packet}
use facetime_v.Client.Receive.Others.{receive_all-Untouched, IsForeign}
use facetime_v.Client.Receive.Untouched.{Untouched}

-- Between two frames the listener has no chunks of the stream.
pub record IsReady {F : Type 0} (sid : StreamId) (l : Listener F) : Type 0 where
  pub gone : lookup sid l.fragment_buffers ≡ none
  pub none_left : buffers_of sid l.fragment_buffers ≡ 0
  pub clear : IsClear l.buffer_pool

-- The cache has reconstructed `frame`, and deltas may be applied to it.
pub record Tracks (frame : Bytes) (o : Option FrameCache) : Type 0 where
  pub cache : FrameCache
  pub found : o ≡ some cache
  pub same_frame : cache.reconstructed_frame ≡ some frame
  pub sane : cache.corrupted ≡ false

-- The listener has the frame that the sender makes its next delta from.
pub record InStep {F : Type 0} (sid : StreamId) (frame : Bytes) (s : Sending) (l : Listener F)
    : Type 0 where
  pub sent : s.last_frame ≡ some frame
  pub tracks : Tracks frame (lookup sid l.frame_caches)
  pub ready : IsReady sid l

-- What the listener receives for the packets of a frame: any datagrams of other streams, then the
-- packets in their order, and between them such datagrams less than 50 ms after a packet.
pub record Arrives (sid : StreamId) (ps : List Bytes) (tr : List (ℕ × Bytes)) : Type 0 where
  pub before : List (ℕ × Bytes)
  pub pieces : List (ℕ × Bytes)
  pub cut : tr ≡ before ++ pieces
  pub foreign : All (λ (d : ℕ × Bytes). IsForeign sid d.1) before
  pub in_order : InPieces sid none ps pieces

module _ {F : Type 0} (from_bytes : Bytes → Option F) (unlocked : Bool) (rid sid : Bytes)
    (hr : length rid ≡ id_len) (hs : length sid ≡ id_len) where
  abbrev pub hear : List (ℕ × Bytes) → Listener F → Listener F
  hear tr l = receive_all from_bytes unlocked tr l

  -- The frame is seen and tracked.
  pub record Arrived (frame : Bytes) (l l' : Listener F) : Type 0 where
    pub tracks : Tracks frame (lookup sid l'.frame_caches)
    pub ready : IsReady sid l'
    pub shown :
        lookup sid l'.sid_to_frame_map
        ≡ seen_after from_bytes unlocked (some frame) (lookup sid l.sid_to_frame_map)

  -- The stream is as it was.
  pub record Rests (l l' : Listener F) : Type 0 where
    pub ready : IsReady sid l'
    pub same_cache : lookup sid l'.frame_caches ≡ lookup sid l.frame_caches
    pub same_seen : lookup sid l'.sid_to_frame_map ≡ lookup sid l.sid_to_frame_map
