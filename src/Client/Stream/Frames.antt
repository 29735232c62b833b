-- ===== src/Client/Stream/Frames.antt =====
-- One frame after another: every frame that is sent arrives, and a frame for which nothing or only a
-- heartbeat is sent is the one before.
use facetime_v.Base.{
  Bool, Bool-cases, Bytes, IsU32, List, Option, [], arith, bytes_instance, inl, inr, leb, length,
  lookup, nat_instance, none, ok, refl, some, ℕ, ◌++◌, ◌+◌, ◌∷◌, ◌≡◌, ◌≤◌, ◌⊎◌,
}
use facetime_v.Protocol.Names.{id_len}
use facetime_v.Client.Delta.{
  DeltaChunk, Created, made, refused, stuck, create_delta_optimized, serialize_deltas_optimized,
  apply_delta_safe, copy_chunks,
}
use facetime_v.Client.Delta.Codec.{apply-create, frame_through_delta}
use facetime_v.Client.Delta.Size.{length-serialize_deltas, length-serialize_deltas_positive}
use facetime_v.Client.Send.{
  full, delta, Sending, packet_of, unchanged, choose_delta, choose, send_choice, send_frame,
  heartbeat_interval,
}
use facetime_v.Client.Receive.{Listener, receive_all, patched, cache_of}
use facetime_v.Client.Stream.{Arrives, seen_after, IsReady, InStep, hear, Arrived}
use facetime_v.Client.Stream.Hear.{
  hear-nothing, hear-media, hear-heartbeat, final_frame-full, final_frame-delta,
}
use facetime_v.Client.Receive.Round.{seen_after}

-- An empty delta says that the frames are the same.
made-nil :
    (threshold : ℕ → ℕ) (old_frame frame : Bytes)
    → IsU32 (length frame)
    → create_delta_optimized threshold old_frame frame ≡ made []
    → old_frame ≡ frame
unfolding apply_delta_safe copy_chunks
made-nil threshold old_frame frame fits h =
    let applied : apply_delta_safe old_frame [] ≡ ok frame =
      apply-create threshold old_frame frame [] fits h in
    cc applied

module _ {F : Type 0} (from_bytes : Bytes → Option F) (unlocked : Bool) (rid sid : Bytes)
    (hr : length rid ≡ id_len) (hs : length sid ≡ id_len) (threshold : ℕ → ℕ)
    (limited : (n : ℕ) → threshold n ≤ n) where
  -- What a round of the sender and the listener comes to.
  pub record Followed (frame : Bytes) (old : Option Bytes) (l : Listener F) (s' : Sending)
      (l' : Listener F) : Type 0 where
    pub in_step : InStep sid frame s' l'
    pub shown :
        (lookup sid l'.sid_to_frame_map
          ≡ seen_after from_bytes unlocked (some frame) (lookup sid l.sid_to_frame_map))
        ⊎ ((old ≡ some frame) × (lookup sid l'.sid_to_frame_map ≡ lookup sid l.sid_to_frame_map))

  abbrev Outcome :
      Bytes → Option Bytes → List (ℕ × Bytes) → Listener F → List Bytes × Sending → Type 0
  Outcome frame old traffic l (ps, s') =
      Arrives sid ps traffic
      → Followed frame old l s' (hear from_bytes unlocked rid sid hr hs traffic l)

  Arrived→Followed :
      (frame : Bytes) (old : Option Bytes) (l l' : Listener F) (s' : Sending)
      → s'.last_frame ≡ some frame
      → Arrived from_bytes unlocked rid sid hr hs frame l l'
      → Followed frame old l s' l'
  Arrived→Followed frame old l l' s' sent a = record {
    in_step = record { sent = sent; tracks = a.tracks; ready = a.ready };
    shown = inl a.shown;
  }

  send_full :
      (frame : Bytes) (old : Option Bytes) (s : Sending) (traffic : List (ℕ × Bytes))
      (l : Listener F)
      → IsU32 s.sequence
      → 1 ≤ length frame
      → IsU32 (length frame)
      → IsReady sid l
      → Outcome frame old traffic l (send_choice (rid ++ sid) frame s (packet_of full frame, 0))
  unfolding send_choice
  send_full frame old s traffic l hq filled fits r arrives = Arrived→Followed frame old l _ _ refl (
      hear-media from_bytes unlocked rid sid hr hs full s.sequence frame frame traffic l (inl refl)
        hq filled fits r arrives
        (final_frame-full s.sequence frame (cache_of (lookup sid l.frame_caches))))

  send_unchanged :
      (frame : Bytes) (s : Sending) (traffic : List (ℕ × Bytes)) (l : Listener F)
      → InStep sid frame s l
      → Outcome frame
          (some frame)
          traffic
          l
          (send_choice (rid ++ sid) frame s (unchanged s.heartbeat_counter))
  unfolding send_choice unchanged receive_all
  send_unchanged frame s traffic l i arrives =
      elim (Bool-cases (leb heartbeat_interval (s.heartbeat_counter + 1))) [
        | inl due ↦
            let h =
              hear-heartbeat from_bytes unlocked rid sid hr hs s.sequence traffic l i.ready
                (rw due at arrives) in
            rw due (record {
              in_step = record { sent = refl; tracks = rw h.same_cache i.tracks; ready = h.ready };
              shown = inr (refl, h.same_seen);
            })
        | inr early ↦
            let h =
              hear-nothing from_bytes unlocked rid sid hr hs traffic l i.ready
                (rw early at arrives) in
            rw early (record {
              in_step = record {
                sent = i.sent;
                tracks = rw h.same_cache i.tracks;
                ready = h.ready;
              };
              shown = inr (refl, h.same_seen);
            })
      ]

  send_delta :
      (old_frame frame : Bytes) (s : Sending) (traffic : List (ℕ × Bytes)) (l : Listener F)
      (d : DeltaChunk) (ds : List DeltaChunk)
      → IsU32 s.sequence
      → IsU32 (length frame + 4)
      → InStep sid old_frame s l
      → create_delta_optimized threshold old_frame frame ≡ made (d ∷ ds)
      → Outcome frame (some old_frame) traffic l (
          send_choice
            (rid ++ sid)
            frame
            s
            (packet_of delta (serialize_deltas_optimized (d ∷ ds)), 0))
  unfolding send_choice
  send_delta old_frame frame s traffic l d ds hq fits i h arrives =
      let content = serialize_deltas_optimized (d ∷ ds) in
      let size = length-serialize_deltas threshold old_frame frame d ds h in
      let back = frame_through_delta threshold old_frame frame (d ∷ ds) (omega arith) h in
      let at_listener : cache_of (lookup sid l.frame_caches) ≡ i.tracks.cache =
        rw i.tracks.found refl in
      Arrived→Followed frame (some old_frame) l _ _ refl (
        hear-media from_bytes unlocked rid sid hr hs delta s.sequence content frame traffic l
          (inr refl) hq (length-serialize_deltas_positive (d ∷ ds))
          (omega (arith, size, limited (length frame))) i.ready arrives
          (rw at_listener (
            final_frame-delta s.sequence old_frame frame content i.tracks.cache i.tracks.same_frame
              i.tracks.sane (unfold patched in back))))

  send_from :
      (old_frame frame : Bytes) (s : Sending) (traffic : List (ℕ × Bytes)) (l : Listener F)
      (c : Created)
      → IsU32 s.sequence
      → 1 ≤ length frame
      → IsU32 (length frame + 4)
      → InStep sid old_frame s l
      → create_delta_optimized threshold old_frame frame ≡ c
      → Outcome frame
          (some old_frame)
          traffic
          l
          (send_choice (rid ++ sid) frame s (choose_delta frame s.heartbeat_counter c))
  unfolding choose_delta
  send_from old_frame frame s traffic l (made []) hq filled fits i h =
      let same_frame = made-nil threshold old_frame frame (omega arith) h in
      rw same_frame (send_unchanged frame s traffic l (rw same_frame at i))
  send_from old_frame frame s traffic l (made (d ∷ ds)) hq filled fits i h =
      send_delta old_frame frame s traffic l d ds hq fits i h
  send_from old_frame frame s traffic l refused hq filled fits i h =
      send_full frame (some old_frame) s traffic l hq filled (omega arith) i.ready
  send_from old_frame frame s traffic l stuck hq filled fits i h =
      send_full frame (some old_frame) s traffic l hq filled (omega arith) i.ready

  -- From a sender that has sent nothing, with a listener that holds no chunk of the stream: the first
  -- frame.
  pub first_frame :
      (frame : Bytes) (s : Sending) (traffic : List (ℕ × Bytes)) (l : Listener F)
      → 1 ≤ length frame
      → IsU32 (length frame)
      → s.last_frame ≡ none
      → IsReady sid l
      → Arrives sid (send_frame threshold (rid ++ sid) frame s).0 traffic
      → Followed frame none l
          (send_frame threshold (rid ++ sid) frame s).1
          (hear from_bytes unlocked rid sid hr hs traffic l)
  unfolding send_frame choose
  first_frame frame s traffic l filled fits none_sent r arrives =
      rw none_sent
        (send_full frame none _ traffic l (omega arith) filled fits r (rw none_sent at arrives))

  -- A sender and a listener that are in step on `old_frame` are in step on the next frame once its
  -- packets have come in order, with any datagrams of other streams before them, and between them such
  -- as come less than 50 ms after the packet before, if identifiers have four bytes, the frame has a
  -- byte at least and is four bytes short of 4 GiB at most, and a delta is given up at a size no larger
  -- than the frame. And either the map of frames has the picture of the next frame for the stream, if
  -- it decodes and the map is free, and else what it had; or the next frame is the old one, and the map
  -- has for the stream what it had.
  pub next_frame :
      (old_frame frame : Bytes) (s : Sending) (traffic : List (ℕ × Bytes)) (l : Listener F)
      → 1 ≤ length frame
      → IsU32 (length frame + 4)
      → InStep sid old_frame s l
      → Arrives sid (send_frame threshold (rid ++ sid) frame s).0 traffic
      → Followed frame
          (some old_frame)
          l
          (send_frame threshold (rid ++ sid) frame s).1
          (hear from_bytes unlocked rid sid hr hs traffic l)
  unfolding send_frame choose
  next_frame old_frame frame s traffic l filled fits i arrives = rw i.sent (
      send_from old_frame frame _ traffic l (create_delta_optimized threshold old_frame frame)
        (omega arith) filled fits (record { sent = refl; tracks = i.tracks; ready = i.ready }) refl
        (rw i.sent at arrives))
