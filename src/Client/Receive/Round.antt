-- ===== src/Client/Receive/Round.antt =====
-- A frame that comes in pieces: what the listener holds of it on the way, and what it has at the end.
use facetime_v.Base.{
  ==_iff, All, All-append, Bool, Bool-cases, Bytes, IsU32, List, Map, Option, [], ap, arith, as_u32,
  bytes_instance, false, if◌then◌else◌, inl, inr, insert, length, length-append, lookup,
  lookup-insert, lookup-remove, ltb, nat_instance, none, not, refl, remove, retain, same_refl, some,
  sym, true, ℕ, ◌++◌, ◌+◌, ◌==◌, ◌∙◌, ◌∷◌, ◌≡◌, ◌≤◌,
}
use facetime_v.Protocol.Names.{StreamId}
use facetime_v.Client.Send.{FrameType}
use facetime_v.Client.Send.Chunks.{concat}
use facetime_v.Client.Receive.{
  buffer_pool_size, Listener, FragmentBuffer, FrameCache, receive_chunk, expire, current_buffer,
  add_chunk, close, complete, is_expired, cache_of, final_frame, show_frame, get_buffer,
  return_buffer, assemble,
}
use facetime_v.Client.Receive.Chunks.{
  numbered, length-numbered, insert_chunk-numbered, assemble-numbered,
}
use facetime_v.Client.Receive.Expiry.{
  buffers_of, buffers_of-insert, buffers_of-retain, buffers_of-remove, lookup-retain,
  lookup-retain-none, lookup-mark_expired, lookup-mark_expired-none,
}

abbrev pub IsClear : List Bytes → Type 0
IsClear pool = All (λ (b : Bytes). b ≡ []) pool

pub get_buffer-IsClear :
    (pool : List Bytes)
    → IsClear pool
    → ((get_buffer pool).0 ≡ []) × IsClear (return_buffer (get_buffer pool).1)
unfolding get_buffer return_buffer
get_buffer-IsClear [] h = (refl, (refl, tt))
get_buffer-IsClear (b ∷ pool) h = (
  h.0,
  elim (Bool-cases (ltb (length pool) buffer_pool_size)) [
    | inl room ↦ rw room (All-append (λ (c : Bytes). c ≡ []) pool ([] ∷ []) h.1 (refl, tt))
    | inr crowded ↦ rw crowded h.1
  ],
)

lookup-insert_same :
    (sid : StreamId) (cache : FrameCache) (m : Map StreamId FrameCache)
    → lookup sid (insert sid cache m) ≡ some cache
lookup-insert_same sid cache m = ground (arith, lookup-insert sid sid cache m, same_refl sid)

-- The buffer in which the next chunk of the frame goes does not depend on the time, but for its stamp.
current_buffer_lem :
    (now : ℕ) (t : FrameType) (sequence : ℕ) (o : Option FragmentBuffer)
    → ((current_buffer now t sequence o).chunks ≡ (current_buffer 0 t sequence o).chunks)
      × ((current_buffer now t sequence o).frame_type ≡ (current_buffer 0 t sequence o).frame_type)
      × ((current_buffer now t sequence o).sequence ≡ sequence)
unfolding current_buffer
current_buffer_lem now t sequence none = (refl, refl, refl)
current_buffer_lem now t sequence (some e) = elim (Bool-cases (e.sequence == sequence)) [
  | inl y ↦ rw y (refl, refl, (==_iff _ _).0 y)
  | inr n ↦ rw n (refl, refl, refl)
]

current_buffer_same :
    (t : FrameType) (sequence : ℕ) (e : FragmentBuffer)
    → e.sequence ≡ sequence
    → current_buffer 0 t sequence (some e) ≡ e
unfolding current_buffer
current_buffer_same t sequence e h = rw ((==_iff _ _).1 h) refl

module _ {F : Type 0} (from_bytes : Bytes → Option F) (unlocked : Bool) where
  -- What is seen of a stream once bytes are to be shown for it: their picture, if they decode and the
  -- map of frames is free, and else what was seen before.
  abbrev pub seen_as : Option F → Option (Option F) → Option (Option F)
  seen_as none seen = seen
  seen_as (some frame) seen = if unlocked then some (some frame) else seen

  abbrev pub seen_after : Option Bytes → Option (Option F) → Option (Option F)
  seen_after none seen = seen
  seen_after (some final_data) seen = seen_as (from_bytes final_data) seen

  seen_as_lem :
      (sid : StreamId) (final_data : Bytes) (o : Option F) (frames : Map StreamId (Option F))
      → from_bytes final_data ≡ o
      → lookup sid (show_frame from_bytes unlocked sid (some final_data) frames)
        ≡ seen_as o (lookup sid frames)
  unfolding show_frame
  seen_as_lem sid final_data none frames e = rw (show_frame, e) refl
  seen_as_lem sid final_data (some frame) frames e = elim (Bool-cases unlocked) [
    | inl y ↦
        rw (show_frame, e, y)
          (ground (arith, lookup-insert sid sid (some frame) frames, same_refl sid))
    | inr n ↦ rw (show_frame, e, n) refl
  ]

  show_frame_lem :
      (sid : StreamId) (o : Option Bytes) (frames : Map StreamId (Option F))
      → lookup sid (show_frame from_bytes unlocked sid o frames) ≡ seen_after o (lookup sid frames)
  unfolding show_frame
  show_frame_lem sid none frames = refl
  show_frame_lem sid (some final_data) frames =
      seen_as_lem sid final_data (from_bytes final_data) frames refl

-- The stream's buffer, if it has one, was last written at a time; at none, nothing is said.
abbrev pub Stamped : {F : Type 0} → StreamId → Option ℕ → Listener F → Type 0
Stamped sid none l = Unit
Stamped sid (some since) l =
    (fb : FragmentBuffer) → lookup sid l.fragment_buffers ≡ some fb → fb.last_update ≡ since

module _ {F : Type 0} (from_bytes : Bytes → Option F) (unlocked : Bool) (sid : StreamId)
    (t : FrameType) (sequence : ℕ) where
  -- The listener holds the chunks of the frame, and nothing else of the stream has changed.
  pub record Holding (cs : List Bytes) (cache : Option FrameCache) (seen : Option (Option F))
      (l : Listener F) : Type 0 where
    pub held : (current_buffer 0 t sequence (lookup sid l.fragment_buffers)).chunks ≡ numbered 0 cs
    pub kind : (current_buffer 0 t sequence (lookup sid l.fragment_buffers)).frame_type ≡ t
    pub single : buffers_of sid l.fragment_buffers ≤ 1
    pub cached : lookup sid l.frame_caches ≡ cache
    pub clear : IsClear l.buffer_pool
    pub shown : lookup sid l.sid_to_frame_map ≡ seen

  -- The frame is complete, and its buffer is gone.
  pub record Finished (content : Bytes) (cache : Option FrameCache) (seen : Option (Option F))
      (l : Listener F) : Type 0 where
    pub gone : lookup sid l.fragment_buffers ≡ none
    pub none_left : buffers_of sid l.fragment_buffers ≡ 0
    pub cached :
        lookup sid l.frame_caches ≡ some (final_frame t sequence content (cache_of cache)).1
    pub clear : IsClear l.buffer_pool
    pub shown :
        lookup sid l.sid_to_frame_map
        ≡ seen_after from_bytes unlocked (final_frame t sequence content (cache_of cache)).0 seen

  module _ (now : ℕ) (cs : List Bytes) (chunk : Bytes) (cache : Option FrameCache)
      (seen : Option (Option F)) (l : Listener F) (h : Holding cs cache seen l) where
    abbrev entry : FragmentBuffer
    entry = add_chunk now t sequence (length cs) chunk (lookup sid l.fragment_buffers)

    entry_lem :
        (entry.chunks ≡ numbered 0 (cs ++ chunk ∷ []))
        × (entry.frame_type ≡ t)
        × (entry.sequence ≡ sequence)
        × (is_expired now entry ≡ false)
    unfolding add_chunk
    entry_lem =
        let (same_chunks, same_kind, same_sequence) =
          current_buffer_lem now t sequence (lookup sid l.fragment_buffers) in
        (
          rw (same_chunks, h.held) (insert_chunk-numbered 0 (length cs) cs chunk (omega arith)),
          rw (same_kind, h.kind) refl,
          same_sequence,
          ground arith,
        )

    pub Holding-next : Holding (cs ++ chunk ∷ []) cache seen (
        expire now (receive_chunk from_bytes unlocked now sid t sequence (length cs) false chunk l))
    unfolding expire receive_chunk close
    Holding-next =
        let (chunks_are, kind_is, sequence_is, young) = entry_lem in
        let frags = insert sid entry l.fragment_buffers in
        let one = buffers_of-insert sid entry l.fragment_buffers h.single in
        let found : lookup sid frags ≡ some entry =
          ground (arith, lookup-insert sid sid entry l.fragment_buffers, same_refl sid) in
        let kept : lookup sid (retain (λ e. not (is_expired now e.1)) frags) ≡ some entry =
          lookup-retain sid entry (λ fb. not (is_expired now fb)) frags found (rw young refl) in
        record {
          held = rw (kept, current_buffer_same t sequence entry sequence_is) chunks_are;
          kind = rw (kept, current_buffer_same t sequence entry sequence_is) kind_is;
          single = omega (arith, one, buffers_of-retain sid (λ fb. not (is_expired now fb)) frags);
          cached =
              lookup-mark_expired now sid entry frags l.frame_caches one found young ∙ h.cached;
          clear = h.clear;
          shown = h.shown;
        }

    pub Stamped-next : Stamped sid (some now) (
        expire now (receive_chunk from_bytes unlocked now sid t sequence (length cs) false chunk l))
    unfolding expire receive_chunk close add_chunk
    Stamped-next fb e =
        let (chunks_are, kind_is, sequence_is, young) = entry_lem in
        let frags = insert sid entry l.fragment_buffers in
        let found : lookup sid frags ≡ some entry =
          ground (arith, lookup-insert sid sid entry l.fragment_buffers, same_refl sid) in
        let kept : lookup sid (retain (λ e. not (is_expired now e.1)) frags) ≡ some entry =
          lookup-retain sid entry (λ fb. not (is_expired now fb)) frags found (rw young refl) in
        let same_entry : entry ≡ fb = cc in
        ap (λ (b : FragmentBuffer). b.last_update) (sym same_entry)

    Finished-complete :
        (e : FragmentBuffer) (content : Bytes)
        → e.frame_type ≡ t
        → assemble e.chunks ≡ content
        → Finished content cache seen (expire now (complete from_bytes unlocked sid sequence e l))
    unfolding expire complete
    Finished-complete e content is_kind is_content =
        let (empty_buffer, still_clear) = get_buffer-IsClear l.buffer_pool h.clear in
        let final : final_frame e.frame_type sequence
              ((get_buffer l.buffer_pool).0 ++ assemble e.chunks)
              (cache_of (lookup sid l.frame_caches))
            ≡ final_frame t sequence content (cache_of cache) =
          rw (empty_buffer, is_kind, is_content, h.cached) refl in
        let frags = remove sid l.fragment_buffers in
        let zero_left = buffers_of-remove sid l.fragment_buffers in
        let absent : lookup sid frags ≡ none =
          ground (arith, lookup-remove sid sid l.fragment_buffers, same_refl sid) in
        record {
          gone = lookup-retain-none sid (λ fb. not (is_expired now fb)) frags absent;
          none_left =
              omega (arith, zero_left, buffers_of-retain sid (λ fb. not (is_expired now fb)) frags);
          cached = rw final (
              lookup-mark_expired-none now sid frags _ zero_left
              ∙ lookup-insert_same sid _ l.frame_caches);
          clear = still_clear;
          shown = rw final (
              show_frame_lem from_bytes unlocked sid _ l.sid_to_frame_map
              ∙ ap
                  (seen_after from_bytes unlocked
                    (final_frame t sequence content (cache_of cache)).0)
                  h.shown);
        }

    pub Finished-last :
        IsU32 (length cs + 1)
        → Finished (concat (cs ++ chunk ∷ [])) cache seen (
            expire now
              (receive_chunk from_bytes unlocked now sid t sequence (length cs) true chunk l))
    unfolding receive_chunk close
    Finished-last fits =
        let (chunks_are, kind_is, sequence_is, young) = entry_lem in
        let all_there : length entry.chunks == as_u32 (length cs + 1) ≡ true = (==_iff _ _).1 (
          rw chunks_are
            (omega (arith, length-numbered 0 (cs ++ chunk ∷ []), length-append cs (chunk ∷ [])))) in
        rw all_there (
          Finished-complete (record entry { expected_chunks = as_u32 (length cs + 1) })
            (concat (cs ++ chunk ∷ [])) kind_is
            (rw chunks_are (assemble-numbered 0 (cs ++ chunk ∷ []))))
