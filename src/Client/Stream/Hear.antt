-- ===== src/Client/Stream/Hear.antt =====
-- The packets of one frame, or none, at a listener that has no chunk of the stream.
use facetime_v.Base.{
  All, Bool, Bytes, IsU32, List, Map, Option, [], ap, append-nil, arith, bytes_instance, drop,
  false, inl, inr, length, length-append, lookup, ltb, nat_instance, none, not, ok, refl, some,
  to_be_bytes, true, ℕ, ◌++◌, ◌+◌, ◌∙◌, ◌∷◌, ◌≡◌, ◌≤◌,
}
use facetime_v.Protocol.Names.{StreamId, id_len}
use facetime_v.Client.Send.{FrameType, full, delta, heartbeat, packets, packet}
use facetime_v.Client.Receive.{
  Listener, FrameCache, receive, receive_all, expire, final_frame, cache_of, current_buffer,
  patched, apply_to, patch_cache, reset, is_expired,
}
use facetime_v.Client.Receive.Expiry.{
  buffers_of-retain, lookup-retain-none, lookup-mark_expired-none,
}
use facetime_v.Client.Receive.Packet.{IsMedia}
use facetime_v.Client.Receive.Round.{seen_after, Holding}
use facetime_v.Client.Receive.Frame.{InPieces-nil, InPieces, receive-packets, drop-packet}
use facetime_v.Client.Receive.Others.{receive_all-Untouched, IsForeign}
use facetime_v.Client.Receive.Untouched.{Untouched}
use facetime_v.Client.Stream.{IsReady, Tracks, Arrives, hear, Arrived, Rests}

IsReady-Untouched :
    {F : Type 0} (sid : StreamId) (l l' : Listener F)
    → Untouched sid l l'
    → IsReady sid l
    → IsReady sid l'
IsReady-Untouched sid l l' u r = record {
  gone = u.held ∙ r.gone;
  none_left = omega (arith, u.not_more, r.none_left);
  clear = u.clear r.clear;
}

receive_all-append :
    {F : Type 0} (from_bytes : Bytes → Option F) (unlocked : Bool) (first second : List (ℕ × Bytes))
    (l : Listener F)
    → receive_all from_bytes unlocked (first ++ second) l
      ≡ receive_all from_bytes unlocked second (receive_all from_bytes unlocked first l)
unfolding receive_all
receive_all-append from_bytes unlocked [] second l = refl
receive_all-append from_bytes unlocked ((now, buf) ∷ first) second l =
    receive_all-append from_bytes unlocked first second (receive from_bytes unlocked now buf l)

expire-IsReady :
    {F : Type 0} (sid : StreamId) (now : ℕ) (l : Listener F)
    → IsReady sid l
    → IsReady sid (expire now l)
      × (lookup sid (expire now l).frame_caches ≡ lookup sid l.frame_caches)
      × ((expire now l).sid_to_frame_map ≡ l.sid_to_frame_map)
unfolding expire
expire-IsReady sid now l r = (
  record {
    gone = lookup-retain-none sid (λ fb. not (is_expired now fb)) l.fragment_buffers r.gone;
    none_left = omega (
      arith,
      r.none_left,
      buffers_of-retain sid (λ fb. not (is_expired now fb)) l.fragment_buffers,
    );
    clear = r.clear;
  },
  lookup-mark_expired-none now sid l.fragment_buffers l.frame_caches r.none_left,
  refl,
)

pub final_frame-full :
    (sequence : ℕ) (frame : Bytes) (cache : FrameCache)
    → ((final_frame full sequence frame cache).0 ≡ some frame)
      × Tracks frame (some (final_frame full sequence frame cache).1)
unfolding final_frame reset
final_frame-full sequence frame cache =
    (refl, record { cache = _; found = refl; same_frame = refl; sane = refl })

pub final_frame-delta :
    (sequence : ℕ) (old_frame frame content : Bytes) (cache : FrameCache)
    → cache.reconstructed_frame ≡ some old_frame
    → cache.corrupted ≡ false
    → patched old_frame content ≡ ok frame
    → ((final_frame delta sequence content cache).0 ≡ some frame)
      × Tracks frame (some (final_frame delta sequence content cache).1)
unfolding final_frame apply_to patch_cache
final_frame-delta sequence old_frame frame content cache same_frame sane h =
    rw (sane, same_frame)
      (rw h (refl, record { cache = _; found = refl; same_frame = refl; sane = refl }))

module _ {F : Type 0} (from_bytes : Bytes → Option F) (unlocked : Bool) (rid sid : Bytes)
    (hr : length rid ≡ id_len) (hs : length sid ≡ id_len) where
  -- The datagrams of other streams that come first.
  hear-foreign :
      (before : List (ℕ × Bytes)) (l : Listener F)
      → All (λ (d : ℕ × Bytes). IsForeign sid d.1) before
      → IsReady sid l
      → Rests from_bytes unlocked rid sid hr hs l (hear from_bytes unlocked rid sid hr hs before l)
  hear-foreign before l foreign r =
      let u = receive_all-Untouched from_bytes unlocked sid before l foreign r.gone in
      record { ready = IsReady-Untouched sid l _ u r; same_cache = u.cached; same_seen = u.seen }

  hear-pieces :
      (t : FrameType) (sequence : ℕ) (content frame : Bytes) (tr : List (ℕ × Bytes))
      (l : Listener F)
      → IsMedia t
      → IsU32 sequence
      → 1 ≤ length content
      → IsU32 (length content)
      → IsReady sid l
      → InPieces sid none (packets (rid ++ sid) t sequence content) tr
      → ((final_frame t sequence content (cache_of (lookup sid l.frame_caches))).0 ≡ some frame)
        × Tracks frame
            (some (final_frame t sequence content (cache_of (lookup sid l.frame_caches))).1)
      → Arrived from_bytes unlocked rid sid hr hs frame l
          (hear from_bytes unlocked rid sid hr hs tr l)
  unfolding current_buffer
  hear-pieces t sequence content frame tr l media hq filled fits r p (seen, tracked) =
      let holding : Holding from_bytes unlocked sid t sequence [] (lookup sid l.frame_caches)
          (lookup sid l.sid_to_frame_map) l =
        record {
          held = rw r.gone refl;
          kind = rw r.gone refl;
          single = omega (arith, r.none_left);
          cached = refl;
          clear = r.clear;
          shown = refl;
        } in
      let done =
        receive-packets from_bytes unlocked rid sid t sequence hr hs media hq content
          (lookup sid l.frame_caches) (lookup sid l.sid_to_frame_map) tr l filled fits holding p in
      record {
        tracks = rw done.cached tracked;
        ready = record { gone = done.gone; none_left = done.none_left; clear = done.clear };
        shown =
            done.shown
            ∙ ap
                (λ (o : Option Bytes).
                  seen_after from_bytes unlocked o (lookup sid l.sid_to_frame_map))
                seen;
      }

  pub hear-media :
      (t : FrameType) (sequence : ℕ) (content frame : Bytes) (tr : List (ℕ × Bytes))
      (l : Listener F)
      → IsMedia t
      → IsU32 sequence
      → 1 ≤ length content
      → IsU32 (length content)
      → IsReady sid l
      → Arrives sid (packets (rid ++ sid) t sequence content) tr
      → ((final_frame t sequence content (cache_of (lookup sid l.frame_caches))).0 ≡ some frame)
        × Tracks frame
            (some (final_frame t sequence content (cache_of (lookup sid l.frame_caches))).1)
      → Arrived from_bytes unlocked rid sid hr hs frame l
          (hear from_bytes unlocked rid sid hr hs tr l)
  hear-media t sequence content frame tr l media hq filled fits r a final =
      let m = hear from_bytes unlocked rid sid hr hs a.before l in
      let q = hear-foreign a.before l a.foreign r in
      let done =
        hear-pieces t sequence content frame a.pieces m media hq filled fits q.ready a.in_order
          (rw q.same_cache final) in
      rw (a.cut, receive_all-append from_bytes unlocked a.before a.pieces l)
        (record {
          tracks = done.tracks;
          ready = done.ready;
          shown = done.shown ∙ ap (seen_after from_bytes unlocked (some frame)) q.same_seen;
        })

  -- Nothing is sent.
  pub hear-nothing :
      (tr : List (ℕ × Bytes)) (l : Listener F)
      → IsReady sid l
      → Arrives sid [] tr
      → Rests from_bytes unlocked rid sid hr hs l (hear from_bytes unlocked rid sid hr hs tr l)
  hear-nothing tr l r a =
      let e : tr ≡ a.before =
        a.cut
        ∙ ap (λ (ps : List (ℕ × Bytes)). a.before ++ ps) (InPieces-nil sid none a.pieces a.in_order)
        ∙ append-nil a.before in
      rw e (hear-foreign a.before l a.foreign r)

  receive-heartbeat :
      (now sequence : ℕ) (l : Listener F)
      → IsReady sid l
      → Rests from_bytes unlocked rid sid hr hs l (
          receive from_bytes unlocked now
            (drop id_len (packet (rid ++ sid) heartbeat sequence 0 true []))
            l)
  unfolding receive packet to_be_bytes
  receive-heartbeat now sequence l r =
      let short : ltb (id_len + 10)
            (length (drop id_len (packet (rid ++ sid) heartbeat sequence 0 true [])))
          ≡ false =
        rw (drop-packet rid sid heartbeat sequence 0 true [] hr) (
          ground
            (arith, length-append sid (2 ∷ to_be_bytes sequence ++ (to_be_bytes 0 ++ 1 ∷ [])))) in
      let (ready, same_cache, same_frames) = expire-IsReady sid now l r in
      rw short (record {
        ready = ready;
        same_cache = same_cache;
        same_seen = ap (λ (m : Map StreamId (Option F)). lookup sid m) same_frames;
      })

  hear-beat :
      (sequence : ℕ) (tr : List (ℕ × Bytes)) (l : Listener F)
      → IsReady sid l
      → InPieces sid none (packet (rid ++ sid) heartbeat sequence 0 true [] ∷ []) tr
      → Rests from_bytes unlocked rid sid hr hs l (hear from_bytes unlocked rid sid hr hs tr l)
  unfolding receive_all
  hear-beat sequence [] l r p = cc
  hear-beat sequence ((now, buf) ∷ tr) l r p = elim p [
    | inl (e, rest) ↦
        rw (e, InPieces-nil sid (some now) tr rest) (receive-heartbeat now sequence l r)
    | inr (ne, soon, rest) ↦ absurd soon
  ]

  -- A heartbeat changes nothing of the stream.
  pub hear-heartbeat :
      (sequence : ℕ) (tr : List (ℕ × Bytes)) (l : Listener F)
      → IsReady sid l
      → Arrives sid (packets (rid ++ sid) heartbeat sequence []) tr
      → Rests from_bytes unlocked rid sid hr hs l (hear from_bytes unlocked rid sid hr hs tr l)
  unfolding packets receive_all
  hear-heartbeat sequence tr l r a =
      let q = hear-foreign a.before l a.foreign r in
      let b =
        hear-beat sequence a.pieces (hear from_bytes unlocked rid sid hr hs a.before l) q.ready
          a.in_order in
      rw (a.cut, receive_all-append from_bytes unlocked a.before a.pieces l)
        (record {
          ready = b.ready;
          same_cache = b.same_cache ∙ q.same_cache;
          same_seen = b.same_seen ∙ q.same_seen;
        })
