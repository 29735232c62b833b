-- ===== src/Client/Receive/Frame.antt =====
-- All packets of a frame, one after another, from the sender through the server to the listener.
use facetime_v.Base.{
  All, Bool, Bytes, IsU32, List, Option, [], append_assoc, arith, drop, false, inl, inr, length,
  length-append, none, refl, some, sym, true, ℕ, ◌++◌, ◌+◌, ◌-◌, ◌<◌, ◌==◌, ◌∙◌, ◌∷◌, ◌≡◌, ◌≤◌, ◌⊎◌,
}
use facetime_v.Protocol.Names.{StreamId, id_len}
use facetime_v.Client.Send.{FrameType, packet, packets, packets_from, max_chunk, chunks_of}
use facetime_v.Client.Send.Chunks.{concat, Cut, chunks_of-Cut}
use facetime_v.Client.Receive.{
  chunk_timeout, Listener, FrameCache, receive, receive_all, receive_chunk, expire,
}
use facetime_v.Client.Receive.Packet.{IsMedia, split_sid, receive-packet}
use facetime_v.Client.Receive.Round.{
  Stamped-next, Stamped, Holding, Finished, Holding-next, Finished-last,
}
use facetime_v.Client.Receive.State.{chunk_timeout}
use facetime_v.Client.Receive.Others.{receive-Untouched, IsForeign}

-- A datagram of another stream may come while a buffer that was written at `since` is not too old;
-- where nothing is said of the buffer, it may not.
abbrev pub IsInTime : Option ℕ → ℕ → Type 0
IsInTime none now = ⊥
IsInTime (some since) now = now - since < chunk_timeout

-- What the listener receives while packets come: the packets in their order, without the room
-- identifier, which the server takes off, and between them datagrams of other streams.
abbrev pub InPieces : StreamId → Option ℕ → List Bytes → List (ℕ × Bytes) → Type 0
InPieces sid since ps [] = ps ≡ []
InPieces sid since [] (d ∷ tr) = ⊥
InPieces sid since (p ∷ ps) ((now, buf) ∷ tr) =
    ((buf ≡ drop id_len p) × InPieces sid (some now) ps tr)
    ⊎ (IsForeign sid buf × IsInTime since now × InPieces sid since (p ∷ ps) tr)

pub InPieces-nil :
    (sid : StreamId) (since : Option ℕ) (tr : List (ℕ × Bytes)) → InPieces sid since [] tr → tr ≡ []
InPieces-nil sid since [] h = refl
InPieces-nil sid since (d ∷ tr) h = absurd h

pub drop-packet :
    (rid sid : Bytes) (t : FrameType) (sequence i : ℕ) (is_last : Bool) (chunk : Bytes)
    → length rid ≡ id_len
    → drop id_len (packet (rid ++ sid) t sequence i is_last chunk)
      ≡ packet sid t sequence i is_last chunk
unfolding packet
drop-packet rid sid t sequence i is_last chunk h = rw (append_assoc rid sid _) (split_sid rid _ h).1

packets-media :
    (full_sid : Bytes) (t : FrameType) (sequence : ℕ) (content : Bytes)
    → IsMedia t
    → packets full_sid t sequence content
      ≡ packets_from full_sid t sequence
          (length (chunks_of (length content) max_chunk content))
          0
          (chunks_of (length content) max_chunk content)
unfolding packets
packets-media full_sid t sequence content media = elim media [
  | inl e ↦ rw e refl
  | inr e ↦ rw e refl
]

module _ {F : Type 0} (from_bytes : Bytes → Option F) (unlocked : Bool) (rid sid : Bytes)
    (t : FrameType) (sequence : ℕ) (hr : length rid ≡ id_len) (hs : length sid ≡ id_len)
    (media : IsMedia t) (hq : IsU32 sequence) where
  arrival :
      (now i : ℕ) (is_last : Bool) (buf chunk : Bytes) (l : Listener F)
      → buf ≡ drop id_len (packet (rid ++ sid) t sequence i is_last chunk)
      → IsU32 i
      → 1 ≤ length chunk
      → receive from_bytes unlocked now buf l
        ≡ expire now (receive_chunk from_bytes unlocked now sid t sequence i is_last chunk l)
  arrival now i is_last buf chunk l e hi filled =
      rw (e, drop-packet rid sid t sequence i is_last chunk hr)
        (receive-packet from_bytes unlocked now sid t sequence i is_last chunk l hs media hq hi
          filled)

  -- Nothing of the stream is lost to a datagram of another one.
  Holding-foreign :
      (since : Option ℕ) (now : ℕ) (buf : Bytes) (cs : List Bytes) (cache : Option FrameCache)
      (seen : Option (Option F)) (l : Listener F)
      → IsForeign sid buf
      → IsInTime since now
      → Stamped sid since l
      → Holding from_bytes unlocked sid t sequence cs cache seen l
      → Holding from_bytes unlocked sid t sequence cs cache seen
          (receive from_bytes unlocked now buf l)
        × Stamped sid since (receive from_bytes unlocked now buf l)
  Holding-foreign none now buf cs cache seen l ne soon stamp h = absurd soon
  Holding-foreign (some since) now buf cs cache seen l ne soon stamp h =
      let u = receive-Untouched from_bytes unlocked sid now buf l ne (record {
        single = h.single;
        young = λ fb e. let written = stamp fb e in ground (arith, written, soon);
      }) in
      (
        record {
          held = rw u.held h.held;
          kind = rw u.held h.kind;
          single = omega (arith, u.not_more, h.single);
          cached = u.cached ∙ h.cached;
          clear = u.clear h.clear;
          shown = u.seen ∙ h.shown;
        },
        λ fb e. stamp fb (sym u.held ∙ e),
      )

  receive-packets_from :
      (tr : List (ℕ × Bytes)) (since : Option ℕ) (todo cs : List Bytes) (i total : ℕ)
      (cache : Option FrameCache) (seen : Option (Option F)) (l : Listener F)
      → i ≡ length cs
      → i + length todo ≡ total
      → 1 ≤ length todo
      → IsU32 total
      → All (λ (c : Bytes). 1 ≤ length c) todo
      → Stamped sid since l
      → Holding from_bytes unlocked sid t sequence cs cache seen l
      → InPieces sid since (packets_from (rid ++ sid) t sequence total i todo) tr
      → Finished from_bytes unlocked sid t sequence
          (concat (cs ++ todo))
          cache
          seen
          (receive_all from_bytes unlocked tr l)
  unfolding receive_all packets_from
  receive-packets_from tr since [] cs i total cache seen l hi ht some_left fits filled stamp h p =
      absurd (omega arith)
  receive-packets_from [] since (c ∷ todo) cs i total cache seen l hi ht some_left fits filled stamp
        h p =
      cc
  receive-packets_from ((now, buf) ∷ tr) since (c ∷ []) cs i total cache seen l hi ht some_left fits
        filled stamp h p =
      elim p [
        | inl (e, rest) ↦
            let last : i + 1 == total ≡ true = ground arith in
            let done = InPieces-nil sid (some now) tr rest in
            rw (done, arrival now i true buf c l (rw last at e) (omega arith) filled.0, hi)
              (Finished-last from_bytes unlocked sid t sequence now cs c cache seen l h
                (omega arith))
        | inr (ne, soon, rest) ↦
            let (held, stamped) = Holding-foreign since now buf cs cache seen l ne soon stamp h in
            receive-packets_from tr since (c ∷ []) cs i total cache seen _ hi ht some_left fits
              filled stamped held rest
      ]
  receive-packets_from ((now, buf) ∷ tr) since (c ∷ d ∷ ds) cs i total cache seen l hi ht some_left
        fits filled stamp h p =
      elim p [
        | inl (e, rest) ↦
            let more : i + 1 == total ≡ false = ground arith in
            let next = Holding-next from_bytes unlocked sid t sequence now cs c cache seen l h in
            let stamped = Stamped-next from_bytes unlocked sid t sequence now cs c cache seen l h in
            let later =
              receive-packets_from tr (some now) (d ∷ ds) (cs ++ c ∷ []) (i + 1) total cache seen _
                (omega (arith, length-append cs (c ∷ []))) (omega arith) (omega arith) fits filled.1
                stamped next rest in
            rw
              (
                arrival now i false buf c l (rw more at e) (omega arith) filled.0,
                hi,
                ← append_assoc cs (c ∷ []) (d ∷ ds),
              )
              later
        | inr (ne, soon, rest) ↦
            let (held, stamped) = Holding-foreign since now buf cs cache seen l ne soon stamp h in
            receive-packets_from tr since (c ∷ d ∷ ds) cs i total cache seen _ hi ht some_left fits
              filled stamped held rest
      ]

  -- The packets of a content of at least one byte and less than 4 GiB, whole frame or delta, with a
  -- 32-bit sequence number and identifiers of four bytes, come in order, and behind the first any
  -- datagrams of other streams come between them, each less than 50 ms after the packet before it: a
  -- listener with clear buffers, which has at most one buffer of the stream and in it no chunk of that
  -- frame, finishes with exactly this content. Then the buffer is gone, and the cache of the stream and
  -- the picture that is seen of it are what the content makes of them.
  pub receive-packets :
      (content : Bytes) (cache : Option FrameCache) (seen : Option (Option F))
      (tr : List (ℕ × Bytes)) (l : Listener F)
      → 1 ≤ length content
      → IsU32 (length content)
      → Holding from_bytes unlocked sid t sequence [] cache seen l
      → InPieces sid none (packets (rid ++ sid) t sequence content) tr
      → Finished from_bytes unlocked sid t sequence content cache seen
          (receive_all from_bytes unlocked tr l)
  receive-packets content cache seen tr l filled fits h p =
      let chunks = chunks_of (length content) max_chunk content in
      let cut : Cut content chunks = chunks_of-Cut (length content) 1349 content (omega arith) in
      let done =
        receive-packets_from tr none chunks [] 0 (length chunks) cache seen l refl (omega arith)
          (cut.some_chunk filled) (omega (arith, cut.few)) cut.filled tt h
          (rw (packets-media (rid ++ sid) t sequence content media) at p) in
      rw cut.whole at done
