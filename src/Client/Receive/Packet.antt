-- ===== src/Client/Receive/Packet.antt =====
-- One packet of the sender at the listener: it is read as the chunk that it was made from, and leaves
-- the stream with one chunk more.
use facetime_v.Base.{
  Bool, Bool-cases, Bytes, IsU32, Option, [], arith, as_u32, drop, from_be_bytes-to_be_bytes,
  if◌then◌else◌, inl, inr, length, length-append, ltb, refl, take, to_be_bytes, true, ℕ, ◌++◌, ◌+◌,
  ◌∷◌, ◌≡◌, ◌≤◌, ◌⊎◌,
}
use facetime_v.Protocol.Names.{StreamId, id_len}
use facetime_v.Client.Send.{FrameType, full, delta, packet, type_byte}
use facetime_v.Client.Receive.{Listener, receive, receive_body, receive_chunk, expire, type_of_byte}

pub split_sid :
    (sid x : Bytes)
    → length sid ≡ id_len
    → (take id_len (sid ++ x) ≡ sid) × (drop id_len (sid ++ x) ≡ x)
split_sid [] x h = absurd (omega arith)
split_sid (a ∷ []) x h = absurd (omega arith)
split_sid (a ∷ b ∷ []) x h = absurd (omega arith)
split_sid (a ∷ b ∷ c ∷ []) x h = absurd (omega arith)
split_sid (a ∷ b ∷ c ∷ d ∷ []) x h = (refl, refl)
split_sid (a ∷ b ∷ c ∷ d ∷ e ∷ sid) x h = absurd (omega arith)

-- Frames in pieces are whole frames or deltas.
abbrev pub IsMedia : FrameType → Type 0
IsMedia t = (t ≡ full) ⊎ (t ≡ delta)

module _ {F : Type 0} (from_bytes : Bytes → Option F) (unlocked : Bool) (now : ℕ) where
  receive_body-packet :
      (sid : StreamId) (t : FrameType) (sequence i : ℕ) (is_last : Bool) (chunk : Bytes)
      (l : Listener F)
      → IsMedia t
      → IsU32 sequence
      → IsU32 i
      → receive_body from_bytes unlocked now sid
          (type_byte t ∷ to_be_bytes sequence
            ++ (to_be_bytes (as_u32 i) ++ ((if is_last then 1 else 0) ∷ chunk)))
          l
        ≡ expire now (receive_chunk from_bytes unlocked now sid t sequence i is_last chunk l)
  unfolding receive_body to_be_bytes type_of_byte
  receive_body-packet sid t sequence i is_last chunk l media hs hi =
      let same_i : as_u32 i ≡ i = omega arith in
      let same_sequence = from_be_bytes-to_be_bytes sequence hs in
      let same_id = from_be_bytes-to_be_bytes i hi in
      rw same_i (elim media [
        | inl e ↦ rw e (
            rw (same_sequence, same_id)
              (elim (Bool-cases is_last) [ inl y ↦ rw y refl | inr n ↦ rw n refl ]))
        | inr e ↦ rw e (
            rw (same_sequence, same_id)
              (elim (Bool-cases is_last) [ inl y ↦ rw y refl | inr n ↦ rw n refl ]))
      ])

  pub receive-packet :
      (sid : StreamId) (t : FrameType) (sequence i : ℕ) (is_last : Bool) (chunk : Bytes)
      (l : Listener F)
      → length sid ≡ id_len
      → IsMedia t
      → IsU32 sequence
      → IsU32 i
      → 1 ≤ length chunk
      → receive from_bytes unlocked now (packet sid t sequence i is_last chunk) l
        ≡ expire now (receive_chunk from_bytes unlocked now sid t sequence i is_last chunk l)
  unfolding receive packet to_be_bytes
  receive-packet sid t sequence i is_last chunk l h media hs hi filled =
      let body : Bytes =
        type_byte t ∷ to_be_bytes sequence
        ++ (to_be_bytes (as_u32 i) ++ ((if is_last then 1 else 0) ∷ chunk)) in
      let (front, behind) = split_sid sid body h in
      let long : ltb (id_len + 10) (length (sid ++ body)) ≡ true =
        ground (arith, length-append sid body) in
      rw (long, front, behind) (receive_body-packet sid t sequence i is_last chunk l media hs hi)
