-- ===== src/Client/Receive/Others.antt =====
-- Datagrams of other streams, between those of one stream: what they leave alone.
use facetime_v.Base.{
  All, Bool, Bool-cases, Bytes, List, Map, Option, [], arith, as_u32, bytes_instance, drop, false,
  inl, inr, insert, length, length-drop, lookup, lookup-insert, lookup-remove, ltb, nat_instance,
  none, refl, remove, same, some, take, true, ℕ, ◌+◌, ◌==◌, ◌∙◌, ◌∷◌, ◌≡◌,
}
use facetime_v.Protocol.Names.{StreamId, id_len}
use facetime_v.Client.Send.{FrameType, full, delta, heartbeat}
use facetime_v.Client.Receive.{
  Listener, FragmentBuffer, receive, receive_all, receive_body, receive_chunk, expire, close,
  complete, show_frame, type_of_byte,
}
use facetime_v.Client.Receive.Round.{get_buffer-IsClear}
use facetime_v.Client.Receive.Untouched.{
  Untouched, Untouched-refl, Untouched-trans, buffers_of-insert_other, buffers_of-remove_other,
  buffers_of-none, IsYoung, expire-Untouched, IsYoung-Untouched,
}

-- The datagram does not begin with the stream's identifier.
abbrev pub IsForeign : StreamId → Bytes → Type 0
IsForeign sid buf = same (take id_len buf) sid ≡ false

module _ {F : Type 0} (from_bytes : Bytes → Option F) (unlocked : Bool) (sid other : StreamId)
    (ne : same other sid ≡ false) where
  lookup-insert_other :
      {V : Type 0} (v : V) (m : Map StreamId V) → lookup sid (insert other v m) ≡ lookup sid m
  lookup-insert_other v m = lookup-insert other sid v m ∙ (rw ne refl)

  lookup-remove_other :
      {V : Type 0} (m : Map StreamId V) → lookup sid (remove other m) ≡ lookup sid m
  lookup-remove_other m = lookup-remove other sid m ∙ (rw ne refl)

  show_decoded :
      (final_data : Bytes) (o : Option F) (frames : Map StreamId (Option F))
      → from_bytes final_data ≡ o
      → lookup sid (show_frame from_bytes unlocked other (some final_data) frames)
        ≡ lookup sid frames
  unfolding show_frame
  show_decoded final_data none frames e = rw (show_frame, e) refl
  show_decoded final_data (some frame) frames e = elim (Bool-cases unlocked) [
    | inl y ↦ rw (show_frame, e, y) (lookup-insert_other (some frame) frames)
    | inr n ↦ rw (show_frame, e, n) refl
  ]

  show_frame-other :
      (shown : Option Bytes) (frames : Map StreamId (Option F))
      → lookup sid (show_frame from_bytes unlocked other shown frames) ≡ lookup sid frames
  unfolding show_frame
  show_frame-other none frames = refl
  show_frame-other (some final_data) frames =
      show_decoded final_data (from_bytes final_data) frames refl

  insert-Untouched :
      (fb : FragmentBuffer) (l : Listener F)
      → Untouched sid l (record l { fragment_buffers = insert other fb l.fragment_buffers })
  insert-Untouched fb l = record {
    held = lookup-insert_other fb l.fragment_buffers;
    not_more = buffers_of-insert_other sid other fb l.fragment_buffers ne;
    cached = refl;
    seen = refl;
    clear = λ h. h;
  }

  complete-Untouched :
      (sequence : ℕ) (e : FragmentBuffer) (l : Listener F)
      → Untouched sid l (complete from_bytes unlocked other sequence e l)
  unfolding complete
  complete-Untouched sequence e l = record {
    held = lookup-remove_other l.fragment_buffers;
    not_more = buffers_of-remove_other sid other l.fragment_buffers;
    cached = lookup-insert_other _ l.frame_caches;
    seen = show_frame-other _ l.sid_to_frame_map;
    clear = λ h. (get_buffer-IsClear l.buffer_pool h).1;
  }

  close-Untouched :
      (sequence id : ℕ) (is_last : Bool) (e : FragmentBuffer) (l : Listener F)
      → Untouched sid l (close from_bytes unlocked other sequence id is_last e l)
  unfolding close
  close-Untouched sequence id false e l = insert-Untouched e l
  close-Untouched sequence id true e l = elim (Bool-cases (length e.chunks == as_u32 (id + 1))) [
    | inl y ↦ rw y (complete-Untouched sequence _ l)
    | inr n ↦ rw n (insert-Untouched _ l)
  ]

  receive_chunk-Untouched :
      (now : ℕ) (t : FrameType) (sequence id : ℕ) (is_last : Bool) (chunk : Bytes) (l : Listener F)
      → IsYoung sid now l
      → Untouched sid l
          (expire now (receive_chunk from_bytes unlocked now other t sequence id is_last chunk l))
  unfolding receive_chunk
  receive_chunk-Untouched now t sequence id is_last chunk l y =
      let l' = receive_chunk from_bytes unlocked now other t sequence id is_last chunk l in
      let u = close-Untouched sequence id is_last _ l in
      Untouched-trans sid l l' (expire now l') u (
        expire-Untouched sid now l' (lookup sid l'.fragment_buffers) refl
          (IsYoung-Untouched sid now l l' u y))

  -- The match on the type of the frame.
  body-Untouched :
      (now t a b c d e f g h mark_last : ℕ) (chunk : Bytes) (o : Option FrameType) (l : Listener F)
      → type_of_byte t ≡ o
      → IsYoung sid now l
      → Untouched sid l (
          receive_body from_bytes unlocked now other
            (t ∷ a ∷ b ∷ c ∷ d ∷ e ∷ f ∷ g ∷ h ∷ mark_last ∷ chunk)
            l)
  unfolding receive_body
  body-Untouched now t a b c d e f g h mark_last chunk none l k y =
      rw (receive_body, k) (Untouched-refl sid l)
  body-Untouched now t a b c d e f g h mark_last chunk (some heartbeat) l k y =
      rw (receive_body, k) (Untouched-refl sid l)
  body-Untouched now t a b c d e f g h mark_last chunk (some full) l k y =
      rw (receive_body, k) (receive_chunk-Untouched now full _ _ _ chunk l y)
  body-Untouched now t a b c d e f g h mark_last chunk (some delta) l k y =
      rw (receive_body, k) (receive_chunk-Untouched now delta _ _ _ chunk l y)

  receive_body-Untouched :
      (now : ℕ) (body : Bytes) (l : Listener F)
      → ltb 9 (length body) ≡ true
      → IsYoung sid now l
      → Untouched sid l (receive_body from_bytes unlocked now other body l)
  receive_body-Untouched now [] l h y = absurd (ground (arith, h))
  receive_body-Untouched now (a ∷ []) l h y = absurd (ground (arith, h))
  receive_body-Untouched now (a ∷ b ∷ []) l h y = absurd (ground (arith, h))
  receive_body-Untouched now (a ∷ b ∷ c ∷ []) l h y = absurd (ground (arith, h))
  receive_body-Untouched now (a ∷ b ∷ c ∷ d ∷ []) l h y = absurd (ground (arith, h))
  receive_body-Untouched now (a ∷ b ∷ c ∷ d ∷ e ∷ []) l h y = absurd (ground (arith, h))
  receive_body-Untouched now (a ∷ b ∷ c ∷ d ∷ e ∷ f ∷ []) l h y = absurd (ground (arith, h))
  receive_body-Untouched now (a ∷ b ∷ c ∷ d ∷ e ∷ f ∷ g ∷ []) l h y = absurd (ground (arith, h))
  receive_body-Untouched now (a ∷ b ∷ c ∷ d ∷ e ∷ f ∷ g ∷ i ∷ []) l h y = absurd (ground (arith, h))
  receive_body-Untouched now (a ∷ b ∷ c ∷ d ∷ e ∷ f ∷ g ∷ i ∷ j ∷ []) l h y =
      absurd (ground (arith, h))
  receive_body-Untouched now (t ∷ a ∷ b ∷ c ∷ d ∷ e ∷ f ∷ g ∷ i ∷ j ∷ chunk) l h y =
      body-Untouched now t a b c d e f g i j chunk (type_of_byte t) l refl y

module _ {F : Type 0} (from_bytes : Bytes → Option F) (unlocked : Bool) (sid : StreamId) where
  -- A datagram of another stream, if no buffer of the stream is too old when it comes.
  pub receive-Untouched :
      (now : ℕ) (buf : Bytes) (l : Listener F)
      → IsForeign sid buf
      → IsYoung sid now l
      → Untouched sid l (receive from_bytes unlocked now buf l)
  unfolding receive
  receive-Untouched now buf l ne y = elim (Bool-cases (ltb (id_len + 10) (length buf))) [
    | inl long ↦ rw long (
        receive_body-Untouched from_bytes unlocked sid (take id_len buf) ne now (drop id_len buf) l
          (ground (arith, long, length-drop id_len buf)) y)
    | inr short ↦ rw short (expire-Untouched sid now l (lookup sid l.fragment_buffers) refl y)
  ]

  -- Any datagrams of other streams, at any times, where the stream has no buffer.
  pub receive_all-Untouched :
      (tr : List (ℕ × Bytes)) (l : Listener F)
      → All (λ (d : ℕ × Bytes). IsForeign sid d.1) tr
      → lookup sid l.fragment_buffers ≡ none
      → Untouched sid l (receive_all from_bytes unlocked tr l)
  unfolding receive_all
  receive_all-Untouched [] l ne gone = Untouched-refl sid l
  receive_all-Untouched ((now, buf) ∷ tr) l (ne, rest) gone =
      let l' = receive from_bytes unlocked now buf l in
      let u = receive-Untouched now buf l ne (record {
        single = omega (arith, buffers_of-none sid l.fragment_buffers gone);
        young = λ fb e. cc;
      }) in
      Untouched-trans sid l l' _ u (receive_all-Untouched tr l' rest (u.held ∙ gone))
