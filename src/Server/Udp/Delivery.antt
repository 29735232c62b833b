-- ===== src/Server/Udp/Delivery.antt =====
-- No datagram is lost, doubled or made up between the packet loop and the socket: grouping a batch by
-- destination only reorders it.
use mathlib.Core.List.{Perm, perm_middle, perm_append_comm}
use mathlib.Core.List.Perm
use facetime_v.Base.{
  Bool, Bool-cases, Bytes, List, Map, [], ap, append-nil, append_assoc, arith, bytes_instance,
  false, inl, inr, is_empty, leb, length, nat_instance, refl, same, same_iff, sym, true, ℕ, ◌++◌,
  ◌∷◌, ◌≡◌,
}
use facetime_v.Server.State.{SocketAddr}
use facetime_v.Server.Udp.{
  UdpHandler, Datagram, add_packet, should_flush, clear_batch, transmit, send_immediate,
  send_grouped, flush_batch, forward, grouped_datagrams, push_payload, push_datagrams,
  batch_datagrams, addressed, to_destination,
}
use facetime_v.Server.Udp.Batch.{HasRoomInBatch, transmit_same}

to_destination-append :
    (dest : SocketAddr) (ps : List Bytes) (p : Bytes)
    → to_destination dest (ps ++ p ∷ []) ≡ to_destination dest ps ++ (p, dest) ∷ []
to_destination-append dest [] p = refl
to_destination-append dest (q ∷ ps) p =
    ap (λ (r : List Datagram). (q, dest) ∷ r) (to_destination-append dest ps p)

grouped-push_payload :
    (p : Bytes) (dest : SocketAddr) (m : Map SocketAddr (List Bytes))
    → Perm (grouped_datagrams (push_payload p dest m)) ((p, dest) ∷ grouped_datagrams m)
unfolding grouped_datagrams push_payload
grouped-push_payload p dest [] = Perm.refl _
grouped-push_payload p dest ((d, ps) ∷ m) = elim (Bool-cases (same d dest)) [
  | inl e ↦
      let here : d ≡ dest = (same_iff d dest).0 e in
      rw (e, to_destination-append d ps p, append_assoc, ← here)
        (perm_middle (to_destination d ps) (grouped_datagrams m))
  | inr e ↦ rw e (
      Perm.trans (Perm.append_left (to_destination d ps) (grouped-push_payload p dest m))
        (perm_middle (to_destination d ps) (grouped_datagrams m)))
]

grouped-push_datagrams :
    (ds : List Datagram) (m : Map SocketAddr (List Bytes))
    → Perm (grouped_datagrams (push_datagrams ds m)) (grouped_datagrams m ++ ds)
unfolding push_datagrams
grouped-push_datagrams [] m = rw append-nil (Perm.refl _)
grouped-push_datagrams ((p, dest) ∷ ds) m =
    Perm.trans (grouped-push_datagrams ds (push_payload p dest m)) (
      Perm.trans (Perm.append_right ds (grouped-push_payload p dest m))
        (Perm.symm (perm_middle (grouped_datagrams m) ds)))

-- What a flush hands over is the batch, in some order.
pub grouped-perm : (ds : List Datagram) → Perm (grouped_datagrams (push_datagrams ds [])) ds
unfolding grouped_datagrams
grouped-perm ds = grouped-push_datagrams ds []

batch_datagrams-append :
    (xs : List (Bytes × List SocketAddr)) (payload : Bytes) (dests : List SocketAddr)
    → batch_datagrams (xs ++ (payload, dests) ∷ []) ≡ batch_datagrams xs ++ addressed payload dests
unfolding batch_datagrams
batch_datagrams-append [] payload dests = append-nil (addressed payload dests)
batch_datagrams-append ((q, ds) ∷ xs) payload dests =
    rw (batch_datagrams-append xs payload dests, append_assoc) refl

-- The datagrams that were handed to the socket and those that wait in the batch.
abbrev pub in_flight : UdpHandler → List Datagram
in_flight h = h.handed_over ++ batch_datagrams h.packet_batch.packets

module _ (accepts : Datagram → Bool) (now : ℕ) where
  in_flight-transmit :
      (ds : List Datagram) (h : UdpHandler)
      → Perm (in_flight (transmit accepts ds h)) (in_flight h ++ ds)
  in_flight-transmit ds h =
      let (same_batch, _, _, over) = transmit_same accepts ds h in
      let waiting = batch_datagrams h.packet_batch.packets in
      rw
        (
          same_batch,
          over,
          append_assoc h.handed_over ds waiting,
          append_assoc h.handed_over waiting ds,
        )
        (Perm.append_left h.handed_over (perm_append_comm ds waiting))

  abbrev taken : UdpHandler → UdpHandler
  taken h = record h { packet_batch = clear_batch now }

  flush_batch_nothing :
      (h : UdpHandler) → is_empty h.packet_batch.packets ≡ true → flush_batch accepts now h ≡ h
  unfolding flush_batch
  flush_batch_nothing h e = ground arith

  flush_batch_some :
      (h : UdpHandler)
      → h.has_socket ≡ true
      → is_empty h.packet_batch.packets ≡ false
      → flush_batch accepts now h ≡ send_grouped accepts h.packet_batch.packets (taken h)
  unfolding flush_batch
  flush_batch_some h s e = ground arith

  send_grouped-perm :
      (h : UdpHandler)
      → Perm (in_flight (send_grouped accepts h.packet_batch.packets (taken h))) (in_flight h)
  unfolding send_grouped clear_batch batch_datagrams
  send_grouped-perm h =
      let waiting = batch_datagrams h.packet_batch.packets in
      let out = grouped_datagrams (push_datagrams waiting []) in
      Perm.trans (in_flight-transmit out (taken h))
        (rw append-nil (Perm.append_left h.handed_over (grouped-perm waiting)))

  flush_batch-perm :
      (h : UdpHandler)
      → h.has_socket ≡ true
      → Perm (in_flight (flush_batch accepts now h)) (in_flight h)
  flush_batch-perm h s = elim (Bool-cases (is_empty h.packet_batch.packets)) [
    | inl e ↦ rw (flush_batch_nothing h e) (Perm.refl _)
    | inr e ↦ rw (flush_batch_some h s e) (send_grouped-perm h)
  ]

  abbrev enqueued : Bytes → List SocketAddr → UdpHandler → UdpHandler
  enqueued payload to_addrs h = record h {
    packet_batch = add_packet payload to_addrs h.packet_batch;
  }

  in_flight-enqueued :
      (payload : Bytes) (to_addrs : List SocketAddr) (h : UdpHandler)
      → in_flight (enqueued payload to_addrs h) ≡ in_flight h ++ addressed payload to_addrs
  unfolding add_packet
  in_flight-enqueued payload to_addrs h =
      rw (batch_datagrams-append h.packet_batch.packets payload to_addrs) (
        sym (
          append_assoc h.handed_over (batch_datagrams h.packet_batch.packets)
            (addressed payload to_addrs)))

  module _ (payload : Bytes) (a : SocketAddr) (rest : List SocketAddr) (h : UdpHandler)
      (v : HasRoomInBatch h) where
    abbrev dests : List SocketAddr
    dests = a ∷ rest

    forward_few :
        leb (length dests) 3 ≡ true
        → forward accepts now payload dests h ≡ transmit accepts (addressed payload dests) h
    unfolding forward send_immediate
    forward_few few = let b = v.below in ground arith

    forward_flush :
        leb (length dests) 3 ≡ false
        → should_flush now (enqueued payload dests h).packet_batch ≡ true
        → forward accepts now payload dests h ≡ flush_batch accepts now (enqueued payload dests h)
    unfolding forward
    forward_flush many full = let b = v.below in ground arith

    forward_wait :
        leb (length dests) 3 ≡ false
        → should_flush now (enqueued payload dests h).packet_batch ≡ false
        → forward accepts now payload dests h ≡ enqueued payload dests h
    unfolding forward
    forward_wait many free = let b = v.below in ground arith

    forward_cons-perm :
        Perm
          (in_flight (forward accepts now payload dests h))
          (in_flight h ++ addressed payload dests)
    forward_cons-perm = elim (Bool-cases (leb (length dests) 3)) [
      | inl few ↦ rw (forward_few few) (in_flight-transmit (addressed payload dests) h)
      | inr many ↦ elim (Bool-cases (should_flush now (enqueued payload dests h).packet_batch)) [
        | inl full ↦
            rw (forward_flush many full, ← in_flight-enqueued payload dests h)
              (flush_batch-perm (enqueued payload dests h) v.socket)
        | inr free ↦ rw (forward_wait many free, in_flight-enqueued payload dests h) (Perm.refl _)
      ]
    ]

  pub forward-perm :
      (payload : Bytes) (to_addrs : List SocketAddr) (h : UdpHandler)
      → HasRoomInBatch h
      → Perm
          (in_flight (forward accepts now payload to_addrs h))
          (in_flight h ++ addressed payload to_addrs)
  forward-perm payload [] h v = rw append-nil (unfold forward in Perm.refl _)
  forward-perm payload (a ∷ rest) h v = forward_cons-perm payload a rest h v
