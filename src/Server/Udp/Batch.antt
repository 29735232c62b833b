-- ===== src/Server/Udp/Batch.antt =====
-- The batch never grows past its size, so the test for back pressure never holds.
use facetime_v.Base.{
  Bool, Bool-cases, Bytes, List, Option, [], arith, bytes_instance, false, inl, inr, length,
  length-append, lookup, ltb, nat_instance, none, some, take, true, ℕ, ◌++◌, ◌+◌, ◌<◌, ◌∷◌, ◌≡◌,
}
use facetime_v.Server.State.{SocketAddr, Room}
use facetime_v.Server.Udp.{
  id_len, dispatch, min_packet_size, admit, UdpHandler, Datagram, PacketBatch, batch_size,
  add_packet, should_flush, clear_batch, transmit, send_immediate, send_grouped, flush_batch,
  forward, route, handle_packet, count_dropped, count_received, grouped_datagrams, push_datagrams,
  batch_datagrams, addressed, other_addrs,
}
use facetime_v.Protocol.Names.{id_len}

abbrev pub batched : UdpHandler → ℕ
batched h = length h.packet_batch.packets

-- The flush has a socket to send on, and the batch is below its size.
pub record HasRoomInBatch (h : UdpHandler) : Type 0 where
  pub socket : h.has_socket ≡ true
  pub below : batched h < batch_size

-- Sending changes neither the batch nor the socket nor the rooms.
pub transmit_same :
    (accepts : Datagram → Bool) (ds : List Datagram) (h : UdpHandler)
    → ((transmit accepts ds h).packet_batch ≡ h.packet_batch)
      × ((transmit accepts ds h).has_socket ≡ h.has_socket)
      × ((transmit accepts ds h).room_map ≡ h.room_map)
      × ((transmit accepts ds h).handed_over ≡ h.handed_over ++ ds)
unfolding transmit
transmit_same accepts ds h = ground arith

length-add_packet :
    (payload : Bytes) (dests : List SocketAddr) (b : PacketBatch)
    → length (add_packet payload dests b).packets ≡ length b.packets + 1
unfolding add_packet
length-add_packet payload dests b = length-append b.packets ((payload, dests) ∷ [])

module _ (accepts : Datagram → Bool) (now : ℕ) where
  flush_batch-empties :
      (h : UdpHandler)
      → h.has_socket ≡ true
      → (batched (flush_batch accepts now h) ≡ 0) × ((flush_batch accepts now h).has_socket ≡ true)
  unfolding flush_batch send_grouped clear_batch
  flush_batch-empties h s = ground (
    arith,
    transmit_same accepts
        (grouped_datagrams (push_datagrams (batch_datagrams h.packet_batch.packets) []))
        (record h { packet_batch = clear_batch now }),
  )

  pub forward-HasRoomInBatch :
      (payload : Bytes) (to_addrs : List SocketAddr) (h : UdpHandler)
      → HasRoomInBatch h
      → HasRoomInBatch (forward accepts now payload to_addrs h)
  unfolding forward send_immediate count_dropped should_flush
  forward-HasRoomInBatch payload to_addrs h v = ground (
    arith,
    flush_batch-empties (record h { packet_batch = add_packet payload to_addrs h.packet_batch }),
    length-add_packet payload to_addrs h.packet_batch,
    transmit_same accepts (addressed payload to_addrs) h,
  )

  route-HasRoomInBatch :
      (payload : Bytes) (from_addr : SocketAddr) (rid sid : Bytes) (o : Option Room)
      (h : UdpHandler)
      → HasRoomInBatch h
      → HasRoomInBatch (route accepts now payload from_addr rid sid o h)
  unfolding route
  route-HasRoomInBatch payload from_addr rid sid none h v = v
  route-HasRoomInBatch payload from_addr rid sid (some room) h v =
      forward-HasRoomInBatch payload (other_addrs sid room.stream_id_to_socket_addr) _
        (record { socket = v.socket; below = v.below })

  dispatch-HasRoomInBatch :
      (buf : Bytes) (from_addr : SocketAddr) (h : UdpHandler)
      → HasRoomInBatch h
      → HasRoomInBatch (dispatch accepts now buf from_addr h)
  unfolding dispatch
  dispatch-HasRoomInBatch buf from_addr h v =
      route-HasRoomInBatch _ from_addr _ _ (lookup (take id_len buf) h.room_map) h v

  admit-HasRoomInBatch :
      (buf : Bytes) (from_addr : SocketAddr) (allowed : Bool) (h : UdpHandler)
      → HasRoomInBatch h
      → HasRoomInBatch (admit accepts now buf from_addr allowed h)
  unfolding admit count_dropped
  admit-HasRoomInBatch buf from_addr true h v = dispatch-HasRoomInBatch buf from_addr h v
  admit-HasRoomInBatch buf from_addr false h v = record { socket = v.socket; below = v.below }

  -- A handler with a socket and fewer than 32 packets in its batch is again such a handler after any
  -- packet, at any time and from any address.
  pub handle_packet-HasRoomInBatch :
      (buf : Bytes) (from_addr : SocketAddr) (h : UdpHandler)
      → HasRoomInBatch h
      → HasRoomInBatch (handle_packet accepts now buf from_addr h)
  unfolding handle_packet count_received
  handle_packet-HasRoomInBatch buf from_addr h v =
      elim (Bool-cases (ltb (length buf) min_packet_size)) [
        | inl short ↦ rw short (record { socket = v.socket; below = v.below })
        | inr long ↦
            rw long (
              admit-HasRoomInBatch buf from_addr _ _
                (record { socket = v.socket; below = v.below }))
      ]
