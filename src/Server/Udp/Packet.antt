-- ===== src/Server/Udp/Packet.antt =====
-- What one packet does, on every path through `handle_packet`.
use mathlib.Core.List.{Perm}
use mathlib.Core.List.Perm
use facetime_v.Base.{
  Bool, Bool-cases, Bytes, List, Map, Option, [], ap, append-nil, arith, bytes_instance, drop,
  drop-drop, false, if◌then◌else◌, inl, inr, leb, length, lookup, ltb, map, nat_instance, none, not,
  refl, retain, same, some, take, take-append-drop, true, ℕ, ◌++◌, ◌+◌, ◌-◌, ◌||◌, ◌∷◌, ◌≡◌,
}
use facetime_v.Protocol.Names.{StreamId, id_len}
use facetime_v.Server.State.{SocketAddr, Room, RoomMap}
use facetime_v.Server.Udp.{
  max_packets_per_second, rate_limit_window, ClientStats, current_window, UdpHandler, Datagram,
  route, dispatch, admit, handle_packet, count_dropped, count_received, addressed, check_rate_limit,
  other_addrs, min_packet_size,
}
use facetime_v.Server.Udp.Batch.{HasRoomInBatch}
use facetime_v.Server.Udp.Delivery.{in_flight, forward-perm}
use facetime_v.Server.Udp.Stats.{
  max_packets_per_second, rate_limit_window, current_window, ClientStats,
}

-- The streams of a room but one, and the addresses that are known.
abbrev pub other_streams :
    StreamId → Map StreamId (Option SocketAddr) → Map StreamId (Option SocketAddr)
other_streams sid m = retain (λ entry. not (same entry.0 sid)) m

abbrev pub known : Map StreamId (Option SocketAddr) → List SocketAddr
known [] = []
known ((sid, none) ∷ m) = known m
known ((sid, some addr) ∷ m) = addr ∷ known m

-- Less than 5000 packets of an address were counted in its window, or the window is over.
abbrev pub is_within_rate : ℕ → Option ClientStats → Bool
is_within_rate now none = true
is_within_rate now (some c) =
    leb rate_limit_window (now - c.rate_window_start) || ltb c.packet_count max_packets_per_second

-- The copies that a packet asks for: none from a packet that is short, over the rate, or for a room
-- that is not there; else what stands behind the room identifier, to the known address of each stream
-- of the room but the one that the packet names.
abbrev pub copies_in : Bytes → Option Room → List Datagram
copies_in buf none = []
copies_in buf (some room) =
    map (λ addr. (drop id_len buf, addr))
      (known (other_streams (take id_len (drop id_len buf)) room.stream_id_to_socket_addr))

abbrev pub copies_if : Bool → Bytes → RoomMap → List Datagram
copies_if true buf m = copies_in buf (lookup (take id_len buf) m)
copies_if false buf m = []

abbrev pub copies : ℕ → Bytes → SocketAddr → UdpHandler → List Datagram
copies now buf from_addr h =
    if ltb (length buf) min_packet_size
    then []
    else copies_if (is_within_rate now (lookup from_addr h.client_stats)) buf h.room_map

other_addrs-known :
    (sid : StreamId) (m : Map StreamId (Option SocketAddr))
    → other_addrs sid m ≡ known (other_streams sid m)
unfolding other_addrs
other_addrs-known sid [] = refl
other_addrs-known sid ((to_sid, none) ∷ m) = elim (Bool-cases (same to_sid sid)) [
  | inl e ↦ rw e (other_addrs-known sid m)
  | inr e ↦ rw e (other_addrs-known sid m)
]
other_addrs-known sid ((to_sid, some addr) ∷ m) = elim (Bool-cases (same to_sid sid)) [
  | inl e ↦ rw e (other_addrs-known sid m)
  | inr e ↦ rw e (ap (λ (addrs : List SocketAddr). addr ∷ addrs) (other_addrs-known sid m))
]

addressed-map :
    (payload : Bytes) (addrs : List SocketAddr)
    → addressed payload addrs ≡ map (λ addr. (payload, addr)) addrs
addressed-map payload [] = refl
addressed-map payload (addr ∷ addrs) =
    ap (λ (ds : List Datagram). (payload, addr) ∷ ds) (addressed-map payload addrs)

check_rate_limit-within :
    (now : ℕ) (addr : SocketAddr) (clients : Map SocketAddr ClientStats) (o : Option ClientStats)
    → lookup addr clients ≡ o
    → (check_rate_limit now addr clients).0 ≡ is_within_rate now o
unfolding check_rate_limit current_window
check_rate_limit-within now addr clients none e = ground (arith, e)
check_rate_limit-within now addr clients (some c) e = ground (arith, e)

-- The stream identifier and the body are the packet without the room identifier.
payload_cut :
    (buf : Bytes) → take id_len (drop id_len buf) ++ drop (id_len + id_len) buf ≡ drop id_len buf
payload_cut buf = rw (← drop-drop id_len id_len buf) (take-append-drop id_len (drop id_len buf))

module _ (accepts : Datagram → Bool) (now : ℕ) (buf : Bytes) (from_addr : SocketAddr) where
  dispatch-perm :
      (o : Option Room) (h : UdpHandler)
      → HasRoomInBatch h
      → Perm
          (in_flight (
            route accepts now
              (take id_len (drop id_len buf) ++ drop (id_len + id_len) buf)
              from_addr
              (take id_len buf)
              (take id_len (drop id_len buf))
              o
              h))
          (in_flight h ++ copies_in buf o)
  unfolding route
  dispatch-perm none h v = rw append-nil (Perm.refl _)
  dispatch-perm (some room) h v =
      rw
        (
          payload_cut buf,
          ← other_addrs-known (take id_len (drop id_len buf)) room.stream_id_to_socket_addr,
          ← addressed-map (drop id_len buf)
              (other_addrs (take id_len (drop id_len buf)) room.stream_id_to_socket_addr),
        )
        (forward-perm accepts now (drop id_len buf)
          (other_addrs (take id_len (drop id_len buf)) room.stream_id_to_socket_addr) _
          (record { socket = v.socket; below = v.below }))

  admit-perm :
      (allowed : Bool) (h : UdpHandler)
      → HasRoomInBatch h
      → Perm
          (in_flight (admit accepts now buf from_addr allowed h))
          (in_flight h ++ copies_if allowed buf h.room_map)
  unfolding admit dispatch count_dropped
  admit-perm true h v = dispatch-perm (lookup (take id_len buf) h.room_map) h v
  admit-perm false h v = rw append-nil (Perm.refl _)

  -- With a socket and room in the batch, what is handed over or waits after a packet is, up to order,
  -- what was before together with the packet's copies, each once: one to the known address of each
  -- stream of its room but the one that the packet names, and none from a packet that is short, for a
  -- missing room, or from an address with 5000 packets in its window. Nothing is lost to the batch or
  -- to back pressure, and nothing is doubled or made up.
  pub handle_packet-delivers :
      (h : UdpHandler)
      → HasRoomInBatch h
      → Perm
          (in_flight (handle_packet accepts now buf from_addr h))
          (in_flight h ++ copies now buf from_addr h)
  unfolding handle_packet count_received
  handle_packet-delivers h v = elim (Bool-cases (ltb (length buf) min_packet_size)) [
    | inl short ↦ rw (short, append-nil) (Perm.refl _)
    | inr long ↦
        let rate = check_rate_limit-within now from_addr h.client_stats _ refl in
        rw (long, ← rate)
          (admit-perm (check_rate_limit now from_addr h.client_stats).0 _
            (record { socket = v.socket; below = v.below }))
  ]
