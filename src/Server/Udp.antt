-- ===== src/Server/Udp.antt =====
-- server/src/udp_handler.rs: the media plane. A packet is a room identifier, a stream identifier and
-- a body; the body goes, behind the stream identifier, to the addresses of the room's other streams.
-- Time is an argument, in nanoseconds; a socket is what was handed to `send_to`, and `accepts` says
-- which of these calls succeed. The packet loop and the flush task are steps of one state: each
-- holds the locks for its blocks.
mod Stats
pub mod Batch
pub mod Delivery
pub mod Packet
pub mod Limit
pub mod Routing
unfoldable pub use Stats.*
use facetime_v.Base.{
  Bool, Bytes, List, Map, Option, [], add64, bytes_instance, drop, false, if◌then◌else◌, insert,
  is_empty, leb, length, lookup, ltb, nat_instance, none, not, retain, same, some, take, true, ℕ,
  ◌++◌, ◌+◌, ◌-◌, ◌||◌, ◌∷◌,
}
use facetime_v.Protocol.Names.{RoomId, StreamId, id_len}
use facetime_v.Server.State.{Room, RoomMap, SocketAddr}

-- The addresses of the streams other than `sid`, where they are known.
unfoldable pub other_addrs : StreamId → Map StreamId (Option SocketAddr) → List SocketAddr
other_addrs sid [] = []
other_addrs sid ((to_sid, none) ∷ m) = other_addrs sid m
other_addrs sid ((to_sid, some to_addr) ∷ m) =
    if not (same to_sid sid) then to_addr ∷ other_addrs sid m else other_addrs sid m

-- `stream_map.get(&sid).map_or(true, |entry| entry.is_none())`.
unfoldable pub needs_update : Option (Option SocketAddr) → Bool
needs_update none = true
needs_update (some none) = true
needs_update (some (some addr)) = false

-- `if let Some(entry) = stream_map.get_mut(&sid) { if entry.is_none() { *entry = Some(from_addr) } }`
unfoldable pub set_if_none :
    SocketAddr
    → StreamId
    → Option (Option SocketAddr)
    → Map StreamId (Option SocketAddr)
    → Map StreamId (Option SocketAddr)
set_if_none from_addr sid (some none) m = insert sid (some from_addr) m
set_if_none from_addr sid _ m = m

-- The first packet of a stream tells its address.
unfoldable pub learn_address : SocketAddr → StreamId → Room → Room
learn_address from_addr sid room =
    let m = room.stream_id_to_socket_addr in
    if needs_update (lookup sid m)
    then record room { stream_id_to_socket_addr = set_if_none from_addr sid (lookup sid m) m }
    else room

-- `socket.send_to` at each datagram in turn: how many succeeded and how many failed.
unfoldable pub send_each : (Datagram → Bool) → List Datagram → ℕ × ℕ
send_each accepts [] = (0, 0)
send_each accepts (d ∷ ds) =
    let (forwarded, dropped) = send_each accepts ds in
    if accepts d then (forwarded + 1, dropped) else (forwarded, dropped + 1)

-- The loop over the datagrams, with the counters behind it.
unfoldable pub transmit : (Datagram → Bool) → List Datagram → UdpHandler → UdpHandler
transmit accepts ds h =
    let (forwarded, dropped) = send_each accepts ds in
    let h' = record h { handed_over = h.handed_over ++ ds } in
    if ltb 0 forwarded || ltb 0 dropped
    then record h' {
      stats = record h.stats {
        packets_forwarded = add64 h.stats.packets_forwarded forwarded;
        packets_dropped = add64 h.stats.packets_dropped dropped;
      };
    }
    else h'

abbrev pub addressed : Bytes → List SocketAddr → List Datagram
addressed payload [] = []
addressed payload (dest ∷ dests) = (payload, dest) ∷ addressed payload dests

unfoldable pub send_immediate :
    (Datagram → Bool) → Bytes → List SocketAddr → UdpHandler → UdpHandler
send_immediate accepts payload destinations = transmit accepts (addressed payload destinations)

-- `by_destination.entry(dest).or_default().push(payload.clone())`.
unfoldable pub push_payload :
    Bytes → SocketAddr → Map SocketAddr (List Bytes) → Map SocketAddr (List Bytes)
push_payload payload dest [] = (dest, payload ∷ []) ∷ []
push_payload payload dest ((d, ps) ∷ m) =
    if same d dest then (d, ps ++ payload ∷ []) ∷ m else (d, ps) ∷ push_payload payload dest m

unfoldable pub push_datagrams :
    List Datagram → Map SocketAddr (List Bytes) → Map SocketAddr (List Bytes)
push_datagrams [] m = m
push_datagrams ((payload, dest) ∷ ds) m = push_datagrams ds (push_payload payload dest m)

-- The two loops over the batch, in order.
unfoldable pub batch_datagrams : List (Bytes × List SocketAddr) → List Datagram
batch_datagrams [] = []
batch_datagrams ((payload, destinations) ∷ packets) =
    addressed payload destinations ++ batch_datagrams packets

abbrev pub to_destination : SocketAddr → List Bytes → List Datagram
to_destination dest [] = []
to_destination dest (p ∷ ps) = (p, dest) ∷ to_destination dest ps

-- The two loops over the groups.
unfoldable pub grouped_datagrams : Map SocketAddr (List Bytes) → List Datagram
grouped_datagrams [] = []
grouped_datagrams ((dest, payloads) ∷ m) = to_destination dest payloads ++ grouped_datagrams m

-- What both flushes do with a batch that they take.
unfoldable pub send_grouped :
    (Datagram → Bool) → List (Bytes × List SocketAddr) → UdpHandler → UdpHandler
send_grouped accepts packets =
    transmit accepts (grouped_datagrams (push_datagrams (batch_datagrams packets) []))

unfoldable pub flush_batch : (Datagram → Bool) → ℕ → UdpHandler → UdpHandler
flush_batch accepts now h =
    if not h.has_socket
    then h
    else if is_empty h.packet_batch.packets
    then h
    else send_grouped accepts h.packet_batch.packets (record h { packet_batch = clear_batch now })

-- One tick of the flush task; it holds the socket itself.
unfoldable pub flush_tick : (Datagram → Bool) → ℕ → UdpHandler → UdpHandler
flush_tick accepts now h =
    if is_empty h.packet_batch.packets || not (should_flush now h.packet_batch)
    then h
    else send_grouped accepts h.packet_batch.packets (record h { packet_batch = clear_batch now })

-- One tick of the cleanup task.
unfoldable pub cleanup_tick : ℕ → UdpHandler → UdpHandler
cleanup_tick now h = record h {
  client_stats = retain (λ e. ltb (now - (e.1).last_seen) inactive_after) h.client_stats;
}

-- A packet for several destinations goes out at once if they are at most three, else by the batch.
unfoldable pub forward : (Datagram → Bool) → ℕ → Bytes → List SocketAddr → UdpHandler → UdpHandler
forward accepts now payload to_addrs h =
    if is_empty to_addrs
    then h
    else if leb backpressure_threshold (length h.packet_batch.packets)
    then count_dropped h
    else if leb (length to_addrs) 3
    then send_immediate accepts payload to_addrs h
    else let batched = record h { packet_batch = add_packet payload to_addrs h.packet_batch } in
      if should_flush now batched.packet_batch then flush_batch accepts now batched else batched

-- The part behind the two identifiers; the room is looked up first.
unfoldable pub route :
    (Datagram → Bool)
    → ℕ
    → Bytes
    → SocketAddr
    → RoomId
    → StreamId
    → Option Room
    → UdpHandler
    → UdpHandler
route accepts now payload from_addr rid sid none h = h
route accepts now payload from_addr rid sid (some room) h =
    forward accepts now payload (other_addrs sid room.stream_id_to_socket_addr)
      (record h { room_map = insert rid (learn_address from_addr sid room) h.room_map })

abbrev pub min_packet_size : ℕ
min_packet_size = id_len + id_len + 1

-- The packet is cut into the two identifiers and the body.
unfoldable pub dispatch : (Datagram → Bool) → ℕ → Bytes → SocketAddr → UdpHandler → UdpHandler
dispatch accepts now buf from_addr h =
    let rid = take id_len buf in
    let sid = take id_len (drop id_len buf) in
    route accepts now (sid ++ drop (id_len + id_len) buf) from_addr rid sid (lookup rid h.room_map)
      h

-- Behind the rate limit.
unfoldable pub admit : (Datagram → Bool) → ℕ → Bytes → SocketAddr → Bool → UdpHandler → UdpHandler
admit accepts now buf from_addr allowed h =
    if not allowed then count_dropped h else dispatch accepts now buf from_addr h

unfoldable pub handle_packet : (Datagram → Bool) → ℕ → Bytes → SocketAddr → UdpHandler → UdpHandler
handle_packet accepts now buf from_addr h =
    let counted = count_received h in
    if ltb (length buf) min_packet_size
    then counted
    else let (allowed, clients) = check_rate_limit now from_addr counted.client_stats in
      admit accepts now buf from_addr allowed (record counted { client_stats = clients })
