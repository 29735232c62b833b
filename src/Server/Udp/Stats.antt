-- ===== src/Server/Udp/Stats.antt =====
-- server/src/udp_handler.rs: the constants, the state of the handler, its batch and its counters, and
-- the rate limit.
use facetime_v.Base.{
  Bool, Bytes, List, Map, Option, [], add64, bytes_instance, if◌then◌else◌, insert, is_empty, leb,
  length, lookup, nat_instance, none, not, some, ℕ, ◌&&◌, ◌++◌, ◌+◌, ◌-◌, ◌||◌, ◌∷◌,
}
use facetime_v.Server.State.{RoomMap, SocketAddr}

abbrev pub batch_size : ℕ
batch_size = 32

abbrev pub batch_timeout : ℕ
batch_timeout = 1_000_000

abbrev pub rate_limit_window : ℕ
rate_limit_window = 1_000_000_000

abbrev pub max_packets_per_second : ℕ
max_packets_per_second = 5000

abbrev pub backpressure_threshold : ℕ
backpressure_threshold = 500

abbrev pub inactive_after : ℕ
inactive_after = 300_000_000_000

abbrev pub Datagram : Type 0
Datagram = Bytes × SocketAddr

pub record ClientStats : Type 0 where
  pub last_seen : ℕ
  pub packet_count : ℕ
  pub rate_window_start : ℕ

pub record PacketBatch : Type 0 where
  pub packets : List (Bytes × List SocketAddr)
  pub last_flush : ℕ

pub record ServerStats : Type 0 where
  pub packets_received : ℕ
  pub packets_forwarded : ℕ
  pub packets_dropped : ℕ

pub record UdpHandler : Type 0 where
  pub client_stats : Map SocketAddr ClientStats
  pub packet_batch : PacketBatch
  pub stats : ServerStats
  pub has_socket : Bool
  pub room_map : RoomMap
  pub handed_over : List Datagram

unfoldable pub should_flush : ℕ → PacketBatch → Bool
should_flush now batch =
    leb batch_size (length batch.packets)
    || (not (is_empty batch.packets) && leb batch_timeout (now - batch.last_flush))

unfoldable pub add_packet : Bytes → List SocketAddr → PacketBatch → PacketBatch
add_packet payload destinations batch = record batch {
  packets = batch.packets ++ (payload, destinations) ∷ [];
}

unfoldable pub clear_batch : ℕ → PacketBatch
clear_batch now = record { packets = []; last_flush = now }

-- The counters, on u64.
unfoldable pub count_received : UdpHandler → UdpHandler
count_received h = record h {
  stats = record h.stats { packets_received = add64 h.stats.packets_received 1 };
}

unfoldable pub count_dropped : UdpHandler → UdpHandler
count_dropped h = record h {
  stats = record h.stats { packets_dropped = add64 h.stats.packets_dropped 1 };
}

-- The entry of the sender, made if it is missing, and with a new window if the old one is over.
unfoldable pub current_window : ℕ → Option ClientStats → ClientStats
current_window now none = record { last_seen = now; packet_count = 0; rate_window_start = now }
current_window now (some c) =
    if leb rate_limit_window (now - c.rate_window_start)
    then record c { packet_count = 0; rate_window_start = now }
    else c

unfoldable pub check_rate_limit :
    ℕ → SocketAddr → Map SocketAddr ClientStats → Bool × Map SocketAddr ClientStats
check_rate_limit now addr clients =
    let client = current_window now (lookup addr clients) in
    let count = client.packet_count + 1 in
    (
      leb count max_packets_per_second,
      insert addr (record client { packet_count = count; last_seen = now }) clients,
    )
