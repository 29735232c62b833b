-- ===== src/Server/Udp/Limit.antt =====
-- The rate limit of a client over any run of its packets.
use facetime_v.Base.{
  All, List, Map, [], arith, bytes_instance, if◌then◌else◌, leb, length, lookup, lookup-insert, min,
  nat_instance, refl, same_refl, some, ℕ, ◌+◌, ◌-◌, ◌<◌, ◌∷◌, ◌≡◌,
}
use facetime_v.Server.State.{SocketAddr}
use facetime_v.Server.Udp.{
  ClientStats, check_rate_limit, current_window, rate_limit_window, max_packets_per_second,
}

-- How many packets of one address are let through, at the given times.
pub accepted : SocketAddr → List ℕ → Map SocketAddr ClientStats → ℕ
accepted addr [] clients = 0
accepted addr (now ∷ times) clients =
    let (allowed, clients') = check_rate_limit now addr clients in
    let rest = accepted addr times clients' in if allowed then rest + 1 else rest

-- The address has used `count` packets of a window that began at `start`.
abbrev pub InWindow : SocketAddr → ℕ → ℕ → Map SocketAddr ClientStats → Type 0
InWindow addr start count clients =
    (c : ClientStats) × (lookup addr clients ≡ some c)
    × (c.rate_window_start ≡ start)
    × (c.packet_count ≡ count)

check_rate_limit-InWindow :
    (now : ℕ) (addr : SocketAddr) (start count : ℕ) (clients : Map SocketAddr ClientStats)
    → InWindow addr start count clients
    → now - start < rate_limit_window
    → ((check_rate_limit now addr clients).0 ≡ leb (count + 1) max_packets_per_second)
      × InWindow addr start (count + 1) (check_rate_limit now addr clients).1
unfolding check_rate_limit current_window
check_rate_limit-InWindow now addr start count clients (c, e, es, ec) h =
    let used : ClientStats = record {
      last_seen = now;
      packet_count = count + 1;
      rate_window_start = start;
    } in
    (
      ground (arith, e),
      (used, ground (arith, e, lookup-insert addr addr used clients, same_refl addr), refl, refl),
    )

-- Of the packets that an address sends within one second of the start of its window, exactly the
-- first ones are let through, up to 5000 with those already counted.
pub accepted-InWindow :
    (addr : SocketAddr) (start count : ℕ) (times : List ℕ) (clients : Map SocketAddr ClientStats)
    → InWindow addr start count clients
    → All (λ now. now - start < rate_limit_window) times
    → accepted addr times clients ≡ min (length times) (max_packets_per_second - count)
unfolding accepted
accepted-InWindow addr start count [] clients w h = omega arith
accepted-InWindow addr start count (now ∷ times) clients w h =
    let (allowed, w') = check_rate_limit-InWindow now addr start count clients w h.0 in
    ground (
      arith,
      allowed,
      accepted-InWindow addr start (count + 1) times (check_rate_limit now addr clients).1 w' h.1,
    )
