-- ===== src/Server/Udp/Routing.antt =====
-- Who gets the packets of a stream, and which packets tell the address of a stream.
use facetime_v.Base.{
  Bool-cases, Distinct, Map, Option, [], any, arith, bytes_instance, false, if◌then◌else◌, inl, inr,
  keys, lookup, lookup-insert, nat_instance, none, not, same, same_iff, same_refl, some, true, ◌&&◌,
  ◌↔◌, ◌∷◌, ◌≡◌,
}
use facetime_v.Protocol.Names.{StreamId}
use facetime_v.Server.State.{SocketAddr, Room}
use facetime_v.Server.Udp.{other_addrs, learn_address, needs_update, set_if_none}

abbrev pub Gets : SocketAddr → StreamId → Map StreamId (Option SocketAddr) → Type 0
Gets a sid m = (other : StreamId) × (same other sid ≡ false) × (lookup other m ≡ some (some a))

any-other_addrs :
    (a : SocketAddr) (sid other : StreamId) (m : Map StreamId (Option SocketAddr))
    → same other sid ≡ false
    → lookup other m ≡ some (some a)
    → any (λ b. same b a) (other_addrs sid m) ≡ true
unfolding other_addrs lookup
any-other_addrs a sid other [] h e = cc
any-other_addrs a sid other ((to_sid, none) ∷ m) h e =
    ground (arith, any-other_addrs a sid other m h)
any-other_addrs a sid other ((to_sid, some b) ∷ m) h e = ground (
  arith,
  any-other_addrs a sid other m h,
  same_iff to_sid other,
  same_iff to_sid sid,
  same_refl a,
)

lookup-fresh :
    (j other : StreamId) (v : Option SocketAddr) (m : Map StreamId (Option SocketAddr))
    → any (λ k. same k j) (keys m) ≡ false
    → lookup other m ≡ some v
    → same j other ≡ false
unfolding lookup
lookup-fresh j other v [] h e = cc
lookup-fresh j other v ((k, w) ∷ m) h e =
    ground (arith, same_iff k other, same_iff j other, same_iff k j, lookup-fresh j other v m)

any→Gets :
    (a : SocketAddr) (sid : StreamId) (m : Map StreamId (Option SocketAddr))
    → Distinct (keys m)
    → any (λ b. same b a) (other_addrs sid m) ≡ true
    → Gets a sid m
unfolding other_addrs lookup
any→Gets a sid [] d h = cc
any→Gets a sid ((k, none) ∷ m) d h =
    let (other, ne, e) = any→Gets a sid m d.1 h in
    (other, ne, ground (arith, lookup-fresh k other (some a) m d.0 e))
any→Gets a sid ((k, some b) ∷ m) d h = elim (Bool-cases (not (same k sid) && same b a)) [
  | inl hit ↦ (k, ground arith, ground (arith, same_refl k, same_iff b a))
  | inr miss ↦
      let (other, ne, e) = any→Gets a sid m d.1 (ground arith) in
      (other, ne, ground (arith, lookup-fresh k other (some a) m d.0 e))
]

-- An address is among the destinations of a stream's packet exactly when another stream of the room
-- has it: never through the sender's own stream, and through no other room.
pub other_addrs_iff :
    (a : SocketAddr) (sid : StreamId) (m : Map StreamId (Option SocketAddr))
    → Distinct (keys m)
    → (any (λ b. same b a) (other_addrs sid m) ≡ true) ↔ Gets a sid m
other_addrs_iff a sid m d =
    (any→Gets a sid m d, λ (other, ne, e). any-other_addrs a sid other m ne e)

-- What a packet makes of the entry of its own stream.
abbrev pub learned : SocketAddr → Option (Option SocketAddr) → Option (Option SocketAddr)
learned from_addr none = none
learned from_addr (some none) = some (some from_addr)
learned from_addr (some (some a)) = some (some a)

-- A stream's address is the one that its first packet comes from: it is set once and never replaced,
-- a stream that the room does not have is not added, and no other stream's entry changes.
pub learn_address_lem :
    (from_addr : SocketAddr) (sid other : StreamId) (room : Room)
    → lookup other (learn_address from_addr sid room).stream_id_to_socket_addr ≡ (
        if same sid other
        then learned from_addr (lookup sid room.stream_id_to_socket_addr)
        else lookup other room.stream_id_to_socket_addr)
unfolding learn_address needs_update set_if_none
learn_address_lem from_addr sid other room = ground (
  arith,
  same_iff sid other,
  lookup-insert sid other (some from_addr) room.stream_id_to_socket_addr,
)
