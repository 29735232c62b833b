-- ===== src/Server.antt =====
-- server/src: the forwarding unit. `State` is what the tasks of the server share (room.rs, the maps
-- of wes_sfu.rs) together with what belongs to one connection; `Rooms` and `Membership` are the
-- handlers of tcp_command_handler.rs, `Session` the handshake and the loop of tcp_handler.rs and the
-- clean-up of wes_sfu.rs, `Udp` the media plane of udp_handler.rs. The other modules prove.
pub mod State
pub mod Rooms
pub mod Membership
pub mod Keys
pub mod Invariant
pub mod Soundness
pub mod Session
pub mod Users
pub mod Visit
pub mod Lifetime
pub mod Udp
mod Tests
