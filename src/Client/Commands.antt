-- ===== src/Client/Commands.antt =====
-- client/src/pre_call_interface.rs and the handshake of client.rs: what the user types before a call,
-- and the request and the answer that a typed command makes.
pub mod Typed
pub mod Words
pub mod Exchange
pub mod Served
pub mod Replies
pub mod Creating
pub mod Announcing
pub mod Joining
pub mod Loop
pub mod Calls
