-- ===== src/Protocol.antt =====
-- shared/src: the control protocol that client and server speak over TCP. `Id` is
-- tcp_command_id.rs, `Names` the name rules of lib.rs, `Utf8` the standard library's UTF-8 test that
-- both rely on, `Command` the writer and the reader of tcp_command.rs. The other modules prove.
pub mod Id
pub mod Utf8
pub mod Names
pub mod Command
pub mod Bytes
pub mod RoundTrip
pub mod Texts
pub mod Reader
mod Tests
