-- ===== src/Client.antt =====
-- client/src: the parts of the client that compute. `Delta` is the delta coding of frames in
-- udp_handler.rs, `Send` and `Receive` are its two loops, `Stream` puts these together, and `Frame` is
-- the form of a frame as bytes in frame.rs. `Camera`, `Display` and `Commands` are the client before a
-- call: camera.rs, cli_display.rs and pre_call_interface.rs. `Visible`, `Ascii` and `Layout` are the
-- drawing of frames in frame.rs, `Renderer` is renderer.rs and `Call` the loops of call_interface.rs.
pub mod Delta
pub mod Frame
pub mod Send
pub mod Receive
pub mod Stream
pub mod Camera
pub mod Display
pub mod Commands
pub mod Visible
pub mod Ascii
pub mod Layout
pub mod Renderer
pub mod Call
mod Tests
mod CallTests
mod StreamTests
