-- ===== src/Rudp.antt =====
-- src/rudp.rs: reliable datagrams over UDP. The children are the parts of that file.
pub mod Packet
pub mod Codec
pub mod State
pub mod Acks
pub mod Create
pub mod Send
pub mod Fragments
pub mod Ordered
pub mod Receive
pub mod Timers
pub mod Queue
pub mod Profile
pub mod Socket
mod Tests
