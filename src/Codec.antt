-- ===== src/Codec.antt =====
-- src/codec.rs: reading responses and building requests, shared by the clients and the server.
pub mod Framing
pub mod Build
pub mod Dechunk
pub mod Parse
