-- ===== src/Tests.antt =====
-- Runs of the models on concrete inputs, and the theorems at concrete inputs.
pub mod Wire
pub mod Dechunking
pub mod Client
pub mod Server
pub mod Request
pub mod Status
pub mod Answer
pub mod Exchange
pub mod Smoltcp
pub mod Tls
pub mod Handled
pub mod Embassy
