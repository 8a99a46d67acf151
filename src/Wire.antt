-- ===== src/Wire.antt =====
-- From a writer to the other side's reader: a response from `build_bytes` to `parse_resp`, and a
-- request from `build_req` to `HttpRequest::try_from`.
pub mod Lines
pub mod RoundTrip
pub mod Sent
pub mod Request
pub mod Declared
pub mod Handled
pub mod Stated
pub mod Answer
pub mod Exchange
pub mod Pieces
