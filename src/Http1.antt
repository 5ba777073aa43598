-- ===== src/Http1.antt =====
-- src/http1: the heads and bodies of HTTP/1.1 responses.
pub mod Fields
pub mod Chunked
pub mod Lines
pub mod Response
pub mod Request
pub mod Sending
pub mod Agreement
pub mod RequestHeads
pub mod Bodies
pub mod Framing
pub mod Counting
pub mod Decoding
pub mod Draining
