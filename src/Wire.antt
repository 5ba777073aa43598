-- ===== src/Wire.antt =====
-- src/tls/wire.js: the bounded reader and the writer of length-prefixed vectors.
pub mod Cursor
pub mod Builder
pub mod Bounds
pub mod RoundTrip
