-- ===== src/Connection.antt =====
-- src/http2/connection.js, the HTTP/2 connection: its state, its operations and their runs.
pub mod State
pub mod Teardown
pub mod Announced
pub mod Fields
pub mod Sending
pub mod Consuming
pub mod Receiving
pub mod Running
pub mod Preserving
pub mod Soundness
pub mod Budget
pub mod Credit
pub mod Guarantees
pub mod Framing
pub mod Uploading
pub mod Refusals
