-- ===== src/Examples.antt =====
-- Runs on concrete data, and each theorem of the results at a concrete input.
mod Streams
mod Protocol
mod Certificates
mod Messages
mod Proxies
mod Stores
mod Names
pub mod Connections
mod Uploads
