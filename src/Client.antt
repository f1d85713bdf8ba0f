-- ===== src/Client.antt =====
-- rust/haiai/src/client.rs
pub mod Auth
pub mod Body
pub mod Setup
pub mod Sse
pub mod Retry
pub mod Reconnect
pub mod Keys
pub mod Origin
pub mod Live
pub mod Feed
pub mod Streams
