-- ===== src/IrohRelay.antt =====
-- The multiplexed streams of p2put/irohrelay.go.
pub mod Codec
pub mod Conn
pub mod Streams
pub mod Ids
pub mod Routes
pub mod Isolation
pub mod History
pub mod Parse
pub mod Sending
pub mod Delivery
pub mod KeepAlive
pub mod Lifecycle
mod Examples
