-- ===== src/Node.antt =====
-- The Rust node behind the bridge (rust/iroh_mobile_bridge/src/lib.rs): its frames, its session
-- cache, the inboxes of its streams, and its life.
pub mod Errors
pub mod Frame
pub mod Inbox
pub mod Sessions
pub mod Lifecycle
pub mod Send
pub mod Targets
pub mod Dial
pub mod Receive
pub mod TcpForward
pub mod Stream
