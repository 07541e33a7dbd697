-- ===== src/Stream.antt =====
-- internal/core/stream: one live session per channel, its viewers, and the pump that feeds them.
pub mod Session
pub mod Packets
pub mod Walk
pub mod Viewers
pub mod Ready
pub mod Run
pub mod Calls
pub mod Copy
pub mod Hls
pub mod Manager
mod Tests
