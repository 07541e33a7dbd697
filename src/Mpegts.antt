-- ===== src/Mpegts.antt =====
-- internal/core/mpegts/frame.go: packets of 188 bytes that begin with a sync byte.
pub mod Header
pub mod Frame
mod Tests
