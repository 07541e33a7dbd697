-- ===== src/Transcode.antt =====
-- internal/core/transcode: the encoding profile.
pub mod Profile
mod Tests
