-- ===== src/Stream/Hls.antt =====
-- internal/core/stream/hls.go: the segments seen, and the playlist.
pub mod Seen
pub mod Playlist
pub mod Refused
