-- ===== src/Upstream.antt =====
-- internal/core/upstream: source.go and resolve.go.
pub mod Source
pub mod Resolve
pub mod Policy
mod Tests
