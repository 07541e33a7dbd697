-- ===== src/Epg.antt =====
-- internal/core/epg: the programme guides, refreshed from their sources and filtered for each relay.
pub mod Documents
pub mod Service
pub mod Order
pub mod Manifest
pub mod Queue
mod Tests
pub mod Requests
pub mod Refresh
pub mod Relays
pub mod Cleanup
