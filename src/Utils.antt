-- ===== src/Utils.antt =====
-- internal/utils: lists without duplicates and the order of names.
pub mod Slice
pub mod Natsort
mod Tests
