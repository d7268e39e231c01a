-- ===== src/Storage.antt =====
-- src/apps/storagemgr.cpp: what a track is, and what is published of it.
pub mod Formats
pub mod Dsd
pub mod Tags
pub mod Play
mod Tests
