-- ===== src/Idmap.antt =====
-- idmap/service.go: the maps between real identifiers (Discord snowflakes) and the virtual numbers
-- that OneBot clients see, and the per-section settings.
pub mod Keys
pub mod RowId
pub mod Ids
pub mod Pairs
pub mod Sections
pub mod Members
pub mod Remote
