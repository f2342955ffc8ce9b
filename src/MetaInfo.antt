-- ===== src/MetaInfo.antt =====
-- The torrent file's meta information, src/metainfo.cpp.
pub mod Variant
pub mod Info
pub mod Hashing
pub mod Description
pub mod Parsing
pub mod Incomplete
mod Tests
