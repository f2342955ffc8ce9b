-- ===== src/FileManager.antt =====
-- The file manager, src/filemanager.cpp and src/filemanager.h: blocks of pieces in files.
pub mod Disk
pub mod Blocks
pub mod Reading
pub mod Writing
pub mod Requests
pub mod Verification
pub mod Generate
pub mod Cycle
mod Tests
