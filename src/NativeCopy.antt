-- ===== src/NativeCopy.antt =====
-- src/core/transfer_engine/native_copy.rs: the engine that scans the device, creates the directories,
-- copies the files and hashes them on the way.
pub mod Errors
pub mod Scan
pub mod File
pub mod Estimate
pub mod Files
pub mod Dirs
pub mod Engine
