-- ===== src/Checkpoint.antt =====
-- Checkpoint.cpp, a part to a module.
pub mod Relocations
pub mod UsedSectors
pub mod Commands
pub mod Crc
pub mod Log
pub mod Restore
pub mod Tests
