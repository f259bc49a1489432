-- ===== src/VolumeManager.antt =====
-- VolumeManager.cpp, a part to a module.
pub mod Data
pub mod Lookup
pub mod Emulated
pub mod Disks
pub mod BlockEvents
pub mod Requests
pub mod Changes
pub mod Found
pub mod Steady
pub mod Users
pub mod Blocks
pub mod Sessions
pub mod Owned
pub mod Locked
pub mod Safety
pub mod Quiet
pub mod Pending
pub mod Ready
pub mod Waiting
pub mod Tests
