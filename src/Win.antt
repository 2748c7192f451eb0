-- ===== src/Win.antt =====
-- src/plat-win: the drivers over the system calls of Windows, which are parameters.
pub mod Handle
pub mod Ata
pub mod Scsi
pub mod Text
pub mod Nvme
pub mod NativeMax
pub mod Factory
pub mod Inquiry
pub mod Drives
pub mod Volumes
mod Runs
