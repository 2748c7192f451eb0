-- ===== src/Drive.antt =====
-- The drive handle of src/drive_handle_base.cc, src/drive_handle_ata.cc and
-- src/drive_handle_sanitize.cc, over the virtual methods of a driver.
pub mod Driver
pub mod Security
pub mod LogPage
pub mod Discovery
pub mod Sanitize
pub mod Capacity
pub mod Smart
pub mod Identify
pub mod Factory
mod Runs
