-- ===== src/Linux.antt =====
-- src/plat-linux: the SCSI generic layer, the USB bridges, and the two drivers.
pub mod Sgio
pub mod Apt
pub mod Taskfile
pub mod Nvme
pub mod Inquiry
pub mod Volumes
pub mod Sysfs
mod Runs
