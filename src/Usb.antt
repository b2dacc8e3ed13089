-- ===== src/Usb.antt =====
-- usb/: card readers and scanners, which type what they read, and USB disks.
pub mod Keys
pub mod Data
pub mod Open
pub mod Reader
pub mod Disk
pub mod Told
pub mod Tasks
mod Examples
