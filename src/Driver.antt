-- ===== src/Driver.antt =====
-- src/driver.rs: the RAM disk, the display driver and the list of the registered drivers.
pub mod RamDisk
pub mod Display
pub mod Manager
pub mod Blocks
mod Tests
