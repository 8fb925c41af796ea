-- ===== src/Drivers.antt =====
-- drivers/: the buffers of the terminals, the keyboard, and the disk driver.
pub mod Tty
pub mod Keyboard
pub mod Ports
pub mod Ata
pub mod KeyCode
