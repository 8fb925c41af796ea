-- ===== src/Fs.antt =====
-- fs/: the mount table and the ext2 filesystem.
pub mod Ext2
pub mod Vfs
pub mod Devfs
pub mod Init
