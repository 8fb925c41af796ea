-- ===== src/Fs/Ext2.antt =====
-- fs/ext2/: blocks, inodes, directories, path lookup and the reads of files of a read-only ext2 volume.
pub mod Disk
pub mod Mounted
pub mod Inode
pub mod Dir
pub mod Lookup
pub mod File
