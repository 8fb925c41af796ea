-- ===== src/Libc.antt =====
-- lib/: strings, memory and numbers as text.
pub mod Str
pub mod Strtok
pub mod Mem
pub mod Itoa
pub mod Errno
