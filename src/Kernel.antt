-- ===== src/Kernel.antt =====
-- kernel/: the scheduler, the open files and the system calls, the formatted output, and the log, the consoles
-- and the devices.
pub mod Sched
pub mod Log
pub mod Files
pub mod Printk
pub mod Syscall
pub mod Elf
pub mod Process
pub mod Preempt
pub mod Shell
