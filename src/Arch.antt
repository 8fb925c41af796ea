-- ===== src/Arch.antt =====
-- arch/x86/: the descriptor tables, the frame that a thread is resumed from, the text screen, the serial
-- port, the timer, the exceptions, and the memory map of the boot loader.
pub mod Tables
pub mod Context
pub mod Textmode
pub mod Multiboot
pub mod Serial
pub mod Clock
pub mod Exception
pub mod Irq
pub mod Init
