-- ===== src/Lib.antt =====
-- The kernel levos: its physical memory, page tables, early allocator, C library, virtual filesystem, ext2 and
-- disk drivers, scheduler, system calls, formatted output, loader, terminals, keyboard and text screen, as pure
-- functions on explicit states, with the theorems that make them correct.
--
-- How the parts interact: ext2 looks a path up with strtok and strncmp of the C library, and serves the
-- virtual filesystem, which chooses the filesystem of a path by its table of mounts with strcmp. The page
-- tables get their frames from the bitmap and their own memory from the early allocator, which moves a
-- pointer until liballoc takes over. The scheduler goes round a queue of threads, when the timer interrupts one or a thread gives up its time; a process has a table of
-- the files that the virtual filesystem opened for it. A system call is made with the registers of a thread
-- and ends with the switch back to it, by the same frame on its stack as the switches of the scheduler; a new
-- process gets its stack from the bitmap of frames and its first registers from the same place. A terminal
-- stands between its writer and a device, and the disk driver between ext2 and the ports of the machine.
--
--   Prelude      tests, lists and bits over native numbers; Outcome, the ways in which kernel code ends:
--                a value, `panic`, an access without a meaning in C, and a loop that outlives its fuel.
--   Mm.Frame     mm/frame.c: the bitmap (set_frame, clear_frame, test_frame, first_frame,
--                first_n_frames, mem_used). `FrameMap` is nframes and the words from `frames` on.
--   Mm.State     include/levos/page.h and the globals of mm/: `Mm` holds plp, the bitmap, and the page
--                tables and directories by address; virtual_to_physical of mm/page.c.
--   Mm.Alloc     mm/alloc.c: `kmalloc_with` is __kmalloc, with liballoc's new_malloc (mm/heap.c, a
--                vendored library) as a parameter.
--   Mm.Page      mm/page.c: alloc_frame, alloc_dma_frame, free_frame, get_page, copy_page_dir, mem_total,
--                mark_region; `map_dma` is their composition alloc_dma_frame(get_page(..), ..), and
--                mm_alloc_pages and mm_free_pages of mm/frame.c stand here since they use them.
--   Mm.Init      set_nframes of mm/frame.c and init_paging of mm/page.c.
--   Mm.Fini      paging_fini of mm/page.c, loop by loop.
--   Libc         lib/string.c (Str, Strtok), lib/memset.c (Mem), lib/itoa.c (Itoa) and errno_to_string of
--                include/errno.h (Errno). strtok's static
--                pointer is an argument and a result.
--   Fs.Vfs       fs/vfs.c and include/levos/vfs.h: the tables of mounts and filesystems.
--   Fs.Ext2      fs/ext2/ and include/levos/ext2.h: super.c and block.c (Disk), inode.c (Inode), dir.c
--                (Dir), and file.c: ext2_find_file_inode (Lookup), and ext2_stat, ext2_open, ext2_read_file
--                and the rest (File). The device is a function that gives the byte at each address.
--   Fs.Devfs     fs/devfs/super.c.
--   Kernel.Sched kernel/sched.c and include/levos/sched.h: the queue of threads, its clients' pointers as
--                numbers; `sched_schedule` up to the switch of stacks; Removal has sched_init,
--                sched_rm_process and sched_destroy_pid.
--   Kernel.Process kernel/sched.c: sched_mk_process and what it calls, over the memory of Mm; and
--                sched_start_idle (Idle), with the queue and the switch.
--   Kernel.Preempt the interrupts of the timer and of schedule_noirq, with the registers of the threads:
--                sched_schedule of kernel/sched.c with the switch.
--   Kernel.Shell kernel/shell.c: parse_input, grab_input (Input), and the commands but elf and testmt
--                (Commands); Kernel.Syscall.Number is call_syscall of arch/x86/syscall.c.
--   Main         do_mount and drivers_init of main.c, and the root directory that they
--                give (Root, Boot); vfs_init and ext2_init are in Fs.Init.
--   Kernel.Files kernel/syscall.c: the file table; `syscall_transfer` is what syscall_read and syscall_write
--                do before the file's own operation, a parameter.
--   Kernel.Syscall kernel/syscall.c: the table of calls, syscall_hub up to the switch to the thread,
--                syscall_exit and syscall_init.
--   Kernel.Log   kernel/kmsg.c, kernel/console.c and kernel/device.c: the log buffer, the list of consoles and
--                the list of devices.
--   Kernel.Printk kernel/printk.c: vprintk, printk and panic over an emitter of characters; Quiet
--                has what printk leaves alone.
--   Kernel.Elf   kernel/bin/elf.c and include/levos/elf.h: elf_probe and elf_load, over the operations of a
--                file, and OnExt2 gives those of ext2.
--   Drivers.Tty  drivers/tty.c and include/levos/tty.h: the input and output buffers, as lists of the bytes
--                below their index, and what was given to the output device; Table has the four terminals,
--                their devices and the defaults, and printk_switch_tty of kernel/printk.c.
--   Drivers.Keyboard drivers/keyboard.c: scancodes (KeyCode), modifier keys and the buffer of characters, up to
--                the port.
--   Drivers.Ata  drivers/ata.c, over the ports of arch/x86/hal.c (Ports). `PioDisk` (Disk) names what the
--                driver relies on: the hardware, as the ATA standard describes it.
--   Arch.Tables  arch/x86/gdt.c, arch/x86/idt.c and irq_set of arch/x86/irq.c.
--   Arch.Context arch/x86/sched.c and the switch of include/levos/x86.h: `arch_switch_context` is the macro
--                ARCH_SWITCH_CONTEXT, with what popal and iretl take from the stack.
--   Arch.Textmode arch/x86/textmode.c: the cursor and the text memory of the screen.
--   Arch.Serial  arch/x86/serial.c, over the ports. `UartLine` (Line) names what is relied on.
--   Arch.Irq     arch/x86/irq.c, DEF_IRQ_HANDLER of include/levos/x86.h and save_pre_irq_regs of arch/x86/sched.c:
--                `irq_entry` is what the processor and the handler push, `irq_exit` what they take.
--   Arch.Init    arch_early_init of arch/x86/init.c.
--   Arch.Clock   arch/x86/pit.c, over the ports.
--   Arch.Exception arch/x86/exception.c: exceptions_init, and the handlers (Handlers).
--   Arch.Multiboot arch/x86/multiboot.c: the memory map, up to the bitmap of frames.
--   Tests        the theorems at concrete inputs.
--
-- Fuel: alloc_frame calls itself at most twice before it returns, since the second frame is not frame 0;
-- itoa has at most 32 digits; the search of a directory block goes on by at least one byte a round, so
-- one round more than the block has bytes is enough; the walk along a path takes at most one name per
-- character; sched_select finds a thread that can run within 32 rounds, and loops for ever if there is
-- none; the disk driver waits for at most as many reads of the status as the disk is busy, and one more;
-- the walk over the memory map takes one round for each entry and one more. Numbers of 32 bits keep their
-- wrap-around; the `int` addresses of first_n_frames are those of at most 2 GiB.
--
-- Not modelled: liballoc (a library of its own), the ARM support (a stub), and of boot, the scheduler and the
-- kernel shell what only calls the other parts in sequence or prints (main, do_test, the idle and the first
-- task, the loop of the shell, the commands elf and testmt).
pub mod Prelude
pub mod Mm
pub mod Libc
pub mod Fs
pub mod Kernel
pub mod Drivers
pub mod Arch
pub mod Main
pub mod Tests
