-- ===== src/Lib.antt =====
-- Vesper OS: a model of the kernel's C code (kernel/*.c and kernel/*.h), with theorems.
--
-- The parts and the files that model them:
--   Strings    kernel/string.h: memset, memcpy, memcmp, strlen, strcmp, strncmp, strncpy.
--   Pmm        kernel/pmm.c: the bitmap of 8192 frames of 4 KB and its counters. Functions keep
--              their names without pmm_; pmm_init reads the E820 map from an argument.
--   Paging     kernel/paging.c: page directories and tables as words of a memory, with CR3 and the
--              frame allocator in one record, Machine. It calls Pmm. It also holds the address
--              translation of kernel/elf.c.
--   Process    kernel/process.c and process_yield of kernel/process.asm: the table of 16 slots, the
--              current process, PIDs, ESP0. It calls Paging to switch and to destroy directories.
--   Pipe       kernel/pipe.c: 8 ring buffers of 256 bytes. It wakes blocked processes of Process.
--   Kmem       kernel/kmem.c: the block headers of the 256 KB heap by their address.
--   Keyboard   kernel/keyboard.c: scancodes to characters, and their ring buffer of 64. It blocks and
--              wakes processes of Process.
--   Vga        kernel/vga.c: the text screen, its cursor, and the output of numbers.
--   Timer      kernel/timer.c: ticks, time slices (it calls process_yield) and the wait.
--   Fs         kernel/fs.c: directory, superblock and files on a disk whose driver (kernel/ata.c) is
--              a parameter.
--   Fd         kernel/fd.c: the table of 16 open files, on Fs.
--   Rtc        kernel/rtc.c: the conversion of the clock's registers; Rtc.Device reads them at the ports.
--   Port       kernel/port_io.h: the port instructions on devices that are a parameter.
--   Pic        kernel/pic.c: the interrupt controllers behind their ports.
--   Idt        kernel/idt.c, and syscall_init of kernel/syscall.c: the interrupt gates.
--   Isr        kernel/isr.c: the dispatch of exceptions and interrupts to registered handlers.
--   Gdt        kernel/gdt.c and kernel/tss.c: segment descriptors and the task state.
--   Serial     kernel/serial.c: the serial console behind its ports.
--   Ata        kernel/ata.c: the disk driver behind its ports; it gives Fs its two operations.
--   Elf        kernel/elf.c: the loader into the kernel's memory, and in Elf.User the one into the
--              frames of a user's page directory, which calls Paging.
--   Syscall    kernel/syscall.c: the dispatcher of the system calls over Process, Pipe, Fd, Timer, Rtc
--              and Vga.
--   Shell      kernel/shell.c: history and line editor (Shell.Line), parsing (Shell.Text), the commands
--              (Shell.Messages, Commands, Files, Programs) and their dispatch (Shell.Execute) over
--              Fs, Elf, Process, Kmem, Timer, Rtc and Vga.
--   Start      kernel/kernel.c: kernel_main up to the shell, over all the parts above. Timer.Setup and
--              Keyboard.Setup program the PIT and register the two interrupt handlers.
--   Prelude    lists as C arrays, tests, counting, ring buffers, signed results, bits of a byte and the
--              bytes of a string literal.
--
-- State is passed explicitly: an operation takes the component's record and returns its result and
-- the new record. A call that does not return to its caller (process_yield) gives the state after
-- the switch and the stack pointer that it loads. A blocking loop takes the states it finds when it
-- is woken. unsigned integers are natural numbers with their wrap-around written out, int results
-- are the integers of Prelude.Int, and -1 is `negsuc 0`. An array is a list, and memory is a
-- function of the address.
--
-- Bounds and fuel: loops over arrays recur on the list or on the number of rounds that the source
-- writes. The loops of kmalloc, kfree and kmem_info follow pointers on 16385 rounds, which is enough
-- since every block takes 16 of the 262144 bytes. The loops over decimal digits have 10 rounds,
-- enough below 2^32. The wait of timer_sleep_ms takes its rounds as an argument. fs_read has
-- one round more than bytes to read, since every round reads at least one.
--
-- Waits for a device have the rounds of the source where it bounds them (2^20 in kernel/ata.c), and
-- otherwise the rounds are an argument. cat reads a file in one round more than the file has bytes.
--
-- Not modelled: the ports of the CRTC beyond the cursor position, assembly
-- other than process_yield, and what other processes do while a command or a system call waits.
--
-- The kernel's own memory: the tables of the model are records beside memory. Where the code stores
-- through a pointer that it has not checked (SYS_READ, SYS_PIPE_READ, and the segments of the
-- command run), Link.reserved tells the kernel's own bytes, and a store over them is an outcome after
-- which nothing is said. kfree of an address that is not a block's is outside its theorems, since
-- headers that overlap are apart in the model. An access by a physical address that is not mapped sets Machine.faulted.
pub mod Ata
pub mod Elf
pub mod Fd
pub mod Fs
pub mod Gdt
pub mod Idt
pub mod Isr
pub mod Keyboard
pub mod Kmem
pub mod Paging
pub mod Pic
pub mod Pipe
pub mod Pmm
pub mod Port
pub mod Prelude
pub mod Process
pub mod Rtc
pub mod Serial
pub mod Shell
pub mod Start
pub mod Strings
pub mod Syscall
pub mod Timer
pub mod Vga
