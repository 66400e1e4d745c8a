-- ===== src/Start/Messages.antt =====
-- What kernel_main of kernel/kernel.c prints.
use vesper_os.Prelude.{ℕ, ◌*◌, ◌%◌, ◌^◌, Bool, List, [], ◌∷◌, ◌++◌, if◌then◌else◌}
use vesper_os.Prelude.Text.{codes}
use vesper_os.Fd.{fd_max}
use vesper_os.Pipe.{max_pipes, pipe_buf_size}
use vesper_os.Process.{max_processes}
use vesper_os.Timer.{sched_slice}
use vesper_os.Vga.Output.{Item, uint, text, formatted, green, cyan, yellow, grey}
use vesper_os.Vga.Printf.{word}

pub banner : List Item
banner =
    cyan
    ∷ text (codes "================================================================\n")
    ∷ text (codes "              VESPER KERNEL ACTIVE                             \n")
    ∷ text (codes "        Advanced Services Educational OS  v0.5.0               \n")
    ∷ text (codes "================================================================\n")
    ∷ grey
    ∷ text (codes "\n")
    ∷ text (codes "  Architecture : x86  32-bit Protected Mode\n")
    ∷ text (codes "  VGA buffer   : 0xB8000\n")
    ∷ text (codes "  Kernel base  : 0x1000\n")
    ∷ text (codes "  Stack base   : 0x90000\n")
    ∷ text (codes "  Heap size    : 256 KB\n")
    ∷ text (codes "\n")
    ∷ []

-- From the heap to the process table, with the number of free frames.
pub services : ℕ → List Item
services free =
    green
    ∷ text (codes "  [OK] Heap allocator  (256 KB)\n")
    ∷ green
    ∷ text (codes "  [OK] GDT loaded      (6 entries: null/kcode/kdata/ucode/udata/TSS)\n")
    ∷ text (codes "  [OK] TSS installed   (ESP0=0x90000, SS0=0x10)\n")
    ∷ green
    ∷ text (codes "  [OK] IDT loaded      (256 gates)\n")
    ∷ green
    ∷ text (codes "  [OK] PIC remapped    (IRQ0-15 -> INT 32-47)\n")
    ∷ green
    ∷ formatted (codes "  [OK] PIT timer       (IRQ0, 100 Hz, preempt every %u ticks)\n")
        (word sched_slice ∷ [])
    ∷ green
    ∷ text (codes "  [OK] Keyboard driver (IRQ1, extended scancodes)\n")
    ∷ green
    ∷ text (codes "  [OK] PMM ready       (")
    ∷ uint (free * 4 % 2 ^ 32)
    ∷ text (codes " KB free)\n")
    ∷ green
    ∷ text (codes "  [OK] Paging enabled  (identity-map 0-8 MB, per-process PDs)\n")
    ∷ green
    ∷ text (codes "  [OK] Syscall gate    (INT 0x80, DPL=3, syscalls 0-12)\n")
    ∷ green
    ∷ formatted (codes "  [OK] IPC pipes       (%u slots x %u B ring buffer)\n")
        (word max_pipes ∷ word pipe_buf_size ∷ [])
    ∷ green
    ∷ formatted (codes "  [OK] FD table        (%u slots)\n") (word fd_max ∷ [])
    ∷ green
    ∷ formatted (codes "  [OK] Scheduler       (preemptive round-robin, max %u procs)\n")
        (word max_processes ∷ [])
    ∷ []

pub disk_found : Bool → List Item
disk_found found =
    if found
    then green ∷ text (codes "  [OK] ATA drive       (primary master, PIO)\n") ∷ []
    else yellow ∷ text (codes "  [--] ATA drive       (not detected)\n") ∷ []

pub fs_found : Bool → List Item
fs_found found =
    if found
    then green ∷ text (codes "  [OK] VesperFS        (mounted at LBA 129)\n") ∷ []
    else yellow
      ∷ text (
          codes "  [--] VesperFS        (not formatted "
          ++ (0xE2 ∷ 0x80 ∷ 0x93 ∷ [])
          ++ codes " run 'mkfs')\n")
      ∷ []

pub ready : List Item
ready =
    green
    ∷ text (codes "  [OK] Interrupts enabled\n")
    ∷ grey
    ∷ text (codes "\n  Type 'help' for available commands.\n\n")
    ∷ []
