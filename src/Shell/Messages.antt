-- ===== src/Shell/Messages.antt =====
-- The commands of kernel/shell.c that print a fixed text.
use vesper_os.Prelude.{ℕ, ◌+◌, ◌%◌, List, [], ◌∷◌, ◌++◌, ◌==◌, if◌then◌else◌}
use vesper_os.Prelude.Text.{codes}
use vesper_os.Vga.Output.{Item, color, char, text, cyan, yellow, grey}

pub help : List Item
help =
    cyan
    ∷ text (codes "VESPER OS Shell  -  Available commands:\n")
    ∷ grey
    ∷ text (codes "  help             Show this help message\n")
    ∷ text (codes "  clear            Clear the screen\n")
    ∷ text (codes "  echo <text>      Print text to the screen\n")
    ∷ text (codes "  version          Show OS version information\n")
    ∷ text (codes "  meminfo          Show heap + physical memory statistics\n")
    ∷ text (codes "  uptime           Show system uptime\n")
    ∷ text (codes "  date             Show current date and time (RTC)\n")
    ∷ text (codes "  ps               List running processes\n")
    ∷ text (codes "  kill <pid>       Terminate a process by PID\n")
    ∷ text (codes "  sleep <ms>       Sleep for N milliseconds\n")
    ∷ text (codes "  colortest        Display all 16 VGA colours\n")
    ∷ text (codes "  mkfs             Format the VesperFS partition\n")
    ∷ text (codes "  ls               List files in VesperFS\n")
    ∷ text (codes "  cat <file>       Print file contents\n")
    ∷ text (codes "  write <f> <txt>  Write text to a file\n")
    ∷ text (codes "  rm <file>        Delete a file from VesperFS\n")
    ∷ text (codes "  run <file>       Load ELF32; spawn as kernel thread\n")
    ∷ text (codes "  exec <file>      Load ELF32; spawn as ring-3 user process\n")
    ∷ text (codes "  halt             Halt the CPU\n")
    ∷ text (codes "  reboot           Reboot the system\n")
    ∷ text (codes "\n")
    ∷ color 8
    ∷ text (codes "  Up/Down arrows cycle through command history.\n")
    ∷ grey
    ∷ []

pub version : List Item
version =
    yellow
    ∷ text (codes "VESPER OS  v0.5.0\n")
    ∷ grey
    ∷ text (codes "Architecture   : x86 32-bit Protected Mode\n")
    ∷ text (codes "VGA buffer     : 0xB8000\n")
    ∷ text (codes "Kernel base    : 0x1000\n")
    ∷ text (codes "Interrupt model: IDT + 8259A PIC (IRQ0-15 -> INT 32-47)\n")
    ∷ text (codes "Keyboard       : PS/2 interrupt-driven (IRQ1, extended scancodes)\n")
    ∷ text (codes "Timer          : PIT 100 Hz (IRQ0), preempt every 50 ms\n")
    ∷ text (codes "Memory         : PMM bitmap + 256 KB heap + paging (0-8 MB)\n")
    ∷ text (codes "Scheduler      : preemptive round-robin (50 ms slice)\n")
    ∷ text (codes "Page dirs      : per-process (user processes get isolated PDs)\n")
    ∷ text (codes "Syscalls       : INT 0x80 (DPL=3), 13 syscalls (0-12)\n")
    ∷ text (codes "File I/O       : SYS_OPEN/READ/CLOSE via global FD table\n")
    ∷ text (codes "IPC            : ring-buffer pipes (SYS_PIPE_CREATE/WRITE/READ)\n")
    ∷ text (codes "RTC            : CMOS real-time clock\n")
    ∷ text (codes "Disk           : ATA PIO (primary master)\n")
    ∷ text (codes "Filesystem     : VesperFS (LBA 129+), supports create/read/delete\n")
    ∷ text (codes "ELF loader     : ELF32 (kernel threads + ring-3 user processes)\n")
    ∷ []

abbrev pub color_names : List (List ℕ)
color_names =
    codes "BLACK   "
    ∷ codes "BLUE    "
    ∷ codes "GREEN   "
    ∷ codes "CYAN    "
    ∷ codes "RED     "
    ∷ codes "MAGENTA "
    ∷ codes "BROWN   "
    ∷ codes "LT_GREY "
    ∷ codes "DK_GREY "
    ∷ codes "LT_BLUE "
    ∷ codes "LT_GREEN"
    ∷ codes "LT_CYAN "
    ∷ codes "LT_RED  "
    ∷ codes "LT_MAG  "
    ∷ codes "YELLOW  "
    ∷ codes "WHITE   "
    ∷ []

-- The colours from number `i` on, with a line break after each odd one.
pub palette : ℕ → List (List ℕ) → List Item
palette i [] = []
palette i (name ∷ names) =
    (color i ∷ text (codes "  ") ∷ text name ∷ (if i % 2 == 1 then char b'\n' ∷ [] else []))
    ++ palette (i + 1) names

pub colortest : List Item
unfolding palette
colortest =
    (grey ∷ text (codes "VGA colour palette (foreground on black):\n") ∷ [])
    ++ palette 0 color_names
    ++ (grey ∷ char b'\n' ∷ [])
