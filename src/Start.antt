-- ===== src/Start.antt =====
-- kernel/kernel.c: kernel_main up to the shell. `Boot` is the state of all components; the
-- parameters are the ports, the state S that interrupt handlers act on, and what the linker and the
-- bootloader leave (`Config`). The calls of vga.c are collected, since nothing else reads the
-- screen. The wait for the serial port has rounds: `none` is a wait that has not ended. The disk
-- driver is Ata.
pub mod Messages
pub mod Ready
mod Tests
use vesper_os.Prelude.{ℕ, Bool, Option, none, some, List, ◌++◌}
use vesper_os.Prelude.Text.{codes}
use vesper_os.Ata
use vesper_os.Fd
use vesper_os.Fs
use vesper_os.Gdt
use vesper_os.Gdt.{Gdt}
use vesper_os.Idt
use vesper_os.Idt.{Idt, Stubs}
use vesper_os.Isr.{Handler}
use vesper_os.Keyboard
use vesper_os.Keyboard.{Keyboard}
use vesper_os.Keyboard.Setup as KeyboardSetup
use vesper_os.Kmem
use vesper_os.Kmem.{Heap}
use vesper_os.Paging
use vesper_os.Pic
use vesper_os.Pipe
use vesper_os.Pmm
use vesper_os.Pmm.{BootMmap}
use vesper_os.Port.{Ports}
use vesper_os.Process
use vesper_os.Process.{Kernel, Link}
use vesper_os.Serial
use vesper_os.Timer.Setup as TimerSetup
use vesper_os.Vga
use vesper_os.Vga.{Screen}
use vesper_os.Vga.Output.{Item, show}
use vesper_os.Start.Messages.{banner, services, disk_found, fs_found, ready}

pub record Config (S : Type 0) (ports : Ports) : Type 0 where
  pub rounds : ℕ
  pub storage : ℕ
  pub tss_base : ℕ
  pub stubs : Stubs
  pub timer_handler : Handler S ports
  pub keyboard_handler : Handler S ports
  pub mmap : BootMmap
  pub link : Link

pub record Boot (S : Type 0) (ports : Ports) : Type 0 where
  pub screen : Screen
  pub heap : Heap
  pub gdt : Gdt
  pub idt : Idt
  pub irqs : List (Option (Handler S ports))
  pub ticks : ℕ
  pub keyboard : Keyboard
  pub kernel : Kernel
  pub pipes : Pipe.Pipes
  pub fds : Fd.Table
  pub device : ports.Device

module _ (S : Type 0) (ports : Ports) where
  -- The calls from kmem_init on, with the devices after the serial port has been set up.
  pub start : Config S ports → Boot S ports → ports.Device → Boot S ports
  start cfg b d =
      let gdt = Gdt.tss_flush (Gdt.init cfg.tss_base (Gdt.tss_init 0x90000 b.gdt)) in
      let idt = Idt.init cfg.stubs b.idt in
      let (ticks, irqs1, d1) =
        TimerSetup.init S ports cfg.timer_handler b.irqs (Pic.init ports d) in
      let (kb, irqs2, d2) = KeyboardSetup.init S ports cfg.keyboard_handler b.keyboard irqs1 d1 in
      let m = record (b.kernel.machine) { pmm = Pmm.init cfg.mmap } in
      let k = record (b.kernel) { machine = Paging.init cfg.link.layout m } in
      let (drive, d3) = Ata.init ports d2 in
      let (fs, d4) = Fs.init (Ata.driver ports) d3 in
      let messages = banner ++ services m.pmm.free ++ disk_found drive ++ fs_found fs ++ ready in
      record {
        screen = show messages (Vga.init b.screen);
        heap = Kmem.init cfg.storage b.heap;
        gdt = gdt;
        idt = Idt.syscall_init cfg.stubs idt;
        irqs = irqs2;
        ticks = ticks;
        keyboard = kb;
        kernel = Process.init cfg.link k;
        pipes = Pipe.init;
        fds = Fd.init;
        device = d4;
      }

  pub kernel_main : Config S ports → Boot S ports → Option (Boot S ports)
  unfolding start
  kernel_main cfg b =
      elim (Serial.puts ports cfg.rounds (codes "VESPER: serial console active (115200 8N1)\n")
        (Serial.init ports b.device)) [ none ↦ none | some d ↦ some (start cfg b d) ]
