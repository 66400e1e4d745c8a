-- ===== src/Start/Ready.antt =====
-- What kernel_main of kernel/kernel.c has established when the shell starts.
use vesper_os.Prelude.{
  ◌+◌, ◌<◌, ◌≤◌, ◌^◌, ◌≡◌, refl, sym, ap, subst, ◌∙◌, none, some, [], ◌∷◌, length, true,
}
use vesper_os.Prelude.Text.{codes}
use vesper_os.Fd.{fd_max}
use vesper_os.Fd.Owner.{length-init}
use vesper_os.Kmem.{heap_size}
use vesper_os.Kmem.Alloc.{IsHeap}
use vesper_os.Kmem.Cycle.{kmem_init-IsHeap}
use vesper_os.Paging
use vesper_os.Paging.Translate.{init_pmm}
use vesper_os.Pipe.Keep.{init-IsTable}
use vesper_os.Pipe.Transfer.{IsTable}
use vesper_os.Pmm
use vesper_os.Pmm.Inv as PmmInv
use vesper_os.Pmm.Init.{AreDisjoint, pmm_init-IsValid}
use vesper_os.Port.{Ports}
use vesper_os.Process.{max_processes}
use vesper_os.Process.Life.{process_init-IsValid, process_init_machine}
use vesper_os.Process.Sched.{IsValid}
use vesper_os.Serial
use vesper_os.Serial.Output.{Transmitter, puts_lem}
use vesper_os.Vga.Cursor.{IsScreen}
use vesper_os.Vga.Shown.{show-IsScreen, init-IsScreen}
use vesper_os.Start.{Config, Boot, start, kernel_main}

-- The state that the linker and the bootloader leave: zeroed static data of the right size, room
-- for the heap, and a map of memory whose usable entries are disjoint.
pub record IsLoaded {S : Type 0} {ports : Ports} (cfg : Config S ports) (b : Boot S ports)
    : Type 0 where
  pub cells : length b.screen.buffer ≡ 2000
  pub slots : length b.kernel.procs ≡ max_processes
  pub idle : b.kernel.current ≡ none
  pub low : 16 ≤ cfg.storage
  pub top : cfg.storage + heap_size < 2 ^ 32
  pub memory_map : AreDisjoint cfg.mmap

-- The invariants of the components.
pub record IsReady {S : Type 0} {ports : Ports} (cfg : Config S ports) (b : Boot S ports)
    : Type 0 where
  pub screen : IsScreen b.screen
  pub heap : IsHeap cfg.storage b.heap (record { size = 262128; free = true } ∷ [])
  pub kernel : IsValid b.kernel
  pub frames : PmmInv.IsValid b.kernel.machine.pmm
  pub pipes : IsTable b.pipes
  pub fds : length b.fds ≡ fd_max

start-IsReady :
    {S : Type 0} {ports : Ports} (cfg : Config S ports) (b : Boot S ports) (d : ports.Device)
    → IsLoaded cfg b
    → IsReady cfg (start S ports cfg b d)
unfolding start
start-IsReady {S} {ports} cfg b d v =
    let m = record (b.kernel.machine) { pmm = Pmm.init cfg.mmap } in
    let k = record (b.kernel) { machine = Paging.init cfg.link.layout m } in
    record {
      screen = show-IsScreen _ _ (init-IsScreen b.screen v.cells);
      heap = kmem_init-IsHeap cfg.storage b.heap v.low v.top;
      kernel = process_init-IsValid cfg.link k v.slots v.idle;
      frames =
          subst (λ x. PmmInv.IsValid x)
            (sym (ap (λ x. x.pmm) (process_init_machine cfg.link k) ∙ init_pmm cfg.link.layout m))
            (pmm_init-IsValid cfg.mmap v.memory_map);
      pipes = init-IsTable;
      fds = length-init;
    }

-- From zeroed static data of the right sizes, a heap_storage at address 16 or above that ends below
-- 2^32, a memory map from the BIOS of which no two usable entries cover a common frame, and a
-- serial port that gets ready within the rounds given, kernel_main reaches the shell, and then the
-- screen, the heap as one free block, the process table, the frame allocator, the pipes and the
-- descriptor table satisfy the invariants of their components.
pub kernel_main-IsReady :
    {S : Type 0} {ports : Ports} (cfg : Config S ports) (b : Boot S ports)
    → Transmitter ports cfg.rounds
    → IsLoaded cfg b
    → (b' : Boot S ports) × (kernel_main S ports cfg b ≡ some b') × IsReady cfg b'
unfolding kernel_main
kernel_main-IsReady {S} {ports} cfg b t v =
    let (d, e, sent) =
      puts_lem ports cfg.rounds t (codes "VESPER: serial console active (115200 8N1)\n")
        (Serial.init ports b.device) in
    (start S ports cfg b d, rw (e, kernel_main) refl, start-IsReady cfg b d v)
