-- ===== src/Shell/Programs.antt =====
-- The commands run and exec of kernel/shell.c. elf_load writes memory by bytes, which are those of
-- the words in Paging.Machine; its segments go to any address, also over the kernel's own bytes,
-- and that is the outcome `overwritten`.
use vesper_os.Prelude.{
  ℕ, ◌+◌, ◌-◌, ◌*◌, ◌/◌, ◌%◌, ◌^◌, true, false, ◌&&◌, none, some, List, [], ◌∷◌, get_or, length,
  ltb, ◌==◌, if◌then◌else◌,
}
use vesper_os.Prelude.Text.{codes}
use vesper_os.Elf
use vesper_os.Elf.User
use vesper_os.Fs
use vesper_os.Fs.{Driver, File}
use vesper_os.Paging
use vesper_os.Paging.{Machine}
use vesper_os.Process
use vesper_os.Process.{Link, Kernel, reaches}
use vesper_os.Vga.Output.{Item, uint, hex, char, text, green, grey}
use vesper_os.Shell.Files.{mkfs_first, not_found}
use vesper_os.Shell.State.{
  System, Outcome, returned, switched, unfinished, overwritten, failure, say, set_disk, set_kernel,
  mounted, named,
}

abbrev pub run_buf_size : ℕ
run_buf_size = 65536

-- USER_STACK_TOP and USER_STACK_PAGES of elf.h.
abbrev pub user_stack_top : ℕ
user_stack_top = 0x01020000

abbrev pub user_stack_pages : ℕ
user_stack_pages = 4

-- The bytes of memory, and the words that bytes make.
abbrev pub byte_at : (ℕ → ℕ) → ℕ → ℕ
byte_at mem a = mem (a / 4 * 4) / 2 ^ (8 * (a % 4)) % 2 ^ 8

abbrev pub word_at : (ℕ → ℕ) → ℕ → ℕ
word_at b a = b a + b (a + 1) * 2 ^ 8 + b (a + 2) * 2 ^ 16 + b (a + 3) * 2 ^ 24

abbrev pub not_elf : List ℕ
not_elf = codes "Not a valid ELF32 binary.\n"

abbrev pub table_full : List ℕ
table_full = codes "Process table full.\n"

module _ {driver : Driver} where
  abbrev pub set_machine : Machine → System driver → System driver
  set_machine m s = set_kernel (record (s.kernel) { machine = m }) s

  -- The part of both commands up to fs_close: the file is read to run_buf. `go` takes the bytes read.
  unfoldable pub read_file :
      List ℕ → (ℕ → System driver → Outcome driver) → System driver → Outcome driver
  read_file name go s =
      let (res, d) = Fs.fs_open driver name s.disk in
      let s1 = set_disk d s in
      elim res [
        | none ↦ returned (say (not_found name) s1)
        | some f ↦ elim (ltb run_buf_size f.size) [
          | true ↦ returned (say (failure (codes "File too large (max 64 KB).\n")) s1)
          | false ↦ elim (Fs.read driver f.size f d) [
            | none ↦ unfinished
            | some (bytes, f1, d1) ↦
                let nread = length bytes in
                let filled = λ (i : ℕ). if ltb i nread then get_or bytes i 0 else s.run_buf i in
                go nread (record s { disk = d1; run_buf = filled })
          ]
        ]
      ]

  -- The end of both commands: the new process, if there is a slot, gets the processor.
  abbrev pub yield_to : Link → ℕ → List Item → System driver → Outcome driver
  yield_to link esp spawned s =
      let s1 = say spawned s in
      let (esp', k) = Process.yield link esp s1.kernel in switched esp' (set_kernel k s1)

  unfoldable pub run_image : Link → ℕ → List ℕ → ℕ → System driver → Outcome driver
  run_image link esp name nread s =
      let m = s.kernel.machine in
      let (entry, mem) = Elf.load s.run_buf nread (byte_at m.mem) in
      let s1 = set_machine (record m { mem = word_at mem }) s in
      let (slot, k) = Process.create link name entry s1.kernel in
      let spawned = λ (i : ℕ).
        yield_to link esp
          (green
            ∷ text (codes "Spawned PID ")
            ∷ uint (Process.proc k i).pid
            ∷ text (codes ": ")
            ∷ text name
            ∷ char b'\n'
            ∷ grey
            ∷ [])
          (set_kernel k s1) in
      let created : Outcome driver = elim slot [
        | none ↦ returned (say (failure table_full) s1)
        | some i ↦ spawned i
      ] in
      let ended = if entry == 0 then returned (say (failure not_elf) s1) else created in
      let over = Elf.hits (reaches link) (Elf.header s.run_buf).phnum 0 s.run_buf nread in
      if Elf.accepts s.run_buf nread && over then overwritten else ended

  unfoldable pub cmd_run : Link → ℕ → List ℕ → System driver → Outcome driver
  unfolding read_file run_image
  cmd_run link esp name s =
      named (codes "Usage: run <filename>\n") name
        (mounted mkfs_first (read_file name (run_image link esp name))) s

  -- `paging_destroy_pd(pd_phys)` behind a message.
  abbrev pub give_up : List ℕ → ℕ → System driver → Outcome driver
  give_up message pd s =
      let s1 = say (failure message) s in
      returned (set_machine (Paging.destroy_pd pd s1.kernel.machine) s1)

  -- The part of cmd_exec from the loading of the segments on, with the stack and the process.
  unfoldable pub exec_in : Link → ℕ → List ℕ → ℕ → ℕ → System driver → Outcome driver
  exec_in link esp name nread pd s =
      let (entry, m1) = Elf.User.load_user s.run_buf nread pd s.kernel.machine in
      let s1 = set_machine m1 s in
      let base = user_stack_top - user_stack_pages * 4096 in
      let (stacked, m2) = Paging.alloc_user_pages pd base user_stack_pages 0 m1 in
      let s2 = set_machine m2 s in
      let (slot, k) = Process.create_user link name entry user_stack_top pd s2.kernel in
      let spawned = λ (i : ℕ).
        yield_to link esp
          (green
            ∷ text (codes "Spawned user-mode PID ")
            ∷ uint (Process.proc k i).pid
            ∷ text (codes ": ")
            ∷ text name
            ∷ text (codes " (entry=")
            ∷ hex entry
            ∷ text (codes ")\n")
            ∷ grey
            ∷ [])
          (set_kernel k s2) in
      let created : Outcome driver = elim slot [
        | none ↦ give_up table_full pd s2
        | some i ↦ spawned i
      ] in
      if entry == 0
      then give_up not_elf pd s1
      else if stacked
      then created
      else give_up (codes "Failed to allocate user stack.\n") pd s2

  unfoldable pub exec_image : Link → ℕ → List ℕ → ℕ → System driver → Outcome driver
  unfolding exec_in
  exec_image link esp name nread s =
      let (pd, m) = Paging.create_pd link.layout s.kernel.machine in
      let s1 = set_machine m s in
      if pd == 0
      then returned (say (failure (codes "Out of physical memory.\n")) s1)
      else exec_in link esp name nread pd s1

  unfoldable pub cmd_exec : Link → ℕ → List ℕ → System driver → Outcome driver
  unfolding read_file exec_image
  cmd_exec link esp name s =
      named (codes "Usage: exec <filename>\n") name
        (mounted mkfs_first (read_file name (exec_image link esp name))) s
