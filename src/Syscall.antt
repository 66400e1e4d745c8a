-- ===== src/Syscall.antt =====
-- kernel/syscall.c and syscall.h: the dispatcher of INT 0x80; syscall_init is in Idt. `State` holds
-- what the calls act on, with the bytes of the caller's address space. A call that gives the
-- processor away ends as `switched` with the stack pointer that is loaded: the caller goes on when
-- it is scheduled, with the result in EAX for SYS_YIELD, and with the loop of pipe_read
-- (Pipe.read_wait) for SYS_PIPE_READ. The parameters are the disk driver, the linker's addresses,
-- the stack pointer and the clock's registers.
pub mod Safe
mod Tests
use vesper_os.Prelude.{
  ℕ, zero, suc, ◌+◌, ◌-◌, ◌*◌, ◌/◌, ◌%◌, ◌^◌, Bool, true, false, Option, none, some, List, [], ◌∷◌,
  length, ltb, ◌==◌, if◌then◌else◌,
}
use vesper_os.Prelude.Int.{ℤ, pos, negsuc}
use vesper_os.Prelude.Text.{codes}
use vesper_os.Fd
use vesper_os.Fs.{Driver}
use vesper_os.Pipe
use vesper_os.Pipe.{Pipes, failed, got, waiting}
use vesper_os.Process
use vesper_os.Process.{Kernel, Link, reaches}
use vesper_os.Rtc
use vesper_os.Timer
use vesper_os.Vga
use vesper_os.Vga.{Screen}
use vesper_os.Vga.Output.{uint, char, text, red, grey, show}

pub record State (driver : Driver) : Type 0 where
  pub kernel : Kernel
  pub screen : Screen
  pub ticks : ℕ
  pub pipes : Pipes
  pub fds : Fd.Table
  pub disk : driver.Disk
  pub memory : ℕ → ℕ

-- A call returns with EAX, or switches to another process. `stopped` is the processor in hlt with
-- interrupts off, since the interrupt gate has cleared IF: no tick comes and the call never returns.
-- `overwritten` is a store of a number of bytes at an address, of which some are the kernel's own: the
-- pointers of SYS_READ and SYS_PIPE_READ are not checked, and nothing is said of the state then.
-- `unfinished` is the wait for the clock that does not end.
pub data Outcome (driver : Driver) : Type 0 where
  stopped : State driver → Outcome driver
  overwritten : ℕ → ℕ → Outcome driver
  returned : ℕ → State driver → Outcome driver
  switched : ℕ → State driver → Outcome driver
  unfinished : Outcome driver

-- The casts between int and uint32_t.
abbrev pub to_word : ℤ → ℕ
to_word (pos n) = n
to_word (negsuc n) = 2 ^ 32 - 1 - n

abbrev pub to_int : ℕ → ℤ
to_int n = if ltb n (2 ^ 31) then pos n else negsuc (2 ^ 32 - 1 - n)

-- `n` bytes of memory from an address on, and `bytes` stored there.
pub load_bytes : ℕ → ℕ → (ℕ → ℕ) → List ℕ
load_bytes zero a memory = []
load_bytes (suc n) a memory = memory (a % 2 ^ 32) ∷ load_bytes n (a + 1) memory

pub store_bytes : List ℕ → ℕ → (ℕ → ℕ) → ℕ → ℕ
store_bytes [] a memory = memory
store_bytes (x ∷ xs) a memory =
    store_bytes xs (a + 1) (λ b. if b == a % 2 ^ 32 then x else memory b)

-- A file name: strcmp looks at no more of it than the 4096 bytes of the directory and one.
abbrev pub name_at : ℕ → (ℕ → ℕ) → List ℕ
name_at a memory = load_bytes 4097 a memory

-- `current_process ? current_process->pid : 0`
abbrev pub pid_of : Option ℕ → Kernel → ℕ
pid_of none k = 0
pid_of (some i) k = (Process.proc k i).pid

abbrev pub caller : Kernel → ℕ
caller k = pid_of k.current k

abbrev pub is_some : Option ℕ → Bool
is_some none = false
is_some (some i) = true

pub write_chars : ℕ → ℕ → (ℕ → ℕ) → Screen → Screen
write_chars zero a memory s = s
write_chars (suc n) a memory s = write_chars n (a + 1) memory (Vga.putchar (memory (a % 2 ^ 32)) s)

-- What the calls need from outside the kernel's state.
pub record Env : Type 0 where
  pub link : Link
  pub esp : ℕ
  pub cmos : Option (ℕ → ℕ)

module _ {driver : Driver} where
  abbrev pub set_kernel : Kernel → State driver → State driver
  set_kernel k s = record s { kernel = k }

  -- The end of a call that switches.
  abbrev pub switch_to : ℕ × Kernel → State driver → Outcome driver
  switch_to (esp, k) s = switched esp (set_kernel k s)

  pub sys_write : ℕ → ℕ → State driver → Outcome driver
  unfolding write_chars
  sys_write ebx ecx s = returned ecx (record s { screen = write_chars ecx ebx s.memory s.screen })

  -- The loop of timer_sleep_ms ends at once or halts for good.
  pub sys_sleep : ℕ → State driver → Outcome driver
  sys_sleep ebx s = if ltb s.ticks (Timer.target ebx s.ticks) then stopped s else returned 0 s

  -- `bytes` are stored at the address `a` of the caller.
  pub stored : Link → List ℕ → ℕ → Outcome driver → Outcome driver
  stored link bytes a out =
      if reaches link (length bytes) a then overwritten (length bytes) a else out

  pub sys_kill : ℕ → State driver → Outcome driver
  sys_kill ebx s =
      let (res, k) = Process.kill ebx s.kernel in returned (to_word res) (set_kernel k s)

  pub sys_open : ℕ → State driver → Outcome driver
  unfolding load_bytes
  sys_open ebx s =
      let (fd, fds, d) = Fd.fd_open driver (name_at ebx s.memory) (caller s.kernel) s.fds s.disk in
      returned (to_word fd) (record s { fds = fds; disk = d })

  pub sys_read : Link → ℕ → ℕ → ℕ → State driver → Outcome driver
  unfolding store_bytes stored
  sys_read link ebx ecx edx s =
      elim (Fd.read driver (to_int ebx) ecx (caller s.kernel) s.fds s.disk) [
        | none ↦ unfinished
        | some ((res, bytes), fds, d) ↦ stored link bytes edx (
            returned (to_word res)
              (record s { fds = fds; disk = d; memory = store_bytes bytes edx s.memory }))
      ]

  pub sys_close : ℕ → State driver → Outcome driver
  sys_close ebx s = returned 0 (record s { fds = Fd.close (to_int ebx) (caller s.kernel) s.fds })

  -- The registers of the clock once the wait of rtc_read has ended, or none.
  pub sys_gettime : Option (ℕ → ℕ) → State driver → Outcome driver
  sys_gettime none s = unfinished
  sys_gettime (some cmos) s =
      let t = Rtc.read cmos in returned (t.hour * 3600 + t.minute * 60 + t.second) s

  pub sys_pipe_create : State driver → Outcome driver
  sys_pipe_create s =
      let (id, ps) = Pipe.alloc s.pipes in returned (to_word id) (record s { pipes = ps })

  pub sys_pipe_write : ℕ → ℕ → ℕ → State driver → Outcome driver
  unfolding load_bytes
  sys_pipe_write ebx ecx edx s =
      let (res, ps, k) = Pipe.write (to_int ebx) (load_bytes ecx edx s.memory) s.pipes s.kernel in
      returned (to_word res) (record s { pipes = ps; kernel = k })

  -- pipe_read up to its return or its first call of process_block.
  pub sys_pipe_read : Link → ℕ → ℕ → ℕ → ℕ → State driver → Outcome driver
  unfolding store_bytes stored
  sys_pipe_read link esp ebx ecx edx s =
      elim (Pipe.read (to_int ebx) ecx (is_some s.kernel.current) s.pipes []) [
        | failed ↦ returned (2 ^ 32 - 1) s
        | got bytes ps ↦ stored link bytes edx (
            returned (length bytes)
              (record s { pipes = ps; memory = store_bytes bytes edx s.memory }))
        | waiting ↦ switch_to (Process.block link esp s.kernel) s
      ]

  pub sys_unknown : ℕ → State driver → Outcome driver
  sys_unknown num s =
      let items = red ∷ text (codes "[syscall] unknown: ") ∷ uint num ∷ char b'\n' ∷ grey ∷ [] in
      returned (2 ^ 32 - 1) (record s { screen = show items s.screen })

-- The numbers SYS_EXIT to SYS_PIPE_READ.
pub data Call : Type 0 where
  exit write getpid sleep yield kill fd_open read close gettime pipe_create pipe_write pipe_read :
      Call
  unknown : ℕ → Call

-- The cases of the switch.
pub decode : ℕ → Call
decode num =
    if num == 0
    then exit
    else if num == 1
    then write
    else if num == 2
    then getpid
    else if num == 3
    then sleep
    else if num == 4
    then yield
    else if num == 5
    then kill
    else if num == 6
    then fd_open
    else if num == 7
    then read
    else if num == 8
    then close
    else if num == 9
    then gettime
    else if num == 10
    then pipe_create
    else if num == 11
    then pipe_write
    else if num == 12
    then pipe_read
    else unknown num

module _ {driver : Driver} where
  -- A call with the arguments EBX, ECX and EDX.
  pub perform : Env → Call → ℕ → ℕ → ℕ → State driver → Outcome driver
  perform env exit ebx ecx edx s = switch_to (Process.exit env.link env.esp s.kernel) s
  perform env write ebx ecx edx s = sys_write ebx ecx s
  perform env getpid ebx ecx edx s = returned (caller s.kernel) s
  perform env sleep ebx ecx edx s = sys_sleep ebx s
  perform env yield ebx ecx edx s = switch_to (Process.yield env.link env.esp s.kernel) s
  perform env kill ebx ecx edx s = sys_kill ebx s
  perform env fd_open ebx ecx edx s = sys_open ebx s
  perform env read ebx ecx edx s = sys_read env.link ebx ecx edx s
  perform env close ebx ecx edx s = sys_close ebx s
  perform env gettime ebx ecx edx s = sys_gettime env.cmos s
  perform env pipe_create ebx ecx edx s = sys_pipe_create s
  perform env pipe_write ebx ecx edx s = sys_pipe_write ebx ecx edx s
  perform env pipe_read ebx ecx edx s = sys_pipe_read env.link env.esp ebx ecx edx s
  perform env (unknown num) ebx ecx edx s = sys_unknown num s

  -- syscall_handler on EAX, EBX, ECX and EDX.
  pub handler : Env → ℕ → ℕ → ℕ → ℕ → State driver → Outcome driver
  unfolding decode perform
  handler env eax ebx ecx edx s = perform env (decode eax) ebx ecx edx s
