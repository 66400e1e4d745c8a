-- ===== src/Syscall/Safe.antt =====
-- What every system call of kernel/syscall.c keeps.
use vesper_os.Prelude.{◌≡◌, true, none, length}
use vesper_os.Fd
use vesper_os.Fs.{Driver}
use vesper_os.Pipe
use vesper_os.Pipe.Transfer.{IsTable}
use vesper_os.Process.{reaches}
use vesper_os.Process.Sched.{IsValid}
use vesper_os.Timer
use vesper_os.Vga
use vesper_os.Vga.Cursor.{IsScreen}
use vesper_os.Syscall.{
  State, Outcome, returned, switched, stopped, overwritten, unfinished, Env, Call, sleep, read,
  gettime, pipe_read,
}

-- The invariants of the components that system calls act on.
pub record IsSafe {driver : Driver} (s : State driver) : Type 0 where
  pub kernel : IsValid s.kernel
  pub screen : IsScreen s.screen
  pub pipes : IsTable s.pipes
  pub fds : length s.fds ≡ Fd.fd_max

-- A call that returns, switches or stops leaves a safe state. Only SYS_SLEEP stops, only SYS_READ
-- and SYS_PIPE_READ overwrite, and then bytes of the kernel; only SYS_GETTIME waits for the clock,
-- and only for one whose update does not end.
abbrev pub Ends : {driver : Driver} → Env → Call → Outcome driver → Type 0
Ends env call (returned eax s) = IsSafe s
Ends env call (switched esp s) = IsSafe s
Ends env sleep (stopped s) = IsSafe s
Ends env call (stopped s) = ⊥
Ends env read (overwritten n a) = reaches env.link n a ≡ true
Ends env pipe_read (overwritten n a) = reaches env.link n a ≡ true
Ends env call (overwritten n a) = ⊥
Ends env gettime unfinished = env.cmos ≡ none
Ends env call unfinished = ⊥
