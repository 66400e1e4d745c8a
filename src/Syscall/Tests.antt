-- ===== src/Syscall/Tests.antt =====
-- The theorem on kernel/syscall.c for a write to a pipe.
use vesper_os.Prelude.{some, replicate}
use vesper_os.Fd
use vesper_os.Fs.Tests.{numbered}
use vesper_os.Pipe.Tests.{pipes}
use vesper_os.Process.Tests.{link, crowd}
use vesper_os.Syscall.{State, Env}

-- Every byte of the caller's memory is an x.
abbrev state : State numbered
state = record {
  kernel = crowd;
  screen = record { buffer = replicate 2000 0; row = 0; col = 0; color = 7; cursor = 0 };
  ticks = 0;
  pipes = pipes;
  fds = replicate 16 Fd.no_entry;
  disk = 0;
  memory = λ a. b'x';
}

abbrev env : Env
env = record { link = link; esp = 0x8000; cmos = some (λ i. 0) }
