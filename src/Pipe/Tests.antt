-- ===== src/Pipe/Tests.antt =====
-- Runs of the pipes, and their theorems at inputs that meet their hypotheses.
use vesper_os.Prelude.{
  ℕ, zero, suc, ◌<◌, ◌≡◌, refl, true, false, none, List, [], ◌∷◌, get_or, replicate, arith,
}
use vesper_os.Prelude.Int.{pos, negsuc}
use vesper_os.Process.{Kernel}
use vesper_os.Pipe.{
  Pipe, Pipes, pipe, zero_pipe, alloc, write, read, close, got, failed, waiting, valid_id,
  write_loop, push_byte,
}
use vesper_os.Pipe.Ring.{contents, IsRing}
use vesper_os.Pipe.Transfer.{IsTable, WriteDone, write_lem, read-write}
use vesper_os.Pipe.Close.{zero_pipe-IsRing, close_refuses, close-alloc_keeps_waiting}

abbrev kernel : Kernel
kernel = record {
  procs = [];
  current = none;
  next_pid = 0;
  esp0 = 0;
  machine = record {
    mem = λ a. 0;
    cr3 = 0;
    paging_on = true;
    faulted = false;
    pmm = record { bitmap = []; free = 0; total = 0 };
  };
}

-- Eight open pipes, all empty.
abbrev open_pipe : Pipe
open_pipe = record zero_pipe { opened = true }

abbrev pub pipes : Pipes
pipes = replicate 8 open_pipe

abbrev hello : List ℕ
hello = b'h' ∷ b'i' ∷ []

write_two : (write (pos 2) hello pipes kernel).0 ≡ pos 2
unfolding write valid_id write_loop push_byte
write_two = refl

all_rings : (n i : ℕ) → IsRing (get_or (replicate n open_pipe) i zero_pipe)
all_rings zero i = zero_pipe-IsRing false
all_rings (suc n) zero = zero_pipe-IsRing true
all_rings (suc n) (suc i) = all_rings n i

pub pipes-IsTable : IsTable pipes
pipes-IsTable = record { slots = refl; rings = λ i l. all_rings 8 i }

write_lem_example : WriteDone 2 hello pipes kernel (write (pos 2) hello pipes kernel)
write_lem_example = write_lem 2 hello kernel pipes-IsTable (omega arith) refl

-- Pipe 0 holds two bytes.
abbrev filled : Pipes
filled =
    record open_pipe { buf = b'h' ∷ b'i' ∷ replicate 254 0; tail = 2; count = 2 }
    ∷ replicate 7 open_pipe

filled-IsTable : IsTable filled
filled-IsTable = record { slots = refl; rings = rings }
  where
    rings : (i : ℕ) → i < 8 → IsRing (pipe filled i)
    rings zero l = record {
      storage = refl;
      head_in = omega arith;
      count_in = omega arith;
      tail_at = refl;
    }
    rings (suc i) l = all_rings 7 i

read-write_example :
    (ps' : Pipes) × (read (pos 2) 2 true (write (pos 2) hello pipes kernel).1 [] ≡ got hello ps')
    × (contents (pipe ps' 2) ≡ [])
read-write_example =
    read-write 2 hello true kernel [] pipes-IsTable (omega arith) refl refl (omega arith)
      (omega arith)

close_refuses_example :
    let (ps', k') = close (pos 0) filled kernel in
    (read (pos 0) 5 true ps' [] ≡ failed) × (write (pos 0) hello ps' k' ≡ (negsuc 0, ps', k'))
close_refuses_example = close_refuses 0 kernel filled-IsTable (omega arith) 5 true [] hello

close-alloc_keeps_waiting_example :
    read (pos 0) 5 true pipes ((alloc (close (pos 0) pipes kernel).0).1 ∷ []) ≡ waiting
close-alloc_keeps_waiting_example =
    close-alloc_keeps_waiting 0 kernel pipes-IsTable (omega arith) 5 refl refl (λ j l. elim l [ ])
