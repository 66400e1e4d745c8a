-- ===== src/Shell/Tests.antt =====
-- The theorems on kernel/shell.c at concrete lines.
use vesper_os.Prelude.{ℕ, ◌≡◌, refl, some, true, ◌+◌, List, [], ◌∷◌, ◌++◌, replicate, arith}
use vesper_os.Prelude.Text.{codes}
use vesper_os.Fs.{Driver, fs_magic, init, read_super}
use vesper_os.Fs.Tests.{numbered}
use vesper_os.Kmem.{Heap}
use vesper_os.Process.Tests.{link, crowd}
use vesper_os.Strings.{memcmp}
use vesper_os.Vga.{Screen, print_uint}
use vesper_os.Vga.Digits.{put_all}
use vesper_os.Shell.Execute.{kill, unknown, usage, recognise, Env}
use vesper_os.Shell.Line.{no_history, empty_line, history_get}
use vesper_os.Shell.Recall.{push_all, logged, Answers, history_get-push_all}
use vesper_os.Shell.State.{System}
use vesper_os.Shell.Files.{cmd_write}
use vesper_os.Shell.Text.{str_eq, str_startswith, parse_uint}
use vesper_os.Shell.Words.{parse_uint-print_uint, Stores, cmd_write-Stores, IsName}

abbrev screen : Screen
screen = record { buffer = replicate 2000 0; row = 0; col = 0; color = 7; cursor = 0 }

parse_uint-print_uint_example :
    (ds : List ℕ) × (print_uint 4096 screen ≡ put_all ds screen)
    × (parse_uint 0 (ds ++ codes " now") ≡ 4096)
parse_uint-print_uint_example = parse_uint-print_uint 4096 (codes " now") screen (omega arith) refl

abbrev name : List ℕ
name = codes "a.c"

name-IsName : IsName name
name-IsName =
    ((omega arith, omega arith), ((omega arith, omega arith), ((omega arith, omega arith), _)))

abbrev lines : List (List ℕ)
lines = codes "ps" ∷ codes "" ∷ codes "ls" ∷ []

history_get-push_all_example : Answers 2 (logged lines) (history_get 2 (push_all lines))
history_get-push_all_example = history_get-push_all lines 2 (omega arith)

abbrev heap : Heap
heap = record { head = 0; at = λ a. record { size = 0; free = 0; magic = 0; next = 0 } }

abbrev system : System numbered
system = record {
  screen = screen;
  heap = heap;
  ticks = 0;
  kernel = crowd;
  disk = 0;
  history = no_history;
  line = empty_line;
  run_buf = λ i. 0;
}

abbrev env : Env
env = record { link = link; esp = 0x8000; cmos = some (λ i. 0); rounds = 100 }

kill_line : recognise (codes "kill 12") ≡ kill (codes "12")
unfolding recognise str_eq str_startswith
kill_line = refl

kill_only : recognise (codes "kill") ≡ usage (codes "Usage: kill <pid>\n")
unfolding recognise str_eq str_startswith
kill_only = refl

not_known : recognise (codes "helper") ≡ unknown (codes "helper")
unfolding recognise str_eq str_startswith
not_known = refl

-- A file system on every sector, of the magic number and version 1.
abbrev formatted : Driver
formatted = record {
  Disk = ℕ;
  read_sectors = λ lba count d. (some (fs_magic ++ (1 ∷ replicate 503 0)), d);
  write_sectors = λ lba count bytes d. (true, d + 1);
}

abbrev formatted_system : System formatted
formatted_system = record {
  screen = screen;
  heap = heap;
  ticks = 0;
  kernel = crowd;
  disk = 0;
  history = no_history;
  line = empty_line;
  run_buf = λ i. 0;
}

formatted_found : init formatted 0 ≡ (true, 0)
unfolding init read_super memcmp
formatted_found = refl

cmd_write-Stores_example :
    Stores name
      (codes "int main")
      0
      formatted_system
      (cmd_write (name ++ (replicate 2 b' ' ++ codes "int main")) formatted_system)
cmd_write-Stores_example =
    cmd_write-Stores formatted name (codes "int main") 1 formatted_system 0 name-IsName
      (omega arith) (omega arith) refl formatted_found
