-- ===== src/Shell/State.antt =====
-- What the shell acts on, and how one of its commands ends.
use vesper_os.Prelude.{ℕ, true, false, List, [], ◌∷◌, get_or, ◌==◌, if◌then◌else◌}
use vesper_os.Fs
use vesper_os.Fs.{Driver}
use vesper_os.Kmem.{Heap}
use vesper_os.Process.{Kernel}
use vesper_os.Vga.{Screen}
use vesper_os.Vga.Output.{Item, text, red, grey, show}
use vesper_os.Shell.Line.{History}

pub record System (driver : Driver) : Type 0 where
  pub screen : Screen
  pub heap : Heap
  pub ticks : ℕ
  pub kernel : Kernel
  pub disk : driver.Disk
  pub history : History
  pub line : List ℕ
  pub run_buf : ℕ → ℕ

-- A command returns, gives the processor to a process with the stack pointer that is loaded, stops
-- the processor, or resets the machine; `unfinished` is a loop that has not ended, and `overwritten`
-- a program that was loaded over the kernel's own bytes, after which nothing is said of the state.
pub data Outcome (driver : Driver) : Type 0 where
  returned : System driver → Outcome driver
  switched : ℕ → System driver → Outcome driver
  halted : System driver → Outcome driver
  reset : System driver → Outcome driver
  unfinished : Outcome driver
  overwritten : Outcome driver

-- A message in red.
abbrev pub failure : List ℕ → List Item
failure message = red ∷ text message ∷ grey ∷ []

module _ {driver : Driver} where
  abbrev pub say : List Item → System driver → System driver
  say items s = record s { screen = show items s.screen }

  abbrev pub set_disk : driver.Disk → System driver → System driver
  set_disk d s = record s { disk = d }

  abbrev pub set_kernel : Kernel → System driver → System driver
  set_kernel k s = record s { kernel = k }

  -- `if (!fs_init()) { ...; return; }` with the message that is printed.
  unfoldable pub mounted :
      List ℕ → (System driver → Outcome driver) → System driver → Outcome driver
  mounted message go s =
      let (ok, d) = Fs.init driver s.disk in
      elim ok [ false ↦ returned (say (failure message) (set_disk d s)) | true ↦ go (set_disk d s) ]

  -- `if (name[0] == '\0') { ...; return; }` with the usage that is printed.
  unfoldable pub named :
      List ℕ → List ℕ → (System driver → Outcome driver) → System driver → Outcome driver
  named usage name go s = if get_or name 0 0 == 0 then returned (say (text usage ∷ []) s) else go s
