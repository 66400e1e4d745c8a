-- ===== src/Process/Listing.antt =====
-- process_print_all of kernel/process.c: the lines of the command ps.
use vesper_os.Prelude.{ℕ, List, [], ◌∷◌, ◌++◌, if◌then◌else◌}
use vesper_os.Prelude.Text.{codes}
use vesper_os.Vga.Output.{Item, uint, char, text, cyan, grey}
use vesper_os.Process.{ProcState, unused, ready, running, blocked, zombie, Proc, Kernel, has}

pub state_name : ProcState → List ℕ
state_name unused = codes "unused "
state_name ready = codes "ready  "
state_name running = codes "running"
state_name blocked = codes "blocked"
state_name zombie = codes "zombie "

pub line : Proc → List Item
unfolding state_name
line p =
    uint p.pid
    ∷ text (codes "    ")
    ∷ text (state_name p.state)
    ∷ text (codes "  ")
    ∷ text (if p.is_user then codes "user  " else codes "kernel")
    ∷ text (codes "  ")
    ∷ text p.name
    ∷ char b'\n'
    ∷ []

pub lines : List Proc → List Item
unfolding line
lines [] = []
lines (p ∷ ps) = if has unused p then lines ps else line p ++ lines ps

pub print_all : Kernel → List Item
unfolding lines
print_all k =
    cyan
    ∷ text (codes "PID  STATE    MODE    NAME\n")
    ∷ text (codes "---  -------  ------  ----------------\n")
    ∷ grey
    ∷ lines k.procs
