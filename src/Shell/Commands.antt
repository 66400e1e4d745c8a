-- ===== src/Shell/Commands.antt =====
-- The commands of kernel/shell.c that use neither files nor programs.
use vesper_os.Prelude.{
  ℕ, ◌+◌, ◌*◌, ◌/◌, ◌%◌, ◌^◌, Option, none, some, List, [], ◌∷◌, ◌==◌, if◌then◌else◌,
}
use vesper_os.Prelude.Int.{ℤ, pos, negsuc}
use vesper_os.Prelude.Text.{codes}
use vesper_os.Fs.{Driver}
use vesper_os.Kmem
use vesper_os.Process
use vesper_os.Process.Listing
use vesper_os.Rtc
use vesper_os.Timer
use vesper_os.Vga
use vesper_os.Vga.Output.{Item, uint, char, text, green, cyan, red, yellow, grey}
use vesper_os.Vga.Printf.{word, printf}
use vesper_os.Shell.Messages.{help, version, colortest}
use vesper_os.Shell.State.{System, Outcome, returned, halted, reset, unfinished, say, set_kernel}
use vesper_os.Shell.Text.{parse_uint}

pub meminfo_items : ℕ → ℕ → ℕ → ℕ → ℕ → List Item
meminfo_items used free total frames free_frames =
    cyan
    ∷ text (codes "Heap Memory:\n")
    ∷ grey
    ∷ text (codes "  Total  : ")
    ∷ uint (total / 1024)
    ∷ text (codes " KB (")
    ∷ uint total
    ∷ text (codes " bytes)\n")
    ∷ text (codes "  Used   : ")
    ∷ uint used
    ∷ text (codes " bytes\n")
    ∷ text (codes "  Free   : ")
    ∷ uint free
    ∷ text (codes " bytes\n")
    ∷ cyan
    ∷ text (codes "Physical Memory (PMM):\n")
    ∷ grey
    ∷ text (codes "  Total  : ")
    ∷ uint (frames * 4 % 2 ^ 32)
    ∷ text (codes " KB (")
    ∷ uint frames
    ∷ text (codes " frames)\n")
    ∷ text (codes "  Free   : ")
    ∷ uint (free_frames * 4 % 2 ^ 32)
    ∷ text (codes " KB (")
    ∷ uint free_frames
    ∷ text (codes " frames)\n")
    ∷ []

pub uptime_items : ℕ → List Item
uptime_items ticks =
    let secs = ticks / Timer.timer_hz in
    let mins = secs / 60 in
    text (codes "Uptime: ")
    ∷ uint (mins / 60)
    ∷ text (codes "h ")
    ∷ uint (mins % 60)
    ∷ text (codes "m ")
    ∷ uint (secs % 60)
    ∷ text (codes "s  (")
    ∷ uint ticks
    ∷ text (codes " ticks at 100 Hz)\n")
    ∷ []

unfoldable pub date : Rtc.Time → Vga.Screen → Vga.Screen
date t s =
    printf (codes "Date: %u-%02u-%02u  Time: %02u:%02u:%02u\n")
      (word t.year ∷ word t.month ∷ word t.day ∷ word t.hour ∷ word t.minute ∷ word t.second ∷ []) s

-- What cmd_kill prints for a result of process_kill.
abbrev pub killed : ℕ → ℤ → List Item
killed pid (pos n) =
    green ∷ text (codes "Process ") ∷ uint pid ∷ text (codes " terminated.\n") ∷ grey ∷ []
killed pid (negsuc n) =
    red ∷ text (codes "No such process: PID ") ∷ uint pid ∷ char b'\n' ∷ grey ∷ []

module _ {driver : Driver} where
  unfoldable pub cmd_help : System driver → Outcome driver
  cmd_help s = returned (say help s)

  unfoldable pub cmd_clear : System driver → Outcome driver
  cmd_clear s = returned (record s { screen = Vga.clear s.screen })

  unfoldable pub cmd_echo : List ℕ → System driver → Outcome driver
  cmd_echo args s = returned (say (text args ∷ char b'\n' ∷ []) s)

  unfoldable pub cmd_version : System driver → Outcome driver
  cmd_version s = returned (say version s)

  unfoldable pub cmd_colortest : System driver → Outcome driver
  cmd_colortest s = returned (say colortest s)

  unfoldable pub cmd_meminfo : System driver → Outcome driver
  unfolding meminfo_items
  cmd_meminfo s = elim (Kmem.kmem_info s.heap) [
    | none ↦ unfinished
    | some (used, free, total) ↦
        let pmm = s.kernel.machine.pmm in
        returned (say (meminfo_items used free total pmm.total pmm.free) s)
  ]

  unfoldable pub cmd_halt : System driver → Outcome driver
  cmd_halt s = halted (say (yellow ∷ text (codes "CPU halted. Reset to continue.\n") ∷ grey ∷ []) s)

  -- The write to the keyboard controller pulses the reset line.
  unfoldable pub cmd_reboot : System driver → Outcome driver
  cmd_reboot s = reset (say (yellow ∷ text (codes "Rebooting...\n") ∷ grey ∷ []) s)

  unfoldable pub cmd_uptime : System driver → Outcome driver
  unfolding uptime_items
  cmd_uptime s = returned (say (uptime_items s.ticks) s)

  unfoldable pub cmd_ps : System driver → Outcome driver
  cmd_ps s = returned (say (Process.Listing.print_all s.kernel) s)

  -- The registers of the clock once the wait of rtc_read has ended, or none.
  unfoldable pub cmd_date : Option (ℕ → ℕ) → System driver → Outcome driver
  unfolding date
  cmd_date none s = unfinished
  cmd_date (some cmos) s = returned (record s { screen = date (Rtc.read cmos) s.screen })

  unfoldable pub cmd_kill : List ℕ → System driver → Outcome driver
  cmd_kill args s =
      let pid = parse_uint 0 args in
      let (res, k) = Process.kill pid s.kernel in
      if pid == 0
      then returned (say (text (codes "Usage: kill <pid>\n") ∷ []) s)
      else returned (say (killed pid res) (set_kernel k s))

  -- The waiting loop has `rounds` rounds.
  unfoldable pub cmd_sleep : ℕ → List ℕ → System driver → Outcome driver
  cmd_sleep rounds args s =
      let ms = parse_uint 0 args in
      let s1 = say (text (codes "Sleeping ") ∷ uint ms ∷ text (codes " ms...\n") ∷ []) s in
      let slept : Outcome driver = elim (Timer.sleep_ms rounds ms s.ticks) [
        | none ↦ unfinished
        | some halts ↦
            returned
              (say (text (codes "Done.\n") ∷ []) (record s1 { ticks = (s.ticks + halts) % 2 ^ 32 }))
      ] in
      if ms == 0
      then returned (say (text (codes "Usage: sleep <milliseconds>\n") ∷ []) s)
      else slept
