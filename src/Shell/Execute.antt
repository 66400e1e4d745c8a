-- ===== src/Shell/Execute.antt =====
-- execute_command and a round of shell_run of kernel/shell.c.
use vesper_os.Prelude.{ℕ, Option, none, some, List, [], ◌∷◌, drop, ◌==◌, if◌then◌else◌}
use vesper_os.Prelude.Text.{codes}
use vesper_os.Fs.{Driver}
use vesper_os.Process.{Link}
use vesper_os.Vga.Output.{Item, char, text, green, red, grey}
use vesper_os.Shell.Commands.{
  cmd_help, cmd_clear, cmd_echo, cmd_version, cmd_meminfo, cmd_uptime, cmd_date, cmd_ps, cmd_kill,
  cmd_sleep, cmd_colortest, cmd_halt, cmd_reboot,
}
use vesper_os.Shell.Files.{cmd_mkfs, cmd_ls, cmd_cat, cmd_write, cmd_rm}
use vesper_os.Shell.Line.{history_push, read_line}
use vesper_os.Shell.Programs.{cmd_run, cmd_exec}
use vesper_os.Shell.State.{System, Outcome, returned, say}
use vesper_os.Shell.Text.{first, str_eq, str_startswith, skip_spaces}

-- The commands that execute_command tells apart, with their arguments.
pub data Command : Type 0 where
  help clear version meminfo uptime date ps colortest mkfs ls halt reboot : Command
  echo kill sleep cat write rm run exec unknown : List ℕ → Command
  line_break : Command
  usage : List ℕ → Command

-- The tests of execute_command on a line that is not blank.
unfoldable pub recognise : List ℕ → Command
recognise cmd =
    if str_eq cmd (codes "help")
    then help
    else if str_eq cmd (codes "clear")
    then clear
    else if str_startswith cmd (codes "echo ")
    then echo (drop 5 cmd)
    else if str_eq cmd (codes "echo")
    then line_break
    else if str_eq cmd (codes "version")
    then version
    else if str_eq cmd (codes "meminfo")
    then meminfo
    else if str_eq cmd (codes "uptime")
    then uptime
    else if str_eq cmd (codes "date")
    then date
    else if str_eq cmd (codes "ps")
    then ps
    else if str_startswith cmd (codes "kill ")
    then kill (drop 5 cmd)
    else if str_eq cmd (codes "kill")
    then usage (codes "Usage: kill <pid>\n")
    else if str_startswith cmd (codes "sleep ")
    then sleep (drop 6 cmd)
    else if str_eq cmd (codes "sleep")
    then usage (codes "Usage: sleep <milliseconds>\n")
    else if str_eq cmd (codes "colortest")
    then colortest
    else if str_eq cmd (codes "mkfs")
    then mkfs
    else if str_eq cmd (codes "ls")
    then ls
    else if str_startswith cmd (codes "cat ")
    then cat (drop 4 cmd)
    else if str_eq cmd (codes "cat")
    then usage (codes "Usage: cat <filename>\n")
    else if str_startswith cmd (codes "write ")
    then write (drop 6 cmd)
    else if str_eq cmd (codes "write")
    then usage (codes "Usage: write <filename> <text>\n")
    else if str_startswith cmd (codes "rm ")
    then rm (drop 3 cmd)
    else if str_eq cmd (codes "rm")
    then usage (codes "Usage: rm <filename>\n")
    else if str_startswith cmd (codes "run ")
    then run (drop 4 cmd)
    else if str_eq cmd (codes "run")
    then usage (codes "Usage: run <filename>\n")
    else if str_startswith cmd (codes "exec ")
    then exec (drop 5 cmd)
    else if str_eq cmd (codes "exec")
    then usage (codes "Usage: exec <filename>\n")
    else if str_eq cmd (codes "halt")
    then halt
    else if str_eq cmd (codes "reboot")
    then reboot
    else unknown cmd

-- What a command needs from outside the shell: the linker's addresses, the stack pointer, the clock,
-- and the rounds of a wait.
pub record Env : Type 0 where
  pub link : Link
  pub esp : ℕ
  pub cmos : Option (ℕ → ℕ)
  pub rounds : ℕ

-- SHELL_PROMPT and its colours.
abbrev pub prompt : List Item
prompt = green ∷ text (codes "vesper> ") ∷ grey ∷ []

module _ {driver : Driver} where
  unfoldable pub cmd_unknown : List ℕ → System driver → Outcome driver
  cmd_unknown cmd s = returned (
      say
        (red
          ∷ text (codes "Unknown command: ")
          ∷ text cmd
          ∷ char b'\n'
          ∷ grey
          ∷ text (codes "Type 'help' for a list of available commands.\n")
          ∷ [])
        s)

  -- The calls of execute_command.
  unfoldable pub perform : Env → Command → System driver → Outcome driver
  unfolding cmd_unknown
  perform env help s = cmd_help s
  perform env clear s = cmd_clear s
  perform env (echo args) s = cmd_echo args s
  perform env line_break s = returned (say (char b'\n' ∷ []) s)
  perform env version s = cmd_version s
  perform env meminfo s = cmd_meminfo s
  perform env uptime s = cmd_uptime s
  perform env date s = cmd_date env.cmos s
  perform env ps s = cmd_ps s
  perform env (kill args) s = cmd_kill args s
  perform env (sleep args) s = cmd_sleep env.rounds args s
  perform env colortest s = cmd_colortest s
  perform env mkfs s = cmd_mkfs s
  perform env ls s = cmd_ls s
  perform env (cat name) s = cmd_cat name s
  perform env (write args) s = cmd_write args s
  perform env (rm name) s = cmd_rm name s
  perform env (run name) s = cmd_run env.link env.esp name s
  perform env (exec name) s = cmd_exec env.link env.esp name s
  perform env (usage message) s = returned (say (text message ∷ []) s)
  perform env halt s = cmd_halt s
  perform env reboot s = cmd_reboot s
  perform env (unknown cmd) s = cmd_unknown cmd s

  unfoldable pub execute_command : Env → List ℕ → System driver → Outcome driver
  unfolding recognise perform
  execute_command env line s =
      let cmd = skip_spaces line in
      if first cmd == 0 then returned s else perform env (recognise cmd) s

  -- A round of shell_run on the characters that the keyboard gives: how the command ends, and the
  -- characters that are left; none if the line is not complete.
  unfoldable pub run_round : Env → List ℕ → System driver → Option (Outcome driver × List ℕ)
  unfolding execute_command
  run_round env keys s =
      let prompted = say prompt s in
      elim (read_line s.history s.line keys prompted.screen) [
        | none ↦ none
        | some (buf, screen, rest) ↦ some (
          execute_command env buf
              (record s { screen = screen; line = buf; history = history_push buf s.history }),
          rest,
        )
      ]
