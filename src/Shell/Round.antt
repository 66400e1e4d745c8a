-- ===== src/Shell/Round.antt =====
-- A round of shell_run of kernel/shell.c keeps the screen and the process table valid.
use vesper_os.Prelude.{
  ℕ, ◌≡◌, ◌⊎◌, inl, inr, Option, none, some, Option-cases, List, ◌==◌, Bool-cases,
}
use vesper_os.Fs.{Driver}
use vesper_os.Vga.{Screen}
use vesper_os.Vga.Cursor.{IsScreen}
use vesper_os.Vga.Shown.{clear-IsScreen, printf-IsScreen}
use vesper_os.Shell.Commands.{
  cmd_help, cmd_clear, cmd_echo, cmd_version, cmd_colortest, cmd_halt, cmd_reboot, cmd_uptime,
  cmd_ps, date, cmd_date,
}
use vesper_os.Shell.Execute.{
  Command, help, clear, version, meminfo, uptime, ps, colortest, mkfs, ls, halt, reboot, echo, kill,
  sleep, cat, write, rm, run, exec, unknown, line_break, usage, Env, cmd_unknown, perform,
  recognise, prompt, execute_command, run_round,
}
use vesper_os.Shell.Execute
use vesper_os.Shell.Line.{Editor, read_line}
use vesper_os.Shell.Safe.{
  Kind, ends, may_wait, may_overwrite, IsSafe, Ends, shown, cmd_meminfo-Ends, cmd_kill-Ends,
  cmd_sleep-Ends, cmd_mkfs-Ends, cmd_ls-Ends, cmd_cat-Ends, cmd_write-Ends, cmd_rm-Ends,
  cmd_run-Ends, cmd_exec-Ends,
}
use vesper_os.Shell.State.{System, Outcome, say}
use vesper_os.Shell.Text.{first, skip_spaces}

-- The editor's screen is valid.
abbrev Shows : Editor → Type 0
Shows e = IsScreen e.screen

-- The editor that the loop ends with.
abbrev LoopShows : Option (Editor × List ℕ) → Type 0
LoopShows none = Unit {0}
LoopShows (some (e, keys)) = Shows e

-- Only meminfo, sleep and cat may wait for more rounds than they are given, and date for the clock;
-- only run may overwrite.
pub kind_of : Command → Kind
kind_of meminfo = may_wait
kind_of Execute.date = may_wait
kind_of (sleep args) = may_wait
kind_of (cat name) = may_wait
kind_of (run name) = may_overwrite
kind_of command = ends

module _ {driver : Driver} where
  perform-Ends :
      (env : Env) (command : Command) (s : System driver)
      → IsSafe s
      → Ends (kind_of command) (perform env command s)
  unfolding kind_of perform cmd_help cmd_clear cmd_echo cmd_version cmd_colortest cmd_halt
      cmd_reboot cmd_uptime cmd_ps cmd_date date cmd_unknown
  perform-Ends env help s v = shown _ v
  perform-Ends env clear s v = (clear-IsScreen s.screen v.0, v.1)
  perform-Ends env (echo args) s v = shown _ v
  perform-Ends env line_break s v = shown _ v
  perform-Ends env version s v = shown _ v
  perform-Ends env meminfo s v = cmd_meminfo-Ends s v
  perform-Ends env uptime s v = shown _ v
  perform-Ends env Execute.date s v = elim (Option-cases env.cmos) [
    | inl e ↦ rw (e, perform, cmd_date) _
    | inr (cmos, e) ↦ rw (e, perform, cmd_date) (printf-IsScreen _ _ s.screen v.0, v.1)
  ]
  perform-Ends env ps s v = shown _ v
  perform-Ends env (kill args) s v = cmd_kill-Ends ends env.link args s v
  perform-Ends env (sleep args) s v = cmd_sleep-Ends env.rounds args s v
  perform-Ends env colortest s v = shown _ v
  perform-Ends env mkfs s v = cmd_mkfs-Ends ends s v
  perform-Ends env ls s v = cmd_ls-Ends ends s v
  perform-Ends env (cat name) s v = cmd_cat-Ends name s v
  perform-Ends env (write args) s v = cmd_write-Ends ends args s v
  perform-Ends env (rm name) s v = cmd_rm-Ends ends name s v
  perform-Ends env (run name) s v = cmd_run-Ends env.link env.esp name s v
  perform-Ends env (exec name) s v = cmd_exec-Ends ends env.link env.esp name s v
  perform-Ends env (usage message) s v = shown _ v
  perform-Ends env halt s v = shown _ v
  perform-Ends env reboot s v = shown _ v
  perform-Ends env (unknown cmd) s v = shown _ v

  pub execute_command-Ends :
      (env : Env) (line : List ℕ) (s : System driver)
      → IsSafe s
      → Ends (kind_of (recognise (skip_spaces line))) (execute_command env line s)
  unfolding execute_command
  execute_command-Ends env line s v = elim (Bool-cases (first (skip_spaces line) == 0)) [
    | inl e ↦ rw (e, execute_command) v
    | inr e ↦ rw (e, execute_command) (perform-Ends env (recognise (skip_spaces line)) s v)
  ]

-- A round of shell_run has no complete line yet; or it has read one, and its command ends as one of
-- its kind.
abbrev pub RoundEnds : {driver : Driver} → Env → List ℕ → System driver → Type 0
RoundEnds {driver} env keys s =
    ((read_line s.history s.line keys (say prompt s).screen ≡ none) × (run_round env keys s ≡ none))
    ⊎ ((buf : List ℕ) × (screen : Screen) × (rest : List ℕ) × (out : Outcome driver) × (read_line
            s.history s.line keys (say prompt s).screen
          ≡ some (buf, screen, rest))
        × (run_round env keys s ≡ some (out, rest))
        × Ends (kind_of (recognise (skip_spaces buf))) out)
