-- ===== src/Timer.antt =====
-- kernel/timer.c and timer.h: the tick counter, the time slice and the wait in milliseconds;
-- timer_init is in Timer.Setup. `hlt` in the wait lasts until the next tick, and the wait's loop
-- runs on rounds: `none` is a loop that has not ended.
pub mod Slice
pub mod Wait
pub mod Setup
mod Tests
use vesper_os.Prelude.{
  ℕ, zero, suc, ◌+◌, ◌*◌, ◌/◌, ◌%◌, ◌^◌, Bool, true, false, Option, none, some, ltb, ◌==◌,
  if◌then◌else◌,
}
use vesper_os.Pic
use vesper_os.Port.{Ports}
use vesper_os.Process
use vesper_os.Process.{Kernel, Link}

abbrev pub timer_hz : ℕ
timer_hz = 100

abbrev pub sched_slice : ℕ
sched_slice = 5

pub record Timer (ports : Ports) : Type 0 where
  pub ticks : ℕ
  pub kernel : Kernel
  pub device : ports.Device

abbrev pub bump : ℕ → ℕ
bump ticks = (ticks + 1) % 2 ^ 32

module _ (ports : Ports) where
  -- The end of interrupt and process_yield if there is a current process; `esp` is the interrupted
  -- stack pointer.
  pub yield_current : Link → ℕ → Option ℕ → Timer ports → Timer ports
  yield_current link esp none t = t
  yield_current link esp (some i) t = record t {
    kernel = (Process.yield link esp t.kernel).1;
    device = Pic.send_eoi ports 0 t.device;
  }

  pub irq_handler : Link → ℕ → Timer ports → Timer ports
  unfolding yield_current
  irq_handler link esp t =
      let ticked : Timer ports = record t { ticks = bump t.ticks } in
      let yielded = yield_current link esp t.kernel.current ticked in
      if bump t.ticks % sched_slice == 0 then yielded else ticked

  abbrev pub get_uptime_sec : Timer ports → ℕ
  get_uptime_sec t = t.ticks / timer_hz

-- The tick at which timer_sleep_ms ends.
abbrev pub target : ℕ → ℕ → ℕ
target ms ticks = (ticks + (ms * timer_hz + 999) % 2 ^ 32 / 1000) % 2 ^ 32

-- How often the loop of timer_sleep_ms halts.
pub wait_loop : ℕ → ℕ → ℕ → Option ℕ
wait_loop zero until ticks = none
wait_loop (suc n) until ticks =
    let rest = wait_loop n until (bump ticks) in
    if ltb ticks until then elim rest [ none ↦ none | some k ↦ some (suc k) ] else some 0

pub sleep_ms : ℕ → ℕ → ℕ → Option ℕ
sleep_ms rounds ms ticks = wait_loop rounds (target ms ticks) ticks
