-- ===== src/Timer/Tests.antt =====
-- The theorems on kernel/timer.c at concrete counts.
use vesper_os.Prelude.{ℕ, ◌+◌, ◌-◌, ◌/◌, ◌^◌, ◌<◌, ◌≡◌, refl, some, [], arith}
use vesper_os.Process
use vesper_os.Process.Tests.{link, crowd}
use vesper_os.Serial.Tests.{line}
use vesper_os.Timer.{Timer, sleep_ms}
use vesper_os.Timer.Slice.{run, run_slice}
use vesper_os.Timer.Wait.{sleep_ms_lem, sleep_ms_wraps}

sleep_ms_lem_example : sleep_ms 1000 95 700 ≡ some ((95 + 9) / 10)
sleep_ms_lem_example = sleep_ms_lem 1000 95 700 (omega arith) (omega arith) (omega arith)

sleep_ms_wraps_example : sleep_ms 1 1000 (2 ^ 32 - 1) ≡ some 0
sleep_ms_wraps_example =
    sleep_ms_wraps 0 1000 (2 ^ 32 - 1) (omega arith) (omega arith) (omega arith)

abbrev timer : Timer line
timer = record { ticks = 10; kernel = crowd; device = ([], 0) }

run_slice_example :
    ((n : ℕ) → n < 5 → run line link 0x8000 n timer ≡ record timer { ticks = 10 + n })
    × (run line link 0x8000 5 timer ≡ record {
      ticks = 10 + 5;
      kernel = (Process.yield link 0x8000 crowd).1;
      device = line.outb 0x20 0x20 ([], 0);
    })
run_slice_example = run_slice line link 0x8000 timer 3 refl refl (omega arith)
