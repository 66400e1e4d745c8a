-- ===== src/Rtc/Tests.antt =====
-- The theorems on kernel/rtc.c at concrete clocks.
use vesper_os.Prelude.{ℕ, ◌+◌, ◌≡◌, refl, ◌==◌, if◌then◌else◌, arith}
use vesper_os.Rtc.{Time, read}
use vesper_os.Rtc.Clock.{bcd_clock, read-bcd_clock, read_afternoon}

abbrev new_year : Time
new_year = record { year = 2025; month = 12; day = 31; hour = 23; minute = 59; second = 58 }

read-bcd_clock_example : read (bcd_clock new_year 2) ≡ new_year
read-bcd_clock_example =
    read-bcd_clock new_year 2
      (record {
        year_lo = omega arith;
        year_hi = omega arith;
        month = omega arith;
        day = omega arith;
        hour = omega arith;
        minute = omega arith;
        second = omega arith;
      })
      refl refl

-- A clock in 12-hour mode at eleven in the evening.
abbrev evening : ℕ → ℕ
evening reg = if reg == 11 then 0 else if reg == 4 then 0x91 else 0

read_afternoon_example : (read evening).hour ≡ 80 + 11
read_afternoon_example = read_afternoon evening 11 refl refl (omega arith) (omega arith) refl
