-- ===== src/Rtc.antt =====
-- kernel/rtc.c and rtc.h: reading the date and the time. `cmos` gives the byte in each register of the
-- clock while no update is in progress; Rtc.Device has the wait for that and the port accesses.
-- A uint8_t or uint16_t keeps its wrap-around.
pub mod Clock
pub mod Device
mod Tests
use vesper_os.Prelude.{
  ℕ, ◌+◌, ◌*◌, ◌/◌, ◌%◌, ◌^◌, Bool, true, false, ◌&&◌, not, ltb, ◌==◌, if◌then◌else◌,
}

pub record Time : Type 0 where
  pub year : ℕ
  pub month : ℕ
  pub day : ℕ
  pub hour : ℕ
  pub minute : ℕ
  pub second : ℕ

pub bcd_to_bin : ℕ → ℕ
bcd_to_bin bcd = (bcd / 16 % 16 * 10 + bcd % 16) % 2 ^ 8

-- Whether a bit of a byte is set.
abbrev pub bit : ℕ → ℕ → Bool
bit value n = value / 2 ^ n % 2 == 1

abbrev pub read_registers : (ℕ → ℕ) → Time
read_registers cmos = record {
  year = cmos 9;
  month = cmos 8;
  day = cmos 7;
  hour = cmos 4;
  minute = cmos 2;
  second = cmos 0;
}

pub convert : Time → Time
unfolding bcd_to_bin
convert t = record {
  year = bcd_to_bin (t.year % 2 ^ 8);
  month = bcd_to_bin t.month;
  day = bcd_to_bin t.day;
  hour = bcd_to_bin t.hour;
  minute = bcd_to_bin t.minute;
  second = bcd_to_bin t.second;
}

-- `status_b & 0x02` is clear and the hour has its bit 7 set.
pub afternoon : ℕ → Time → Time
afternoon status_b t =
    if not (bit status_b 1) && bit t.hour 7
    then record t { hour = (t.hour % 2 ^ 7 + 12) % 24 }
    else t

pub full_year : Time → Time
full_year t = record t { year = (t.year + (if ltb t.year 70 then 2000 else 1900)) % 2 ^ 16 }

-- The conversions, with status register B.
abbrev pub finish : ℕ → Time → Time
unfolding convert afternoon full_year
finish status_b t = full_year (afternoon status_b (if bit status_b 2 then t else convert t))

pub read : (ℕ → ℕ) → Time
unfolding finish
read cmos = finish (cmos 11) (read_registers cmos)
