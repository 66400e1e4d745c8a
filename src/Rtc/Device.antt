-- ===== src/Rtc/Device.antt =====
-- rtc_read of kernel/rtc.c behind the ports of the CMOS clock. The wait for the end of an update has
-- rounds: `none` is a wait that has not ended.
use vesper_os.Prelude.{ℕ, zero, suc, ◌+◌, Option, none, some, if◌then◌else◌}
use vesper_os.Port.{Ports}
use vesper_os.Rtc.{Time, bit, finish}

abbrev pub cmos_idx : ℕ
cmos_idx = 0x70

abbrev pub cmos_data : ℕ
cmos_data = 0x71

module _ (ports : Ports) where
  -- `NMI_DISABLE | reg`: a register's number is below 16.
  unfoldable pub cmos_read : ℕ → ports.Device → ℕ × ports.Device
  cmos_read reg d = ports.inb cmos_data (ports.outb cmos_idx (0x80 + reg) d)

  unfoldable pub wait_update : ℕ → ports.Device → Option ports.Device
  unfolding cmos_read
  wait_update zero d = none
  wait_update (suc n) d =
      let rest = wait_update n (cmos_read 10 d).1 in
      if bit (cmos_read 10 d).0 7 then rest else some (cmos_read 10 d).1

  -- The registers in the order in which they are read.
  unfoldable pub read_all : ports.Device → Time × ports.Device
  unfolding cmos_read
  read_all d =
      let (status_b, d0) = cmos_read 11 d in
      let (second, d1) = cmos_read 0 d0 in
      let (minute, d2) = cmos_read 2 d1 in
      let (hour, d3) = cmos_read 4 d2 in
      let (day, d4) = cmos_read 7 d3 in
      let (month, d5) = cmos_read 8 d4 in
      let (year, d6) = cmos_read 9 d5 in
      let t : Time = record {
        year = year;
        month = month;
        day = day;
        hour = hour;
        minute = minute;
        second = second;
      } in
      (finish status_b t, d6)

  unfoldable pub read : ℕ → ports.Device → Option (Time × ports.Device)
  unfolding wait_update read_all
  read rounds d = elim (wait_update rounds d) [ none ↦ none | some d1 ↦ some (read_all d1) ]
