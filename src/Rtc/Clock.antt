-- ===== src/Rtc/Clock.antt =====
-- What rtc_read of kernel/rtc.c makes of the registers of a clock.
use vesper_os.Prelude.{
  ℕ, ◌+◌, ◌*◌, ◌/◌, ◌%◌, ◌^◌, ◌≤◌, ◌<◌, ◌≡◌, refl, ap, ◌∙◌, true, false, ltb, ◌==◌, if◌then◌else◌,
  arith,
}
use vesper_os.Rtc.{Time, bcd_to_bin, bit, convert, afternoon, full_year, read}

-- The packed BCD byte of a number below 100.
abbrev pub bcd : ℕ → ℕ
bcd n = n / 10 * 16 + n % 10

pub bcd_to_bin-bcd : (n : ℕ) → n < 100 → bcd_to_bin (bcd n) ≡ n
unfolding bcd_to_bin
bcd_to_bin-bcd n h = omega arith

-- The registers of a clock that keeps a time in BCD and in 24-hour mode, with a two-digit year.
abbrev pub bcd_clock : Time → ℕ → ℕ → ℕ
bcd_clock t status_b reg =
    if reg == 0
    then bcd t.second
    else if reg == 2
    then bcd t.minute
    else if reg == 4
    then bcd t.hour
    else if reg == 7
    then bcd t.day
    else if reg == 8
    then bcd t.month
    else if reg == 9
    then bcd (t.year % 100)
    else status_b

-- A valid time whose year is one that two digits can give: 1970 to 2069.
pub record IsTime (t : Time) : Type 0 where
  pub year_lo : 1970 ≤ t.year
  pub year_hi : t.year < 2070
  pub month : t.month < 100
  pub day : t.day < 100
  pub hour : t.hour < 24
  pub minute : t.minute < 100
  pub second : t.second < 100

year_lem :
    (y : ℕ)
    → 1970 ≤ y
    → y < 2070
    → (y % 100 + (if ltb (y % 100) 70 then 2000 else 1900)) % 2 ^ 16 ≡ y
year_lem y lo hi = ground arith

-- rtc_read of a clock in BCD and 24-hour mode gives the time that the clock keeps, for the years
-- 1970 to 2069.
pub read-bcd_clock :
    (t : Time) (status_b : ℕ)
    → IsTime t
    → bit status_b 2 ≡ false
    → bit status_b 1 ≡ true
    → read (bcd_clock t status_b) ≡ t
unfolding read convert afternoon full_year
read-bcd_clock t status_b v binary h24 =
    let y : bcd_to_bin (bcd (t.year % 100) % 2 ^ 8) ≡ t.year % 100 =
      ap bcd_to_bin (omega arith) ∙ bcd_to_bin-bcd (t.year % 100) (omega arith) in
    rw (binary, h24)
      (rw
        (
          y,
          bcd_to_bin-bcd t.month v.month,
          bcd_to_bin-bcd t.day v.day,
          bcd_to_bin-bcd t.hour (omega (arith, v.hour)),
          bcd_to_bin-bcd t.minute v.minute,
          bcd_to_bin-bcd t.second v.second,
          year_lem t.year v.year_lo v.year_hi,
        )
        refl)

-- In BCD and 12-hour mode the mark of the afternoon is lost: where the hour register holds the mark
-- and the hour 1 to 12, rtc_read gives that hour plus 80.
pub read_afternoon :
    (cmos : ℕ → ℕ) (h : ℕ)
    → bit (cmos 11) 2 ≡ false
    → bit (cmos 11) 1 ≡ false
    → 1 ≤ h
    → h ≤ 12
    → cmos 4 ≡ 128 + bcd h
    → (read cmos).hour ≡ 80 + h
unfolding read convert afternoon full_year bcd_to_bin
read_afternoon cmos h binary h24 lo hi e =
    let q : bcd_to_bin (cmos 4) ≡ 80 + h = omega (arith, e) in
    let b : bit (80 + h) 7 ≡ false = ground arith in rw (binary, h24) (rw q (rw b refl))
