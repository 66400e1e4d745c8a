-- ===== src/Pic/Tests.antt =====
-- Two registers as the controllers that the theorems on kernel/pic.c ask for.
use vesper_os.Prelude.{ℕ, refl, ◌==◌, if◌then◌else◌}
use vesper_os.Port.{Ports}
use vesper_os.Pic.Masks.{Masks}

abbrev write_mask : ℕ → ℕ → ℕ × ℕ → ℕ × ℕ
write_mask port v d = if port == 0x21 then (v, d.1) else if port == 0xA1 then (d.0, v) else d

abbrev registers : Ports
registers = record {
  Device = ℕ × ℕ;
  outb = write_mask;
  inb = λ port d. (if port == 0x21 then d.0 else d.1, d);
  outw = λ port v d. d;
  inw = λ port d. (0, d);
}

abbrev both : Masks registers
both = record {
  mask1 = λ d. d.0;
  mask2 = λ d. d.1;
  read1 = λ d. refl;
  read2 = λ d. refl;
  write1 = λ v d. refl;
  keep1 = λ v d. refl;
  write2 = λ v d. refl;
  keep2 = λ v d. refl;
}

abbrev all_masked : ℕ × ℕ
all_masked = (255, 255)
