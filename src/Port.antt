-- ===== src/Port.antt =====
-- kernel/port_io.h: the port instructions. A device is a parameter of the model: what the reads and
-- writes of a port do to it. io_wait is a write to the unused port 0x80.
use vesper_os.Prelude.{ℕ}

pub record Ports : Type 1 where
  pub Device : Type 0
  pub outb : ℕ → ℕ → Device → Device
  pub inb : ℕ → Device → ℕ × Device
  pub outw : ℕ → ℕ → Device → Device
  pub inw : ℕ → Device → ℕ × Device

abbrev pub io_wait : (ports : Ports) → ports.Device → ports.Device
io_wait ports d = ports.outb 0x80 0 d
