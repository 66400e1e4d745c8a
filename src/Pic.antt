-- ===== src/Pic.antt =====
-- kernel/pic.c and pic.h: the two interrupt controllers, behind their ports. The controllers are a
-- parameter; a value written to a port is a byte.
pub mod Masks
mod Tests
use Prim.Native.Nat.{bit_or, bit_and}
use vesper_os.Prelude.{ℕ, ◌-◌, ◌^◌, ltb, leb, if◌then◌else◌}
use vesper_os.Port.{Ports, io_wait}

abbrev pub pic1_cmd : ℕ
pic1_cmd = 0x20

abbrev pub pic1_data : ℕ
pic1_data = 0x21

abbrev pub pic2_cmd : ℕ
pic2_cmd = 0xA0

abbrev pub pic2_data : ℕ
pic2_data = 0xA1

abbrev pub pic_eoi : ℕ
pic_eoi = 0x20

module _ (ports : Ports) where
  -- A write and the pause after it.
  abbrev pub command : ℕ → ℕ → ports.Device → ports.Device
  command port v d = io_wait ports (ports.outb port v d)

  pub init : ports.Device → ports.Device
  init d =
      let icw1 = command pic2_cmd 0x11 (command pic1_cmd 0x11 d) in
      let icw2 = command pic2_data 40 (command pic1_data 32 icw1) in
      let icw3 = command pic2_data 2 (command pic1_data 4 icw2) in
      let icw4 = command pic2_data 1 (command pic1_data 1 icw3) in
      ports.outb pic2_data 0xFF (ports.outb pic1_data 0xFF icw4)

  unfoldable pub send_eoi : ℕ → ports.Device → ports.Device
  send_eoi irq d =
      let d1 = if leb 8 irq then ports.outb pic2_cmd pic_eoi d else d in
      ports.outb pic1_cmd pic_eoi d1

  -- The data port of the controller of an IRQ, and the IRQ's number there.
  abbrev pub data_port : ℕ → ℕ
  data_port irq = if ltb irq 8 then pic1_data else pic2_data

  abbrev pub line : ℕ → ℕ
  line irq = if ltb irq 8 then irq else irq - 8

  pub unmask_cascade : ports.Device → ports.Device
  unmask_cascade d =
      let (master, d1) = ports.inb pic1_data d in
      ports.outb pic1_data (bit_and master (255 - 2 ^ 2)) d1

  pub unmask_irq : ℕ → ports.Device → ports.Device
  unmask_irq irq d =
      let d1 = if ltb irq 8 then d else unmask_cascade d in
      let (value, d2) = ports.inb (data_port irq) d1 in
      ports.outb (data_port irq) (bit_and value (255 - 2 ^ line irq)) d2

  pub mask_irq : ℕ → ports.Device → ports.Device
  mask_irq irq d =
      let (value, d1) = ports.inb (data_port irq) d in
      ports.outb (data_port irq) (bit_or value (2 ^ line irq)) d1
