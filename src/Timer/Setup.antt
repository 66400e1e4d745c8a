-- ===== src/Timer/Setup.antt =====
-- timer_init of kernel/timer.c: the PIT is programmed, and the handler of IRQ 0 registered and
-- unmasked.
use vesper_os.Prelude.{ℕ, ◌/◌, ◌%◌, ◌^◌, some, Option, List}
use vesper_os.Isr
use vesper_os.Isr.{Handler}
use vesper_os.Pic
use vesper_os.Port.{Ports}
use vesper_os.Timer.{timer_hz}

abbrev pub pit_cmd : ℕ
pit_cmd = 0x43

abbrev pub pit_channel0 : ℕ
pit_channel0 = 0x40

abbrev pub pit_divisor : ℕ
pit_divisor = 1193182 / timer_hz

module _ (S : Type 0) (ports : Ports) where
  -- The tick counter, the handlers and the devices.
  pub init :
      Handler S ports
      → List (Option (Handler S ports))
      → ports.Device
      → ℕ × List (Option (Handler S ports)) × ports.Device
  init handler irqs d =
      let d1 = ports.outb pit_cmd 0x34 d in
      let d2 = ports.outb pit_channel0 (pit_divisor % 2 ^ 8) d1 in
      let d3 = ports.outb pit_channel0 (pit_divisor / 2 ^ 8 % 2 ^ 8) d2 in
      (0, Isr.register_handler S ports 0 (some handler) irqs, Pic.unmask_irq ports 0 d3)
