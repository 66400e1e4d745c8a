-- ===== src/Keyboard/Setup.antt =====
-- keyboard_init of kernel/keyboard.c, with the registration of its handler for IRQ 1.
use vesper_os.Prelude.{some, Option, List}
use vesper_os.Isr
use vesper_os.Isr.{Handler}
use vesper_os.Keyboard
use vesper_os.Keyboard.{Keyboard}
use vesper_os.Pic
use vesper_os.Port.{Ports}

module _ (S : Type 0) (ports : Ports) where
  pub init :
      Handler S ports
      → Keyboard
      → List (Option (Handler S ports))
      → ports.Device
      → Keyboard × List (Option (Handler S ports)) × ports.Device
  init handler kb irqs d = (
    Keyboard.init kb,
    Isr.register_handler S ports 1 (some handler) irqs,
    Pic.unmask_irq ports 1 d,
  )
