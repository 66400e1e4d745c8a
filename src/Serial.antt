-- ===== src/Serial.antt =====
-- kernel/serial.c and serial.h: the serial console on COM1, behind its ports. serial_putc waits
-- until the transmitter is empty: `wait_ready` runs on rounds, and `none` is a loop that has not
-- ended. A function that waits takes the rounds that each of its waits may have.
pub mod Output
pub mod Tests
use Prim.Native.Nat.{bit_and}
use vesper_os.Prelude.{
  ℕ, zero, suc, Bool, true, false, Option, none, some, List, [], ◌∷◌, not, ◌==◌, if◌then◌else◌,
}
use vesper_os.Port.{Ports}

-- COM1_DATA, and with the divisor latch COM1_DLL.
abbrev pub com1_data : ℕ
com1_data = 0x3F8

-- COM1_IER, and with the divisor latch COM1_DLH.
abbrev pub com1_ier : ℕ
com1_ier = 0x3F9

abbrev pub com1_fcr : ℕ
com1_fcr = 0x3FA

abbrev pub com1_lcr : ℕ
com1_lcr = 0x3FB

abbrev pub com1_mcr : ℕ
com1_mcr = 0x3FC

abbrev pub com1_lsr : ℕ
com1_lsr = 0x3FD

abbrev pub baud_divisor : ℕ
baud_divisor = 1

module _ (ports : Ports) where
  pub init : ports.Device → ports.Device
  init d =
      let quiet = ports.outb com1_ier 0 d in
      let latched = ports.outb com1_lcr 0x80 quiet in
      let divided = ports.outb com1_ier 0 (ports.outb com1_data baud_divisor latched) in
      let framed = ports.outb com1_lcr 3 divided in
      ports.outb com1_mcr 0x0B (ports.outb com1_fcr 0xC7 framed)

  pub tx_ready : ports.Device → Bool × ports.Device
  tx_ready d = let (status, d1) = ports.inb com1_lsr d in (not (bit_and status 0x20 == 0), d1)

  pub wait_ready : ℕ → ports.Device → Option ports.Device
  wait_ready zero d = none
  wait_ready (suc n) d =
      let (ready, d1) = tx_ready d in let rest = wait_ready n d1 in if ready then some d1 else rest

  pub putc : ℕ → ℕ → ports.Device → Option ports.Device
  putc rounds c d = elim (wait_ready rounds d) [
    | none ↦ none
    | some d1 ↦ some (ports.outb com1_data c d1)
  ]

  -- `if (*s == '\n') serial_putc('\r')`
  pub return_first : ℕ → ℕ → ports.Device → Option ports.Device
  return_first rounds c d = if c == b'\n' then putc rounds b'\r' d else some d

  pub puts : ℕ → List ℕ → ports.Device → Option ports.Device
  puts rounds [] d = some d
  puts rounds (c ∷ s) d = elim (c == 0) [
    | true ↦ some d
    | false ↦ elim (return_first rounds c d) [
      | none ↦ none
      | some d1 ↦ elim (putc rounds c d1) [ none ↦ none | some d2 ↦ puts rounds s d2 ]
    ]
  ]
