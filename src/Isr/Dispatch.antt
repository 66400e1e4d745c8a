-- ===== src/Isr/Dispatch.antt =====
-- What interrupt_handler of kernel/isr.c does for each vector.
use vesper_os.Prelude.{
  ℕ, ◌+◌, ◌-◌, ◌%◌, ◌^◌, ◌<◌, ◌≡◌, refl, ap, ◌∙◌, inl, inr, true, false, Option, none, some, List,
  length, leb, get_or, get_or-set_self, get_or-set_ne, ltb, ◌==◌, if◌then◌else◌, Bool-cases, ==_iff,
  arith,
}
use vesper_os.Port.{Ports}
use vesper_os.Pic
use vesper_os.Isr.{
  Registers, Machine, stopped, returned, Handler, isr_handler, register_handler, call, irq_handler,
  interrupt_handler,
}

-- The vector 32 + j, for j below 16, runs the handler of IRQ j and then acknowledges IRQ j.
irq_vector :
    (S : Type 0) (ports : Ports) (irqs : List (Option (Handler S ports))) (regs : Registers) (j : ℕ)
    (m : Machine S ports)
    → regs.int_no ≡ 32 + j
    → j < 16
    → interrupt_handler S ports irqs regs m ≡ (
        let m1 = call S ports (get_or irqs j none) regs m in
        returned (record m1 { device = Pic.send_eoi ports j m1.device }))
unfolding interrupt_handler irq_handler
irq_vector S ports irqs regs j m e l =
    let low : ltb regs.int_no 32 ≡ false = ground (arith, e) in
    let irq : (regs.int_no + 2 ^ 32 - 32) % 2 ^ 8 ≡ j = omega (arith, e) in
    let small : ltb j 16 ≡ true = ground arith in rw low (rw irq (rw small refl))

-- The handler of IRQ j after one for IRQ i was registered in the table.
slot-register_handler :
    (S : Type 0) (ports : Ports) (irqs : List (Option (Handler S ports)))
    (handler : Handler S ports) (i j : ℕ)
    → length irqs ≡ 16
    → i < 16
    → get_or (register_handler S ports i (some handler) irqs) j none
      ≡ (if j == i then some handler else get_or irqs j none)
unfolding register_handler
slot-register_handler S ports irqs handler i j len l =
    let small : ltb i 16 ≡ true = ground arith in
    rw small (elim (Bool-cases (j == i)) [
      | inl e ↦
          rw e (
            rw ((==_iff j i).0 e) (get_or-set_self irqs i (some handler) none (omega (arith, len))))
      | inr e ↦ rw e (get_or-set_ne irqs i j (some handler) none (λ x. ground (arith, x, e)))
    ])

-- What the new handler, the old one or none makes of the machine.
abbrev pub handled :
    {S : Type 0} {ports : Ports}
    → Option (Handler S ports)
    → Registers
    → Machine S ports
    → Machine S ports
handled none regs m = m
handled (some handler) regs m = handler regs m

-- An end of interrupt, to the second controller as well for its lines 8 to 15, and then to the first.
abbrev pub acknowledged : (ports : Ports) → ℕ → ports.Device → ports.Device
acknowledged ports j d =
    if ltb j 8 then ports.outb 0x20 0x20 d else ports.outb 0x20 0x20 (ports.outb 0xA0 0x20 d)

call-handled :
    (S : Type 0) (ports : Ports) (h : Option (Handler S ports)) (regs : Registers)
    (m : Machine S ports)
    → call S ports h regs m ≡ handled h regs m
call-handled S ports none regs m = refl
call-handled S ports (some handler) regs m = refl

send_eoi-acknowledged :
    (ports : Ports) (j : ℕ) (d : ports.Device) → Pic.send_eoi ports j d ≡ acknowledged ports j d
unfolding Pic.send_eoi
send_eoi-acknowledged ports j d = elim (Bool-cases (ltb j 8)) [
  | inl e ↦ let f : leb 8 j ≡ false = ground arith in rw (f, Pic.send_eoi) (rw e refl)
  | inr e ↦ let f : leb 8 j ≡ true = ground arith in rw (f, Pic.send_eoi) (rw e refl)
]

-- With the table of 16 handlers, after irq_register_handler of IRQ i < 16, interrupt_handler for a
-- vector below 32 prints the exception's report, calls no handler and stops the machine; for the
-- vector 32 + j of IRQ j < 16 it calls the new handler if j is i, and otherwise the one that IRQ j
-- had before, if any, and then sends an end of interrupt to the first controller, after one to the
-- second for an IRQ from 8 on.
pub interrupt-register_handler :
    (S : Type 0) (ports : Ports) (irqs : List (Option (Handler S ports)))
    (handler : Handler S ports) (regs : Registers) (i : ℕ) (m : Machine S ports)
    → length irqs ≡ 16
    → i < 16
    → regs.int_no < 48
    → interrupt_handler S ports (register_handler S ports i (some handler) irqs) regs m ≡ (
        let j = regs.int_no - 32 in
        let m1 = if j == i then handler regs m else handled (get_or irqs j none) regs m in
        if ltb regs.int_no 32
        then stopped (record m { screen = isr_handler regs m.screen })
        else returned (record m1 { device = acknowledged ports j m1.device }))
unfolding interrupt_handler
interrupt-register_handler S ports irqs handler regs i m len li l =
    let j = regs.int_no - 32 in
    let slot = get_or (register_handler S ports i (some handler) irqs) j none in
    elim (Bool-cases (ltb regs.int_no 32)) [
      | inl e ↦ rw e refl
      | inr e ↦
          let chosen : call S ports slot regs m
              ≡ (if j == i then handler regs m else handled (get_or irqs j none) regs m) =
            ap (λ h. call S ports h regs m) (slot-register_handler S ports irqs handler i j len li)
            ∙ elim (Bool-cases (j == i)) [
              | inl f ↦ rw f refl
              | inr f ↦ rw f (call-handled S ports (get_or irqs j none) regs m)
            ] in
          irq_vector S ports (register_handler S ports i (some handler) irqs) regs j m
            (ground arith) (ground arith)
          ∙ ap (λ m1. returned (record m1 { device = Pic.send_eoi ports j m1.device })) chosen
          ∙ rw e (
              ap
                (λ d.
                  returned
                    (record (if j == i
                      then handler regs m
                      else handled (get_or irqs j none) regs m) { device = d }))
                (send_eoi-acknowledged ports j _))
    ]
