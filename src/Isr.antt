-- ===== src/Isr.antt =====
-- kernel/isr.c and isr.h: the dispatch of exceptions and hardware interrupts. `irqs` is the table
-- of the 16 registered handlers, NULL being `none`; a handler is a function on the machine. The state
-- S of the drivers is a parameter. An exception prints its report and halts for good.
pub mod Dispatch
mod Tests
use vesper_os.Prelude.{
  ℕ, ◌+◌, ◌-◌, ◌%◌, ◌^◌, Bool, true, false, ◌&&◌, Option, none, some, List, [], ◌∷◌, get_or, set,
  ltb, if◌then◌else◌,
}
use vesper_os.Prelude.Text.{codes}
use vesper_os.Port.{Ports}
use vesper_os.Pic
use vesper_os.Vga
use vesper_os.Vga.{Screen}

-- `registers_t`.
pub record Registers : Type 0 where
  pub gs : ℕ
  pub fs : ℕ
  pub es : ℕ
  pub ds : ℕ
  pub edi : ℕ
  pub esi : ℕ
  pub ebp : ℕ
  pub old_esp : ℕ
  pub ebx : ℕ
  pub edx : ℕ
  pub ecx : ℕ
  pub eax : ℕ
  pub int_no : ℕ
  pub err_code : ℕ
  pub eip : ℕ
  pub cs : ℕ
  pub eflags : ℕ

abbrev pub exception_names : List (List ℕ)
exception_names =
    codes "#DE Divide-by-Zero"
    ∷ codes "#DB Debug"
    ∷ codes "Non-Maskable Interrupt"
    ∷ codes "#BP Breakpoint"
    ∷ codes "#OF Overflow"
    ∷ codes "#BR Bound Range Exceeded"
    ∷ codes "#UD Invalid Opcode"
    ∷ codes "#NM Device Not Available"
    ∷ codes "#DF Double Fault"
    ∷ codes "Coprocessor Segment Overrun"
    ∷ codes "#TS Invalid TSS"
    ∷ codes "#NP Segment Not Present"
    ∷ codes "#SS Stack-Segment Fault"
    ∷ codes "#GP General Protection Fault"
    ∷ codes "#PF Page Fault"
    ∷ codes "Reserved"
    ∷ codes "#MF x87 FPU Error"
    ∷ codes "#AC Alignment Check"
    ∷ codes "#MC Machine Check"
    ∷ codes "#XM SIMD FP Exception"
    ∷ []

-- What isr_handler prints.
pub isr_handler : Registers → Screen → Screen
isr_handler regs s =
    let s1 = Vga.puts (codes "\n*** KERNEL EXCEPTION ***\n") (Vga.set_color 12 0 s) in
    let s2 = Vga.print_uint regs.int_no (Vga.puts (codes "  Vector   : ") s1) in
    let s3 = Vga.puts (codes "\n  Name     : ") s2 in
    let name =
      if ltb regs.int_no 20 then get_or exception_names regs.int_no [] else codes "(reserved)" in
    let s4 = Vga.puts name s3 in
    let s5 = Vga.print_hex regs.eip (Vga.puts (codes "\n  EIP      : ") s4) in
    let s6 = Vga.print_hex regs.err_code (Vga.puts (codes "\n  Error    : ") s5) in
    let s7 = Vga.print_hex regs.eflags (Vga.puts (codes "\n  EFLAGS   : ") s6) in
    Vga.set_color 7 0 (Vga.puts (codes "\n\nSystem halted.\n") s7)

-- What a handler acts on: the state of the drivers, the screen and the devices behind the ports.
pub record Machine (S : Type 0) (ports : Ports) : Type 0 where
  pub drivers : S
  pub screen : Screen
  pub device : ports.Device

-- The processor has stopped for good, or the handler has returned.
pub data Outcome (S : Type 0) (ports : Ports) : Type 0 where
  stopped : Machine S ports → Outcome S ports
  returned : Machine S ports → Outcome S ports

module _ (S : Type 0) (ports : Ports) where
  abbrev pub Handler : Type 0
  Handler = Registers → Machine S ports → Machine S ports

  -- irq_register_handler.
  pub register_handler : ℕ → Option Handler → List (Option Handler) → List (Option Handler)
  register_handler irq handler irqs = if ltb irq 16 then set irqs irq handler else irqs

  -- The call of the handler that is registered, if there is one.
  abbrev pub call : Option Handler → Registers → Machine S ports → Machine S ports
  call none regs m = m
  call (some handler) regs m = handler regs m

  pub irq_handler : List (Option Handler) → Registers → Machine S ports → Machine S ports
  irq_handler irqs regs m =
      let irq = (regs.int_no + 2 ^ 32 - 32) % 2 ^ 8 in
      let m1 = if ltb irq 16 then call (get_or irqs irq none) regs m else m in
      record m1 { device = Pic.send_eoi ports irq m1.device }

  pub interrupt_handler : List (Option Handler) → Registers → Machine S ports → Outcome S ports
  interrupt_handler irqs regs m =
      if ltb regs.int_no 32
      then stopped (record m { screen = isr_handler regs m.screen })
      else returned (irq_handler irqs regs m)
