-- ===== src/Idt.antt =====
-- kernel/idt.c and idt.h, and syscall_init of kernel/syscall.c: the interrupt descriptor table. The
-- addresses of the assembly stubs are parameters. LIDT changes nothing here but `loaded`.
pub mod Gates
pub mod Tests
use vesper_os.Prelude.{
  ℕ, zero, suc, ◌+◌, ◌*◌, ◌/◌, ◌%◌, ◌^◌, Bool, true, false, List, set, replicate,
}

-- `idt_entry_t`.
pub record Gate : Type 0 where
  pub offset_low : ℕ
  pub selector : ℕ
  pub reserved : ℕ
  pub type_attr : ℕ
  pub offset_high : ℕ

abbrev pub no_gate : Gate
no_gate = record { offset_low = 0; selector = 0; reserved = 0; type_attr = 0; offset_high = 0 }

abbrev pub idt_entries : ℕ
idt_entries = 256

abbrev pub interrupt_gate : ℕ
interrupt_gate = 0x8E

abbrev pub syscall_gate : ℕ
syscall_gate = 0xEE

-- The table, and whether the processor's IDTR points to it.
pub record Idt : Type 0 where
  pub table : List Gate
  pub loaded : Bool

-- The addresses of isr0 to isr19, of irq0 to irq15, and of isr_syscall.
pub record Stubs : Type 0 where
  pub isr : ℕ → ℕ
  pub irq : ℕ → ℕ
  pub syscall : ℕ

pub set_gate : ℕ → ℕ → ℕ → ℕ → Idt → Idt
set_gate vector handler selector type_attr idt = record idt {
  table = set idt.table (vector % 2 ^ 8) (record {
    offset_low = handler % 2 ^ 16;
    selector = selector;
    reserved = 0;
    type_attr = type_attr;
    offset_high = handler / 2 ^ 16 % 2 ^ 16;
  });
}

-- The lines GATE(n) and IRQGATE(n): `n` gates for the stubs from number `i` on.
pub set_gates : ℕ → ℕ → ℕ → (ℕ → ℕ) → Idt → Idt
set_gates zero first i stub idt = idt
set_gates (suc n) first i stub idt =
    set_gates n first (i + 1) stub (set_gate (first + i) (stub i) 8 interrupt_gate idt)

pub init : Stubs → Idt → Idt
init stubs idt = record (set_gates 16 32 0 stubs.irq (set_gates 20 0 0 stubs.isr idt)) {
  loaded = true;
}

pub syscall_init : Stubs → Idt → Idt
syscall_init stubs idt = set_gate 0x80 stubs.syscall 8 syscall_gate idt
