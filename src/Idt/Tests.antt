-- ===== src/Idt/Tests.antt =====
-- The theorem on kernel/idt.c with stubs 16 bytes apart.
use vesper_os.Prelude.{◌+◌, ◌*◌, ◌%◌, ◌^◌, false, replicate, length-replicate, arith}
use vesper_os.Idt.{Gate, Idt, Stubs, no_gate, init, syscall_init}
use vesper_os.Idt.Gates.{Serves, init-Serves}

abbrev pub stubs : Stubs
stubs = record {
  isr = λ n. (0x100000 + n * 16) % 2 ^ 32;
  irq = λ n. (0x110000 + n * 16) % 2 ^ 32;
  syscall = 0x120000;
}

abbrev pub zeroed : Idt
zeroed = record { table = replicate 256 no_gate; loaded = false }

init-Serves_example : Serves stubs zeroed (syscall_init stubs (init stubs zeroed)) 33
init-Serves_example =
    init-Serves stubs zeroed 33 (λ n. omega arith) (λ n. omega arith) (omega arith)
      (length-replicate {A = Gate} 256 no_gate)
