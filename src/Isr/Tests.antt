-- ===== src/Isr/Tests.antt =====
-- The theorem on kernel/isr.c with drivers that count the interrupts of the timer.
use vesper_os.Prelude.{
  ℕ, suc, ◌-◌, ltb, ◌≡◌, refl, Option, none, some, List, get_or, replicate, ◌==◌, if◌then◌else◌,
  arith,
}
use vesper_os.Port.{Ports}
use vesper_os.Isr.{
  Registers, Machine, stopped, returned, Handler, isr_handler, register_handler, interrupt_handler,
}
use vesper_os.Isr.Dispatch.{handled, acknowledged, interrupt-register_handler}

-- The ports keep the last port that was written.
abbrev last_port : Ports
last_port = record {
  Device = ℕ;
  outb = λ port v d. port;
  inb = λ port d. (0, d);
  outw = λ port v d. port;
  inw = λ port d. (0, d);
}

abbrev count_tick : Handler ℕ last_port
count_tick regs m = record m { drivers = suc m.drivers }

abbrev timer_interrupt : Registers
timer_interrupt = record {
  gs = 0;
  fs = 0;
  es = 0;
  ds = 0;
  edi = 0;
  esi = 0;
  ebp = 0;
  old_esp = 0;
  ebx = 0;
  edx = 0;
  ecx = 0;
  eax = 0;
  int_no = 32;
  err_code = 0;
  eip = 0;
  cs = 8;
  eflags = 0;
}

abbrev idle : Machine ℕ last_port
idle = record {
  drivers = 0;
  screen = record { buffer = replicate 2000 0; row = 0; col = 0; color = 7; cursor = 0 };
  device = 0;
}

abbrev no_handlers : List (Option (Handler ℕ last_port))
no_handlers = replicate 16 none

interrupt-register_handler_example :
    interrupt_handler ℕ last_port
      (register_handler ℕ last_port 0 (some count_tick) no_handlers)
      timer_interrupt
      idle
    ≡ (let j = timer_interrupt.int_no - 32 in
        let m1 =
          if j == 0
          then count_tick timer_interrupt idle
          else handled (get_or no_handlers j none) timer_interrupt idle in
        if ltb timer_interrupt.int_no 32
        then stopped (record idle { screen = isr_handler timer_interrupt idle.screen })
        else returned (record m1 { device = acknowledged last_port j m1.device }))
interrupt-register_handler_example =
    interrupt-register_handler ℕ last_port no_handlers count_tick timer_interrupt 0 idle refl
      (omega arith) (omega arith)
