-- ===== src/Start/Tests.antt =====
-- The theorem on kernel_main with zeroed static data and a serial port that is busy for two reads
-- after each byte.
use vesper_os.Prelude.{ℕ, ◌≡◌, refl, false, none, some, [], length-replicate, replicate, arith}
use vesper_os.Idt.Tests.{stubs, zeroed}
use vesper_os.Pmm.Tests.{qemu_map, qemu_map-AreDisjoint}
use vesper_os.Process.Tests.{link, power_on}
use vesper_os.Serial.Tests.{line, transmitter}
use vesper_os.Start.{Config, Boot, kernel_main}
use vesper_os.Start.Ready.{IsReady, kernel_main-IsReady}

-- Interrupt handlers act on a number and leave it as it is.
abbrev config : Config ℕ line
config = record {
  rounds = 3;
  storage = 0x9000;
  tss_base = 0x8000;
  stubs = stubs;
  timer_handler = λ r m. m;
  keyboard_handler = λ r m. m;
  mmap = qemu_map;
  link = link;
}

abbrev loaded : Boot ℕ line
loaded = record {
  screen = record { buffer = replicate 2000 0; row = 0; col = 0; color = 0; cursor = 0 };
  heap = record { head = 0; at = λ a. record { size = 0; free = 0; magic = 0; next = 0 } };
  gdt = record {
    table = [];
    loaded = false;
    task = 0;
    tss = record { esp0 = 0; ss0 = 0; iomap_base = 0 };
  };
  idt = zeroed;
  irqs = replicate 16 none;
  ticks = 0;
  keyboard = record {
    buf = replicate 64 0;
    head = 0;
    tail = 0;
    shift_pressed = false;
    extended_code = false;
  };
  kernel = power_on;
  pipes = [];
  fds = [];
  device = ([], 0);
}

kernel_main-IsReady_example :
    (b' : Boot ℕ line) × (kernel_main ℕ line config loaded ≡ some b') × IsReady config b'
kernel_main-IsReady_example = kernel_main-IsReady config loaded transmitter (record {
  cells = length-replicate {A = ℕ} 2000 0;
  slots = refl;
  idle = refl;
  low = omega arith;
  top = omega arith;
  memory_map = qemu_map-AreDisjoint;
})
