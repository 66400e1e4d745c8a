-- ===== src/Serial/Tests.antt =====
-- The theorem on kernel/serial.c with a transmitter that is busy for two reads after each byte and
-- loses what is written meanwhile.
use vesper_os.Prelude.{ℕ, ◌-◌, ◌≡◌, refl, some, List, [], ◌∷◌, ◌++◌, ◌==◌, if◌then◌else◌, arith}
use vesper_os.Prelude.Text.{codes}
use vesper_os.Port.{Ports}
use vesper_os.Serial.{puts}
use vesper_os.Serial.Output.{Transmitter, crlf, puts_lem}

-- What was sent, and for how long the line is busy: at most two reads.
abbrev busy : List ℕ × ℕ → ℕ
busy d = if d.1 == 1 then 1 else if d.1 == 2 then 2 else 0

abbrev pub line : Ports
line = record {
  Device = List ℕ × ℕ;
  outb = λ port v d. if port == 0x3F8 then (if busy d == 0 then (d.0 ++ (v ∷ []), 2) else d) else d;
  inb = λ port d. (if busy d == 0 then 0x60 else 0x40, (d.0, busy d - 1));
  outw = λ port v d. d;
  inw = λ port d. (0, d);
}

abbrev pub transmitter : Transmitter line 3
transmitter = record {
  sent = λ d. d.0;
  busy = busy;
  busy_bound = λ d. ground arith;
  status = λ d. ground arith;
  status_keeps = λ d. refl;
  status_waits = λ d n e. ground arith;
  status_idle = λ d e. ground arith;
  transmit = λ c d e. rw e refl;
}

puts_lem_example :
    (d1 : List ℕ × ℕ) × (puts line 3 (codes "ok\n") ([], 0) ≡ some d1)
    × (d1.0 ≡ [] ++ crlf (codes "ok\n"))
puts_lem_example = puts_lem line 3 transmitter (codes "ok\n") ([], 0)
