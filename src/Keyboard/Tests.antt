-- ===== src/Keyboard/Tests.antt =====
-- The theorems on kernel/keyboard.c at concrete states.
use vesper_os.Prelude.{ℕ, ◌≡◌, ◌++◌, refl, false, List, [], ◌∷◌, replicate, take, arith}
use vesper_os.Process.Tests.{power_on}
use vesper_os.Keyboard.{State, special_key}
use vesper_os.Keyboard.Ring.{IsRing, contents}
use vesper_os.Keyboard.Decode.{decode, irq_run, irq_run-decode}

-- An empty buffer whose indices are about to go round.
abbrev idle : State
idle = record {
  keyboard = record {
    buf = replicate 64 0;
    head = 62;
    tail = 62;
    shift_pressed = false;
    extended_code = false;
  };
  kernel = power_on;
}

idle-IsRing : IsRing idle.keyboard
idle-IsRing = record { storage = refl; head_in = omega arith; tail_in = omega arith }

-- a, Shift down, b, Shift up, the up arrow.
abbrev codes : List ℕ
codes = 0x1E ∷ 0x9E ∷ 0x2A ∷ 0x30 ∷ 0xB0 ∷ 0xAA ∷ 0xE0 ∷ 0x48 ∷ []

irq_run-decode_example :
    IsRing (irq_run codes idle).keyboard
    × (contents (irq_run codes idle).keyboard ≡ take 63 ([] ++ decode false false codes))
irq_run-decode_example = irq_run-decode codes idle idle-IsRing (
  omega arith,
  (
    omega arith,
    (omega arith, (omega arith, (omega arith, (omega arith, (omega arith, (omega arith, _)))))),
  ),
)

decode-codes : decode false false codes ≡ b'a' ∷ b'B' ∷ 0x80 ∷ []
unfolding special_key
decode-codes = refl

-- Two characters wait.
abbrev two_wait : State
two_wait = record idle { keyboard = record (idle.keyboard) { buf = replicate 64 b'x'; tail = 0 } }
