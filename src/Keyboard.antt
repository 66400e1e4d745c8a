-- ===== src/Keyboard.antt =====
-- kernel/keyboard.c and keyboard.h: the PS/2 keyboard's interrupt handler, its ring buffer and the
-- blocking read. A char is its byte, 0 to 255, so a KEY_* constant is the byte that the cast to
-- char keeps. `State` holds the driver's variables and the kernel state that waking acts on; the
-- scancode that inb reads from the controller is an argument of the handler. The registration of
-- the handler is in Keyboard.Setup.
pub mod Ring
pub mod Handler
pub mod Decode
pub mod Setup
mod Tests
use vesper_os.Prelude.{
  ℕ, zero, suc, ◌+◌, ◌-◌, ◌%◌, Bool, true, false, not, ◌||◌, List, [], ◌∷◌, Option, none, some,
  get_or, set, replicate, ltb, leb, ◌==◌, if◌then◌else◌,
}
use vesper_os.Process
use vesper_os.Process.{Kernel, Link}

abbrev pub kb_buf_size : ℕ
kb_buf_size = 64

pub record Keyboard : Type 0 where
  pub buf : List ℕ
  pub head : ℕ
  pub tail : ℕ
  pub shift_pressed : Bool
  pub extended_code : Bool

pub record State : Type 0 where
  pub keyboard : Keyboard
  pub kernel : Kernel

abbrev pub scancode_ascii : List ℕ
scancode_ascii =
    0 ∷ 0 ∷ 49 ∷ 50 ∷ 51 ∷ 52 ∷ 53 ∷ 54 ∷ 55 ∷ 56 ∷ 57 ∷ 48 ∷ 45 ∷ 61 ∷ 8 ∷ 9 ∷ 113 ∷ 119 ∷ 101
    ∷ 114 ∷ 116 ∷ 121 ∷ 117 ∷ 105 ∷ 111 ∷ 112 ∷ 91 ∷ 93 ∷ 10 ∷ 0 ∷ 97 ∷ 115 ∷ 100 ∷ 102 ∷ 103 ∷ 104
    ∷ 106 ∷ 107 ∷ 108 ∷ 59 ∷ 39 ∷ 96 ∷ 0 ∷ 92 ∷ 122 ∷ 120 ∷ 99 ∷ 118 ∷ 98 ∷ 110 ∷ 109 ∷ 44 ∷ 46 ∷ 47
    ∷ 0 ∷ 42 ∷ 0 ∷ 32 ∷ []

abbrev pub scancode_ascii_shift : List ℕ
scancode_ascii_shift =
    0 ∷ 0 ∷ 33 ∷ 64 ∷ 35 ∷ 36 ∷ 37 ∷ 94 ∷ 38 ∷ 42 ∷ 40 ∷ 41 ∷ 95 ∷ 43 ∷ 8 ∷ 9 ∷ 81 ∷ 87 ∷ 69 ∷ 82
    ∷ 84 ∷ 89 ∷ 85 ∷ 73 ∷ 79 ∷ 80 ∷ 123 ∷ 125 ∷ 10 ∷ 0 ∷ 65 ∷ 83 ∷ 68 ∷ 70 ∷ 71 ∷ 72 ∷ 74 ∷ 75 ∷ 76
    ∷ 58 ∷ 34 ∷ 126 ∷ 0 ∷ 124 ∷ 90 ∷ 88 ∷ 67 ∷ 86 ∷ 66 ∷ 78 ∷ 77 ∷ 60 ∷ 62 ∷ 63 ∷ 0 ∷ 42 ∷ 0 ∷ 32
    ∷ []

abbrev pub key_up : ℕ
key_up = 0x80

abbrev pub key_down : ℕ
key_down = 0x81

abbrev pub key_left : ℕ
key_left = 0x82

abbrev pub key_right : ℕ
key_right = 0x83

-- The buffer's part of kb_push.
pub push_char : ℕ → Keyboard → Keyboard
push_char c kb =
    let next = (kb.tail + 1) % kb_buf_size in
    if next == kb.head then kb else record kb { buf = set kb.buf kb.tail c; tail = next }

pub kb_push : ℕ → State → State
unfolding push_char
kb_push c s = record {
  keyboard = push_char c s.keyboard;
  kernel = Process.wake_all_blocked s.kernel;
}

-- The switch on an extended make code; 0 is no key.
pub special_key : ℕ → ℕ
special_key scancode =
    if scancode == 0x48
    then key_up
    else if scancode == 0x50
    then key_down
    else if scancode == 0x4B
    then key_left
    else if scancode == 0x4D
    then key_right
    else 0

abbrev pub is_shift : ℕ → Bool
is_shift scancode = scancode == 0x2A || scancode == 0x36

abbrev pub is_release : ℕ → Bool
is_release scancode = leb 0x80 scancode

-- A character that is not 0 is pushed.
abbrev pub push_key : ℕ → State → State
push_key c s = if c == 0 then s else kb_push c s

abbrev pub set_shift : Bool → State → State
set_shift b s = record s { keyboard = record (s.keyboard) { shift_pressed = b } }

abbrev pub set_extended : Bool → State → State
set_extended b s = record s { keyboard = record (s.keyboard) { extended_code = b } }

abbrev pub translate : Bool → ℕ → ℕ
translate shift scancode =
    get_or (if shift then scancode_ascii_shift else scancode_ascii) scancode 0

pub irq_handler : ℕ → State → State
unfolding kb_push special_key
irq_handler scancode s =
    let s' = set_extended false s in
    if scancode == 0xE0
    then set_extended true s
    else if s.keyboard.extended_code
    then if is_release scancode then s' else push_key (special_key scancode) s'
    else if is_release scancode
    then if is_shift (scancode % 0x80) then set_shift false s else s
    else if is_shift scancode
    then set_shift true s
    else if ltb scancode 58
    then push_key (translate s.keyboard.shift_pressed scancode) s
    else s

pub init : Keyboard → Keyboard
init kb = record kb { shift_pressed = false; extended_code = false; head = 0; tail = 0 }

-- One round of keyboard_getchar: a character, a switch away by process_block with the stack
-- pointer that is loaded, or a halt until the next interrupt. After the latter two the loop looks
-- at the buffer again.
pub data Getchar : Type 0 where
  got parked : ℕ → State → Getchar
  halted : State → Getchar

abbrev pub wait_char : Link → ℕ → Option ℕ → State → Getchar
wait_char link esp none s = halted s
wait_char link esp (some i) s =
    let (esp', k) = Process.block link esp s.kernel in parked esp' (record s { kernel = k })

pub pop_char : Keyboard → ℕ × Keyboard
pop_char kb = (get_or kb.buf kb.head 0, record kb { head = (kb.head + 1) % kb_buf_size })

pub getchar : Link → ℕ → State → Getchar
unfolding pop_char
getchar link esp s =
    let (c, kb) = pop_char s.keyboard in
    if s.keyboard.head == s.keyboard.tail
    then wait_char link esp s.kernel.current s
    else got c (record s { keyboard = kb })
