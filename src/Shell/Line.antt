-- ===== src/Shell/Line.antt =====
-- The command history and the line editor of kernel/shell.c. `History` holds the eight buffers and
-- the number of entries ever added, an int that stands for itself as long as there are fewer than
-- 2^31. The characters that keyboard_getchar returns are a list, and a line that is not complete
-- when it ends is `none`. An int that is not negative is a number.
use vesper_os.Prelude.{
  ℕ, zero, suc, ◌+◌, ◌-◌, ◌%◌, ◌&&◌, ◌||◌, Option, none, some, List, [], ◌∷◌, get_or, set,
  replicate, ltb, leb, ◌==◌, if◌then◌else◌,
}
use vesper_os.Strings.{strncpy, strlen}
use vesper_os.Keyboard.{key_up, key_down}
use vesper_os.Vga.{Screen, putchar, puts}

abbrev pub shell_buf_size : ℕ
shell_buf_size = 256

abbrev pub history_size : ℕ
history_size = 8

pub record History : Type 0 where
  pub slots : List (List ℕ)
  pub count : ℕ

abbrev pub empty_line : List ℕ
empty_line = replicate 256 0

abbrev pub no_history : History
no_history = record { slots = replicate 8 empty_line; count = 0 }

abbrev pub slot : ℕ → History → List ℕ
slot i h = get_or h.slots i empty_line

-- `strncpy(dst, src, 255); dst[255] = '\0'`
abbrev pub copy_line : List ℕ → List ℕ → List ℕ
copy_line dst src = set (strncpy dst src 255) 255 0

unfoldable pub history_push : List ℕ → History → History
history_push cmd h =
    let i = h.count % history_size in
    let pushed : History = record {
      slots = set h.slots i (copy_line (slot i h) cmd);
      count = h.count + 1;
    } in
    if get_or cmd 0 0 == 0 then h else pushed

unfoldable pub history_get : ℕ → History → Option (List ℕ)
history_get back h =
    if leb back 0 || ltb h.count back || ltb history_size back
    then none
    else some (slot (((h.count - back) % history_size + history_size) % history_size) h)

unfoldable pub erase_input : ℕ → Screen → Screen
erase_input zero s = s
erase_input (suc n) s = erase_input n (putchar b'\x08' s)

-- The local variables of read_line, and the screen.
pub record Editor : Type 0 where
  pub buf : List ℕ
  pub len : ℕ
  pub hist_pos : ℕ
  pub screen : Screen

-- An entry of the history becomes the line.
unfoldable pub recall : List ℕ → ℕ → Editor → Editor
recall line pos e =
    let buf = copy_line e.buf line in
    record { buf = buf; len = strlen buf; hist_pos = pos; screen = puts buf e.screen }

unfoldable pub up : History → Editor → Editor
unfolding history_get erase_input recall
up h e = elim (history_get (e.hist_pos + 1) h) [
  | none ↦ e
  | some line ↦ recall line (e.hist_pos + 1) (record e { screen = erase_input e.len e.screen })
]

unfoldable pub down : History → Editor → Editor
unfolding history_get erase_input recall
down h e =
    let pos = e.hist_pos - 1 in
    let erased = record e { hist_pos = pos; screen = erase_input e.len e.screen } in
    let older : Editor = elim (history_get pos h) [
      | none ↦ erased
      | some line ↦ recall line pos erased
    ] in
    if ltb 0 e.hist_pos
    then if pos == 0 then record erased { buf = set e.buf 0 0; len = 0 } else older
    else e

-- A round of the loop for a character other than the newline.
unfoldable pub edit : History → ℕ → Editor → Editor
unfolding up down
edit h c e =
    let erased = record e { len = e.len - 1; screen = putchar b'\x08' e.screen } in
    let typed = record e {
      buf = set e.buf e.len c;
      len = e.len + 1;
      screen = putchar c e.screen;
    } in
    if c == b'\x08'
    then if ltb 0 e.len then erased else e
    else if c == key_up
    then up h e
    else if c == key_down
    then down h e
    else if leb 0x20 c && ltb c 0x80
    then typed
    else e

-- The loop of read_line: the editor at its end and the characters that are left.
unfoldable pub edit_loop : History → List ℕ → Editor → Option (Editor × List ℕ)
unfolding edit
edit_loop h [] e = if ltb e.len (shell_buf_size - 1) then none else some (e, [])
edit_loop h (c ∷ keys) e =
    let rest = edit_loop h keys (edit h c e) in
    if ltb e.len (shell_buf_size - 1)
    then if c == b'\n' then some (record e { screen = putchar b'\n' e.screen }, keys) else rest
    else some (e, c ∷ keys)

-- read_line into the buffer `buf`: the line, the screen, and the characters that are left.
unfoldable pub read_line : History → List ℕ → List ℕ → Screen → Option (List ℕ × Screen × List ℕ)
unfolding edit_loop
read_line h buf keys s =
    elim (edit_loop h keys (record { buf = buf; len = 0; hist_pos = 0; screen = s })) [
      | none ↦ none
      | some (e, rest) ↦ some (set e.buf e.len 0, e.screen, rest)
    ]
