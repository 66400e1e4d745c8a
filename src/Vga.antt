-- ===== src/Vga.antt =====
-- kernel/vga.c and vga.h: the text console. `Screen` holds the 80 by 25 cells of the buffer at
-- 0xB8000, vga_row, vga_col, vga_color and the position in the CRTC's cursor registers. A char is its
-- byte. The two nested loops over rows and columns are one loop over the cell's index. The loops
-- over the digits of a uint32_t run on 10 rounds, which is enough (Vga.Digits). vga_printf is in
-- Vga.Printf.
pub mod Scroll
pub mod Cursor
pub mod Digits
pub mod Printf
pub mod Output
pub mod Shown
mod Tests
use vesper_os.Prelude.{
  ℕ, zero, suc, ◌+◌, ◌-◌, ◌*◌, ◌/◌, ◌%◌, ◌^◌, Bool, true, false, ◌&&◌, List, [], ◌∷◌, get_or, set,
  length, ltb, leb, ◌==◌, if◌then◌else◌,
}
use vesper_os.Prelude.Int.{ℤ, pos, negsuc}

abbrev pub vga_cols : ℕ
vga_cols = 80

abbrev pub vga_rows : ℕ
vga_rows = 25

pub record Screen : Type 0 where
  pub buffer : List ℕ
  pub row : ℕ
  pub col : ℕ
  pub color : ℕ
  pub cursor : ℕ

-- The character is the low byte and the colour the high byte.
abbrev pub entry : ℕ → ℕ → ℕ
entry c color = c % 2 ^ 8 + color % 2 ^ 8 * 2 ^ 8

abbrev pub make_color : ℕ → ℕ → ℕ
make_color fg bg = fg % 2 ^ 4 + bg % 2 ^ 4 * 2 ^ 4

abbrev pub offset : Screen → ℕ
offset s = s.row * vga_cols + s.col

pub update_cursor : Screen → Screen
update_cursor s = record s { cursor = offset s % 2 ^ 16 }

-- `n` cells from cell `i` on take the value of the cell below.
pub copy_up : ℕ → ℕ → List ℕ → List ℕ
copy_up zero i buf = buf
copy_up (suc n) i buf = copy_up n (i + 1) (set buf i (get_or buf (i + vga_cols) 0))

-- `n` cells from cell `i` on are set.
pub fill : ℕ → ℕ → ℕ → List ℕ → List ℕ
fill zero i v buf = buf
fill (suc n) i v buf = fill n (i + 1) v (set buf i v)

pub scroll : Screen → Screen
scroll s =
    let last = (vga_rows - 1) * vga_cols in
    record s {
      buffer = fill vga_cols last (entry b' ' s.color) (copy_up last 0 s.buffer);
      row = vga_rows - 1;
    }

pub set_color : ℕ → ℕ → Screen → Screen
set_color fg bg s = record s { color = make_color fg bg }

pub clear : Screen → Screen
unfolding update_cursor
clear s =
    let cleared = fill (vga_rows * vga_cols) 0 (entry b' ' s.color) s.buffer in
    update_cursor (record s { buffer = cleared; row = 0; col = 0 })

pub init : Screen → Screen
unfolding clear
init s = clear (record s { row = 0; col = 0; color = make_color 7 0 })

-- Writing a cell, then the first branch of vga_putchar that fits.
abbrev pub put_cell : ℕ → Screen → Screen
put_cell c s = record s { buffer = set s.buffer (offset s) (entry c s.color) }

pub place : ℕ → Screen → Screen
place c s =
    let left = record s { col = s.col - 1 } in
    let written = put_cell c s in
    if c == b'\n'
    then record s { col = 0; row = s.row + 1 }
    else if c == b'\r'
    then record s { col = 0 }
    else if c == b'\x08'
    then if ltb 0 s.col then put_cell b' ' left else s
    else record written { col = s.col + 1 }

pub wrap : Screen → Screen
wrap s = if leb vga_cols s.col then record s { col = 0; row = s.row + 1 } else s

pub scroll_past : Screen → Screen
unfolding scroll
scroll_past s = if leb vga_rows s.row then scroll s else s

pub putchar : ℕ → Screen → Screen
unfolding update_cursor scroll_past wrap place
putchar c s = update_cursor (scroll_past (wrap (place c s)))

pub puts : List ℕ → Screen → Screen
puts [] s = s
puts (c ∷ str) s = let rest = puts str (putchar c s) in if c == 0 then s else rest

-- A negative row or column fails the bounds check.
pub set_cursor : ℤ → ℤ → Screen → Screen
unfolding update_cursor
set_cursor (pos row) (pos col) s =
    if ltb row vga_rows && ltb col vga_cols
    then update_cursor (record s { row = row; col = col })
    else s
set_cursor (pos row) (negsuc col) s = s
set_cursor (negsuc row) col s = s

-- `while (n > 0) { buf[i++] = '0' + n % 10; n /= 10; }`: what buf then holds.
pub digits : ℕ → ℕ → List ℕ
digits zero n = []
digits (suc k) n = let rest = digits k (n / 10) in if n == 0 then [] else (48 + n % 10) ∷ rest

-- The entries of buf from the last to the first.
pub put_reversed : List ℕ → Screen → Screen
put_reversed [] s = s
put_reversed (d ∷ ds) s = putchar d (put_reversed ds s)

pub print_uint : ℕ → Screen → Screen
print_uint n s = if n == 0 then putchar b'0' s else put_reversed (digits 10 n) s

pub put_zeros : ℕ → Screen → Screen
put_zeros zero s = s
put_zeros (suc n) s = put_zeros n (putchar b'0' s)

-- At least `width` digits, with zeros in front.
pub print_uint_padded : ℕ → ℕ → Screen → Screen
print_uint_padded n width s =
    let buf = if n == 0 then b'0' ∷ [] else digits 10 n in
    put_reversed buf (put_zeros (width - length buf) s)

pub hex_digit : ℕ → ℕ
hex_digit nibble = if ltb nibble 10 then 48 + nibble else 65 + (nibble - 10)

-- The nibbles of vga_print_hex from bit `4 * n - 4` down to bit 0.
pub put_nibbles : ℕ → ℕ → Screen → Screen
put_nibbles zero n s = s
put_nibbles (suc k) n s = put_nibbles k n (putchar (hex_digit (n / 2 ^ (4 * k) % 16)) s)

pub print_hex : ℕ → Screen → Screen
print_hex n s = put_nibbles 8 n (putchar b'x' (putchar b'0' s))
