-- ===== src/Vga/Output.antt =====
-- Sequences of calls of kernel/vga.c, as the rest of the kernel makes them: each item is one call.
use vesper_os.Prelude.{ℕ, List, [], ◌∷◌}
use vesper_os.Vga.{Screen, putchar, puts, print_uint, print_hex, set_color}
use vesper_os.Vga.Printf.{Arg, printf}

-- `color` is vga_set_color of a foreground on black, and `formatted` is vga_printf.
pub data Item : Type 0 where
  color uint hex char : ℕ → Item
  text : List ℕ → Item
  formatted : List ℕ → List Arg → Item

unfoldable pub call : Item → Screen → Screen
call (color fg) s = set_color fg 0 s
call (uint n) s = print_uint n s
call (hex n) s = print_hex n s
call (char c) s = putchar c s
call (text str) s = puts str s
call (formatted fmt args) s = printf fmt args s

unfoldable pub show : List Item → Screen → Screen
unfolding call
show [] s = s
show (i ∷ items) s = show items (call i s)

abbrev pub green : Item
green = color 10

abbrev pub cyan : Item
cyan = color 11

abbrev pub red : Item
red = color 12

abbrev pub yellow : Item
yellow = color 14

abbrev pub grey : Item
grey = color 7
