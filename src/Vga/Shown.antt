-- ===== src/Vga/Shown.antt =====
-- Every output function of kernel/vga.c keeps the screen and its cursor in order.
use vesper_os.Prelude.{
  ℕ, zero, suc, ◌+◌, ◌-◌, ◌*◌, ◌/◌, ◌%◌, ◌^◌, ◌≡◌, refl, length, ◌∙◌, inl, inr, Bool, true, false,
  List, [], ◌∷◌, ltb, leb, ◌==◌, if◌then◌else◌, Bool-cases, arith,
}
use vesper_os.Vga.{
  Screen, putchar, put_reversed, digits, print_uint, hex_digit, put_nibbles, print_hex, set_color,
  put_zeros, print_uint_padded, init, clear, update_cursor,
}
use vesper_os.Vga.Cursor.{IsScreen, putchar-IsScreen, puts-IsScreen}
use vesper_os.Vga.Scroll.{length-fill}
use vesper_os.Vga.Printf.{
  Arg, Mode, plain, flag, sized, next_word, next_string, hex_digits, puthex, put_signed,
  put_unknown, directive, is_digit, run, printf,
}
use vesper_os.Vga.Output.{Item, color, uint, hex, char, text, formatted, call, show}

set_color-IsScreen : (fg bg : ℕ) (s : Screen) → IsScreen s → IsScreen (set_color fg bg s)
unfolding set_color
set_color-IsScreen fg bg s v = record {
  cells = v.cells;
  row_in = v.row_in;
  col_in = v.col_in;
  cursor_at = v.cursor_at;
}

put_reversed-IsScreen : (ds : List ℕ) (s : Screen) → IsScreen s → IsScreen (put_reversed ds s)
unfolding put_reversed
put_reversed-IsScreen [] s v = v
put_reversed-IsScreen (d ∷ ds) s v =
    putchar-IsScreen d (put_reversed ds s) (put_reversed-IsScreen ds s v)

print_uint-IsScreen : (n : ℕ) (s : Screen) → IsScreen s → IsScreen (print_uint n s)
unfolding print_uint
print_uint-IsScreen n s v = elim (Bool-cases (n == 0)) [
  | inl e ↦ rw (e, print_uint) (putchar-IsScreen b'0' s v)
  | inr e ↦ rw (e, print_uint) (put_reversed-IsScreen (digits 10 n) s v)
]

put_nibbles-IsScreen : (k n : ℕ) (s : Screen) → IsScreen s → IsScreen (put_nibbles k n s)
unfolding put_nibbles
put_nibbles-IsScreen zero n s v = v
put_nibbles-IsScreen (suc k) n s v =
    put_nibbles-IsScreen k n _ (putchar-IsScreen (hex_digit (n / 2 ^ (4 * k) % 16)) s v)

print_hex-IsScreen : (n : ℕ) (s : Screen) → IsScreen s → IsScreen (print_hex n s)
unfolding print_hex
print_hex-IsScreen n s v =
    put_nibbles-IsScreen 8 n _ (putchar-IsScreen b'x' _ (putchar-IsScreen b'0' s v))

put_zeros-IsScreen : (n : ℕ) (s : Screen) → IsScreen s → IsScreen (put_zeros n s)
unfolding put_zeros
put_zeros-IsScreen zero s v = v
put_zeros-IsScreen (suc n) s v = put_zeros-IsScreen n (putchar b'0' s) (putchar-IsScreen b'0' s v)

print_uint_padded-IsScreen :
    (n width : ℕ) (s : Screen) → IsScreen s → IsScreen (print_uint_padded n width s)
unfolding print_uint_padded
print_uint_padded-IsScreen n width s v = put_reversed-IsScreen _ _ (put_zeros-IsScreen _ s v)

puthex-IsScreen : (n : ℕ) (upper : Bool) (s : Screen) → IsScreen s → IsScreen (puthex n upper s)
unfolding puthex
puthex-IsScreen n upper s v = elim (Bool-cases (n == 0)) [
  | inl e ↦ rw (e, puthex) (putchar-IsScreen b'0' s v)
  | inr e ↦ rw (e, puthex) (put_reversed-IsScreen (hex_digits 8 upper n) s v)
]

put_signed-IsScreen :
    (n : ℕ) (zero_pad : Bool) (width : ℕ) (s : Screen)
    → IsScreen s
    → IsScreen (put_signed n zero_pad width s)
unfolding put_signed
put_signed-IsScreen n zero_pad width s v = elim (Bool-cases (leb (2 ^ 31) n)) [
  | inl e ↦ rw (e, put_signed) (print_uint_padded-IsScreen _ _ _ (putchar-IsScreen b'-' s v))
  | inr e ↦ rw (e, put_signed) (print_uint_padded-IsScreen _ _ s v)
]

if-IsScreen : (b : Bool) (s t : Screen) → IsScreen s → IsScreen t → IsScreen (if b then s else t)
if-IsScreen true s t v w = v
if-IsScreen false s t v w = w

put_unknown-IsScreen :
    (spec : ℕ) (zero_pad : Bool) (width : ℕ) (s : Screen)
    → IsScreen s
    → IsScreen (put_unknown spec zero_pad width s)
unfolding put_unknown
put_unknown-IsScreen spec zero_pad width s v =
    let s1 = putchar b'%' s in
    let v1 = putchar-IsScreen b'%' s v in
    let s2 = if zero_pad then putchar b'0' s1 else s1 in
    let v2 = if-IsScreen zero_pad (putchar b'0' s1) s1 (putchar-IsScreen b'0' s1 v1) v1 in
    putchar-IsScreen spec _ (
      if-IsScreen (ltb 0 width) (putchar (48 + width % 10) s2) s2
        (putchar-IsScreen (48 + width % 10) s2 v2) v2)

directive-IsScreen :
    (spec : ℕ) (zero_pad : Bool) (width : ℕ) (args : List Arg) (s : Screen)
    → IsScreen s
    → IsScreen (directive spec zero_pad width args s)
unfolding directive
directive-IsScreen spec zero_pad width args s v =
    let n = next_word args in
    if-IsScreen (spec == b'c') _ _ (putchar-IsScreen (n % 2 ^ 8) s v) (
      if-IsScreen (spec == b's') _ _ (puts-IsScreen (next_string args) s v) (
        if-IsScreen (spec == b'd') _ _ (put_signed-IsScreen n zero_pad width s v) (
          if-IsScreen (spec == b'u') _ _ (print_uint_padded-IsScreen n _ s v) (
            if-IsScreen (spec == b'x') _ _ (puthex-IsScreen n false s v) (
              if-IsScreen (spec == b'X') _ _ (puthex-IsScreen n true s v) (
                if-IsScreen (spec == b'%') _ _ (putchar-IsScreen b'%' s v)
                  (put_unknown-IsScreen spec zero_pad width s v)))))))

run-IsScreen :
    (fmt : List ℕ) (mode : Mode) (args : List Arg) (s : Screen)
    → IsScreen s
    → IsScreen (run fmt mode args s)
unfolding run
run-IsScreen [] plain args s v = v
run-IsScreen [] flag args s v = directive-IsScreen 0 false 0 args s v
run-IsScreen [] (sized zero_pad n) args s v = directive-IsScreen 0 zero_pad n args s v
run-IsScreen (c ∷ fmt) plain args s v = if-IsScreen (c == 0) _ _ v (
    if-IsScreen (c == b'%') _ _ (run-IsScreen fmt flag args s v)
      (run-IsScreen fmt plain args (putchar c s) (putchar-IsScreen c s v)))
run-IsScreen (c ∷ fmt) flag args s v =
    if-IsScreen (c == b'0') _ _ (run-IsScreen fmt (sized true 0) args s v) (
      if-IsScreen (is_digit c) _ _ (run-IsScreen fmt (sized false (c - 48)) args s v)
        (run-IsScreen fmt plain _ _ (directive-IsScreen c false 0 args s v)))
run-IsScreen (c ∷ fmt) (sized zero_pad n) args s v =
    if-IsScreen (is_digit c) _ _ (run-IsScreen fmt (sized zero_pad (n * 10 + (c - 48))) args s v)
      (run-IsScreen fmt plain _ _ (directive-IsScreen c zero_pad n args s v))

pub printf-IsScreen :
    (fmt : List ℕ) (args : List Arg) (s : Screen) → IsScreen s → IsScreen (printf fmt args s)
unfolding printf
printf-IsScreen fmt args s v = run-IsScreen fmt plain args s v

call-IsScreen : (i : Item) (s : Screen) → IsScreen s → IsScreen (call i s)
unfolding call
call-IsScreen (color fg) s v = set_color-IsScreen fg 0 s v
call-IsScreen (uint n) s v = print_uint-IsScreen n s v
call-IsScreen (hex n) s v = print_hex-IsScreen n s v
call-IsScreen (char c) s v = putchar-IsScreen c s v
call-IsScreen (text str) s v = puts-IsScreen str s v
call-IsScreen (formatted fmt args) s v = printf-IsScreen fmt args s v

-- A sequence of calls keeps the screen in order.
pub show-IsScreen : (items : List Item) (s : Screen) → IsScreen s → IsScreen (show items s)
unfolding show
show-IsScreen [] s v = v
show-IsScreen (i ∷ items) s v = show-IsScreen items (call i s) (call-IsScreen i s v)

pub clear-IsScreen : (s : Screen) → IsScreen s → IsScreen (clear s)
unfolding clear update_cursor
clear-IsScreen s v = record {
  cells = length-fill 2000 0 _ s.buffer ∙ v.cells;
  row_in = omega arith;
  col_in = omega arith;
  cursor_at = refl;
}

pub init-IsScreen : (s : Screen) → length s.buffer ≡ 2000 → IsScreen (init s)
unfolding init clear update_cursor
init-IsScreen s cells = record {
  cells = length-fill 2000 0 _ s.buffer ∙ cells;
  row_in = omega arith;
  col_in = omega arith;
  cursor_at = refl;
}
