-- ===== src/Vga/Printf.antt =====
-- vga_printf and vga_puthex of kernel/vga.c. The format is a string as a list of bytes. An argument
-- is a 32-bit word or a pointer to a string, `none` being NULL; a missing argument, or one of the
-- other kind, which C leaves undefined, reads as 0 or NULL. `Mode` is where the loop stands in the
-- format.
use vesper_os.Prelude.{
  ℕ, zero, suc, ◌+◌, ◌-◌, ◌*◌, ◌/◌, ◌%◌, ◌^◌, Bool, true, false, ◌&&◌, Option, some, List, [], ◌∷◌,
  ltb, leb, ◌==◌, if◌then◌else◌,
}
use vesper_os.Vga.{Screen, putchar, puts, put_reversed, print_uint_padded}

pub data Arg : Type 0 where
  word : ℕ → Arg
  string : Option (List ℕ) → Arg

pub data Mode : Type 0 where
  plain flag : Mode
  sized : Bool → ℕ → Mode

abbrev pub next_word : List Arg → ℕ
next_word [] = 0
next_word (word n ∷ args) = n
next_word (string s ∷ args) = 0

-- `if (!s) s = "(null)"`
abbrev pub next_string : List Arg → List ℕ
next_string (string (some s) ∷ args) = s
next_string args = b'(' ∷ b'n' ∷ b'u' ∷ b'l' ∷ b'l' ∷ b')' ∷ []

abbrev pub later : List Arg → List Arg
later [] = []
later (a ∷ args) = args

abbrev pub hex_char : Bool → ℕ → ℕ
hex_char upper nibble = if ltb nibble 10 then 48 + nibble else (if upper then 55 else 87) + nibble

-- The nibbles that vga_puthex puts in its buffer, the lowest first.
pub hex_digits : ℕ → Bool → ℕ → List ℕ
hex_digits zero upper n = []
hex_digits (suc k) upper n =
    let rest = hex_digits k upper (n / 16) in if n == 0 then [] else hex_char upper (n % 16) ∷ rest

unfoldable pub puthex : ℕ → Bool → Screen → Screen
puthex n upper s = if n == 0 then putchar b'0' s else put_reversed (hex_digits 8 upper n) s

-- The case `%d` for the word `v` of an int32_t.
unfoldable pub put_signed : ℕ → Bool → ℕ → Screen → Screen
put_signed v zero_pad width s =
    if leb (2 ^ 31) v
    then print_uint_padded (2 ^ 32 - v) (if ltb 1 width then width - 1 else 0) (putchar b'-' s)
    else print_uint_padded v (if zero_pad then width else 0) s

-- The default case prints the directive, with the last digit of its width.
unfoldable pub put_unknown : ℕ → Bool → ℕ → Screen → Screen
put_unknown spec zero_pad width s =
    let s1 = putchar b'%' s in
    let s2 = if zero_pad then putchar b'0' s1 else s1 in
    let s3 = if ltb 0 width then putchar (48 + width % 10) s2 else s2 in putchar spec s3

abbrev pub takes_arg : ℕ → Bool
takes_arg spec =
    if spec == b'c'
    then true
    else if spec == b's'
    then true
    else if spec == b'd'
    then true
    else if spec == b'u'
    then true
    else if spec == b'x'
    then true
    else spec == b'X'

-- The switch on the conversion.
unfoldable pub directive : ℕ → Bool → ℕ → List Arg → Screen → Screen
directive spec zero_pad width args s =
    let v = next_word args in
    if spec == b'c'
    then putchar (v % 2 ^ 8) s
    else if spec == b's'
    then puts (next_string args) s
    else if spec == b'd'
    then put_signed v zero_pad width s
    else if spec == b'u'
    then print_uint_padded v (if zero_pad then width else 0) s
    else if spec == b'x'
    then puthex v false s
    else if spec == b'X'
    then puthex v true s
    else if spec == b'%'
    then putchar b'%' s
    else put_unknown spec zero_pad width s

abbrev pub is_digit : ℕ → Bool
is_digit c = leb b'0' c && leb c b'9'

-- The format's end inside a directive is its NUL as the conversion.
unfoldable pub run : List ℕ → Mode → List Arg → Screen → Screen
run [] plain args s = s
run [] flag args s = directive 0 false 0 args s
run [] (sized zero_pad n) args s = directive 0 zero_pad n args s
run (c ∷ fmt) plain args s =
    let shown = run fmt plain args (putchar c s) in
    let begun = run fmt flag args s in if c == 0 then s else if c == b'%' then begun else shown
run (c ∷ fmt) flag args s =
    let padded = run fmt (sized true 0) args s in
    let digit = run fmt (sized false (c - 48)) args s in
    let rest = if takes_arg c then later args else args in
    let done = run fmt plain rest (directive c false 0 args s) in
    if c == b'0' then padded else if is_digit c then digit else done
run (c ∷ fmt) (sized zero_pad n) args s =
    let digit = run fmt (sized zero_pad (n * 10 + (c - 48))) args s in
    let rest = if takes_arg c then later args else args in
    let done = run fmt plain rest (directive c zero_pad n args s) in
    if is_digit c then digit else done

unfoldable pub printf : List ℕ → List Arg → Screen → Screen
printf fmt args s = run fmt plain args s
