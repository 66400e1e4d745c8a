-- ===== src/Vga/Digits.antt =====
-- The decimal output of kernel/vga.c: the digits that vga_print_uint writes are those of its number.
use vesper_os.Prelude.{
  ℕ, zero, suc, ◌+◌, ◌-◌, ◌*◌, ◌/◌, ◌%◌, ◌^◌, ◌≤◌, ◌<◌, ◌≡◌, ◌≢◌, refl, sym, ap, ◌∙◌, inl, inr,
  List, [], ◌∷◌, ◌++◌, length, length-append, ◌==◌, Bool-cases, arith,
}
use vesper_os.Vga.{Screen, putchar, digits, put_reversed, print_uint}

-- The number that a list of digits, the highest first, stands for.
abbrev pub parse : ℕ → List ℕ → ℕ
parse acc [] = acc
parse acc (d ∷ ds) = parse (acc * 10 + (d - 48)) ds

-- A list of characters written one after the other.
abbrev pub put_all : List ℕ → Screen → Screen
put_all [] s = s
put_all (d ∷ ds) s = put_all ds (putchar d s)

abbrev pub IsDigits : List ℕ → Type 0
IsDigits [] = Unit {0}
IsDigits (d ∷ ds) = ((48 ≤ d) × (d < 58)) × IsDigits ds

abbrev reversed : List ℕ → List ℕ
reversed [] = []
reversed (d ∷ ds) = reversed ds ++ (d ∷ [])

parse-append :
    (acc : ℕ) (xs : List ℕ) (d : ℕ) → parse acc (xs ++ (d ∷ [])) ≡ parse acc xs * 10 + (d - 48)
parse-append acc [] d = refl
parse-append acc (x ∷ xs) d = parse-append (acc * 10 + (x - 48)) xs d

put_all-append :
    (xs : List ℕ) (d : ℕ) (s : Screen) → put_all (xs ++ (d ∷ [])) s ≡ putchar d (put_all xs s)
put_all-append [] d s = refl
put_all-append (x ∷ xs) d s = put_all-append xs d (putchar x s)

IsDigits-append : (xs : List ℕ) (d : ℕ) → IsDigits xs → 48 ≤ d → d < 58 → IsDigits (xs ++ (d ∷ []))
IsDigits-append [] d v l h = ((l, h), _)
IsDigits-append (x ∷ xs) d v l h = (v.0, IsDigits-append xs d v.1 l h)

put_reversed_lem : (ds : List ℕ) (s : Screen) → put_reversed ds s ≡ put_all (reversed ds) s
unfolding put_reversed
put_reversed_lem [] s = refl
put_reversed_lem (d ∷ ds) s =
    ap (putchar d) (put_reversed_lem ds s) ∙ sym (put_all-append (reversed ds) d s)

length-reversed : (ds : List ℕ) → length (reversed ds) ≡ length ds
length-reversed [] = refl
length-reversed (d ∷ ds) = length-append (reversed ds) (d ∷ []) ∙ omega (arith, length-reversed ds)

length-digits : (k n : ℕ) → length (digits k n) ≤ k
unfolding digits
length-digits zero n = omega arith
length-digits (suc k) n = let rest = length-digits k (n / 10) in ground arith

digits-IsDigits : (k n : ℕ) → IsDigits (reversed (digits k n))
unfolding digits
digits-IsDigits zero n = _
digits-IsDigits (suc k) n = elim (Bool-cases (n == 0)) [
  | inl e ↦ rw e _
  | inr e ↦ rw e (
      IsDigits-append (reversed (digits k (n / 10))) (48 + n % 10) (digits-IsDigits k (n / 10))
        (omega arith) (omega arith))
]

abbrev power10 : ℕ → ℕ
power10 zero = 1
power10 (suc k) = power10 k * 10

-- The loop has ended when the rounds are as many as the number has digits.
parse-digits : (k n : ℕ) → n < power10 k → parse 0 (reversed (digits k n)) ≡ n
unfolding digits
parse-digits zero n h = omega arith
parse-digits (suc k) n h = elim (Bool-cases (n == 0)) [
  | inl e ↦ rw e (ground arith)
  | inr e ↦
      let rest = parse-digits k (n / 10) (omega arith) in
      rw e (parse-append 0 (reversed (digits k (n / 10))) (48 + n % 10) ∙ omega (arith, rest))
]

some_digit : (ds : List ℕ) (n : ℕ) → parse 0 ds ≡ n → n ≢ 0 → 0 < length ds
some_digit [] n e nz = absurd (nz (sym e))
some_digit (d ∷ ds) n e nz = omega arith

-- vga_print_uint of a 32-bit number, 0 included, writes one to ten decimal digits, which fit the
-- buffer of 12, and the number that they stand for is its argument.
pub print_uint_lem :
    (n : ℕ) (s : Screen)
    → n < 2 ^ 32
    → (ds : List ℕ) × (print_uint n s ≡ put_all ds s)
      × (parse 0 ds ≡ n)
      × IsDigits ds
      × (0 < length ds)
      × (length ds ≤ 10)
unfolding print_uint
print_uint_lem n s h = elim (Bool-cases (n == 0)) [
  | inl e ↦
      let z : n ≡ 0 = ground arith in
      rw z (b'0' ∷ [], refl, refl, ((omega arith, omega arith), _), omega arith, omega arith)
  | inr e ↦
      let ds = digits 10 n in
      let value = parse-digits 10 n (omega arith) in
      rw e (
        reversed ds,
        put_reversed_lem ds s,
        value,
        digits-IsDigits 10 n,
        some_digit (reversed ds) n value (ground arith),
        omega (arith, length-reversed ds, length-digits 10 n),
      )
]
