-- ===== src/Shell/Words.antt =====
-- What the string functions and parsers of kernel/shell.c compute.
use vesper_os.Prelude.{
  ℕ, zero, suc, ◌+◌, ◌-◌, ◌*◌, ◌%◌, ◌^◌, ◌<◌, ◌≤◌, ◌≡◌, ◌≢◌, ◌↔◌, refl, ap, ◌∙◌, true, false, ◌&&◌,
  ◌||◌, List, [], ◌∷◌, ◌++◌, length, replicate, leb, ◌==◌, arith,
}
use vesper_os.Strings.Compare.{text}
use vesper_os.Fs
use vesper_os.Fs.{Driver, name_max}
use vesper_os.Strings.{strlen}
use vesper_os.Shell.Files.{cmd_write, write_file}
use vesper_os.Shell.State.{System, Outcome, returned, named, mounted}
use vesper_os.Vga.{Screen, print_uint}
use vesper_os.Vga.Digits.{parse, IsDigits, put_all, print_uint_lem}
use vesper_os.Shell.Text.{first, str_eq, skip_spaces, parse_uint, token}

-- str_eq holds exactly for two strings of the same text.
pub str_eq_lem : (a b : List ℕ) → (str_eq a b ≡ true) ↔ (text a ≡ text b)
unfolding str_eq text
str_eq_lem [] [] = (λ h. refl, λ h. refl)
str_eq_lem [] (y ∷ b) = (λ h. ground arith, λ h. ground arith)
str_eq_lem (x ∷ a) [] = (λ h. ground arith, λ h. ground arith)
str_eq_lem (x ∷ a) (y ∷ b) =
    (λ h. ground (arith, (str_eq_lem a b).0), λ h. ground (arith, (str_eq_lem a b).1))

-- A number that does not reach 2^32 at any digit is read as it stands.
parse_uint-parse :
    (ds rest : List ℕ) (acc : ℕ)
    → IsDigits ds
    → parse acc ds < 2 ^ 32
    → (leb b'0' (first rest) && leb (first rest) b'9') ≡ false
    → parse_uint acc (ds ++ rest) ≡ parse acc ds
unfolding parse_uint
parse_uint-parse [] [] acc v l e = refl
parse_uint-parse [] (c ∷ rest) acc v l e = rw e refl
parse_uint-parse (d ∷ ds) rest acc v l e =
    let bound : acc * 10 + (d - 48) ≤ parse (acc * 10 + (d - 48)) ds =
      parse_ge ds (acc * 10 + (d - 48)) in
    let small : (acc * 10 + (d - 48)) % 2 ^ 32 ≡ acc * 10 + (d - 48) = omega (arith, l, bound) in
    let digit : (leb b'0' d && leb d b'9') ≡ true = ground (arith, v.0) in
    rw digit (rw small (parse_uint-parse ds rest (acc * 10 + (d - 48)) v.1 l e))
  where
    parse_ge : (ds : List ℕ) (acc : ℕ) → acc ≤ parse acc ds
    parse_ge [] acc = omega arith
    parse_ge (d ∷ ds) acc = omega (arith, parse_ge ds (acc * 10 + (d - 48)))

-- A round trip: the digits that vga_print_uint writes for a 32-bit number, ps among others for a
-- PID, are read back as that number by the parser of the commands kill and sleep, with anything
-- behind them that is not a digit.
pub parse_uint-print_uint :
    (n : ℕ) (rest : List ℕ) (s : Screen)
    → n < 2 ^ 32
    → (leb b'0' (first rest) && leb (first rest) b'9') ≡ false
    → (ds : List ℕ) × (print_uint n s ≡ put_all ds s) × (parse_uint 0 (ds ++ rest) ≡ n)
parse_uint-print_uint n rest s l e =
    let (ds, printed, value, digits, some_digit, most) = print_uint_lem n s l in
    (ds, printed, parse_uint-parse ds rest 0 digits (omega (arith, value)) e ∙ value)

-- The bytes that a file name may have.
abbrev pub IsName : List ℕ → Type 0
IsName [] = Unit {0}
IsName (c ∷ s) = ((c ≢ 0) × (c ≢ b' ')) × IsName s

token-append :
    (n : ℕ) (name rest : List ℕ)
    → IsName name
    → length name ≤ n
    → (first rest == 0 || first rest == b' ') ≡ true
    → token n (name ++ rest) ≡ (name, rest)
unfolding token
token-append zero [] rest v l e = refl
token-append zero (c ∷ name) rest v l e = absurd (omega arith)
token-append (suc n) [] [] v l e = refl
token-append (suc n) [] (c ∷ rest) v l e = rw e refl
token-append (suc n) (c ∷ name) rest v l e =
    let plain : (c == 0 || c == b' ') ≡ false = ground (arith, v.0) in
    rw plain (rw (token-append n name rest v.1 (omega arith) e) refl)

skip_spaces-replicate :
    (k : ℕ) (content : List ℕ)
    → (first content == b' ') ≡ false
    → skip_spaces (replicate k b' ' ++ content) ≡ content
unfolding skip_spaces
skip_spaces-replicate zero [] e = refl
skip_spaces-replicate zero (c ∷ content) e = rw e refl
skip_spaces-replicate (suc k) content e = skip_spaces-replicate k content e

token-skip_spaces :
    (name content : List ℕ) (k : ℕ)
    → IsName name
    → length name ≤ name_max
    → (first content == b' ') ≡ false
    → let (fname, rest) = token name_max (name ++ (replicate (suc k) b' ' ++ content)) in
      (fname ≡ name) × (skip_spaces rest ≡ content)
unfolding skip_spaces
token-skip_spaces name content k v l e =
    let e' = token-append name_max name (replicate (suc k) b' ' ++ content) v l refl in
    (ap (λ r. r.0) e', ap (λ r. skip_spaces r.1) e' ∙ skip_spaces-replicate (suc k) content e)

-- The command stores a file on the disk `d`, and changes the disk and the screen only.
pub record Stores {driver : Driver} (name content : List ℕ) (d : driver.Disk) (s : System driver)
    (out : Outcome driver) : Type 0 where
  pub after : System driver
  pub returns : out ≡ returned after
  pub disk : after.disk ≡ (Fs.write_new driver name content (strlen content) d).1
  pub others :
      (after.heap ≡ s.heap)
      × (after.kernel ≡ s.kernel)
      × (after.history ≡ s.history)
      × (after.ticks ≡ s.ticks)

-- On a disk on which fs_init finds a file system, the command write with a name of 1 to 31 bytes
-- without spaces or a NUL, then one space or more, then a content that does not start with a space,
-- returns and does to the disk what fs_write_new of that name, that content and its length does,
-- and changes neither the heap, the processes, the history nor the ticks.
pub cmd_write-Stores :
    (driver : Driver) (name content : List ℕ) (k : ℕ) (s : System driver) (d : driver.Disk)
    → IsName name
    → 0 < length name
    → length name ≤ name_max
    → (first content == b' ') ≡ false
    → Fs.init driver s.disk ≡ (true, d)
    → Stores name content d s (cmd_write (name ++ (replicate (suc k) b' ' ++ content)) s)
unfolding cmd_write named mounted write_file
cmd_write-Stores driver [] content k s d v n l e i = absurd (omega arith)
cmd_write-Stores driver (c ∷ name) content k s d v n l e i =
    let (en, ec) = token-skip_spaces (c ∷ name) content k v l e in
    let nz : (c == 0) ≡ false = ground (arith, v.0) in
    let i0 = ap (λ r. r.0) i in
    let i1 = ap (λ r. r.1) i in
    rw (en, ec, nz)
      (rw (i0, mounted)
        (rw i1
          (record { after = _; returns = refl; disk = refl; others = (refl, refl, refl, refl) })))
