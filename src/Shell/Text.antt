-- ===== src/Shell/Text.antt =====
-- The string functions and the parsing of arguments in kernel/shell.c. A C string is the bytes of
-- its list up to a NUL.
use vesper_os.Prelude.{
  ℕ, zero, suc, ◌+◌, ◌-◌, ◌*◌, ◌%◌, ◌^◌, Bool, true, false, ◌&&◌, ◌||◌, not, List, [], ◌∷◌, leb,
  ◌==◌, if◌then◌else◌,
}

-- `*a == *b` behind the loop of str_eq, where a list that has ended gives the NUL.
abbrev pub first : List ℕ → ℕ
first [] = 0
first (c ∷ s) = c

unfoldable pub str_eq : List ℕ → List ℕ → Bool
str_eq [] b = first b == 0
str_eq (x ∷ a) [] = x == 0
str_eq (x ∷ a) (y ∷ b) =
    let rest = str_eq a b in
    if not (x == 0) && not (y == 0) then if x == y then rest else false else x == y

unfoldable pub str_startswith : List ℕ → List ℕ → Bool
str_startswith str [] = true
str_startswith [] (p ∷ prefix) = p == 0
str_startswith (c ∷ str) (p ∷ prefix) =
    let rest = str_startswith str prefix in if p == 0 then true else if c == p then rest else false

-- `while (*cmd == ' ') cmd++`
unfoldable pub skip_spaces : List ℕ → List ℕ
skip_spaces [] = []
skip_spaces (c ∷ s) = let rest = skip_spaces s in if c == b' ' then rest else c ∷ s

-- The number that cmd_kill and cmd_sleep read, in a uint32_t.
unfoldable pub parse_uint : ℕ → List ℕ → ℕ
parse_uint n [] = n
parse_uint n (c ∷ s) =
    let rest = parse_uint ((n * 10 + (c - 48)) % 2 ^ 32) s in
    if leb b'0' c && leb c b'9' then rest else n

-- The file name of cmd_write, of at most `n` bytes, and what follows it.
unfoldable pub token : ℕ → List ℕ → List ℕ × List ℕ
token zero s = ([], s)
token (suc n) [] = ([], [])
token (suc n) (c ∷ s) =
    let (name, rest) = token n s in if c == 0 || c == b' ' then ([], c ∷ s) else (c ∷ name, rest)
