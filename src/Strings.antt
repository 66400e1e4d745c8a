-- ===== src/Strings.antt =====
-- kernel/string.h. A buffer is a list of bytes, and a C string is read from it with a NUL behind
-- the last byte of the list. A function that writes through a pointer returns the buffer.
pub mod Compare
mod Tests
use vesper_os.Prelude.{
  ℕ, zero, suc, ◌+◌, ◌-◌, ◌%◌, Bool, true, false, ◌||◌, not, List, [], ◌∷◌, ltb, ◌==◌,
  if◌then◌else◌,
}
use vesper_os.Prelude.Int.{ℤ, pos, sub_ℕ}

pub memset : List ℕ → ℕ → ℕ → List ℕ
memset s c zero = s
memset [] c (suc n) = []
memset (x ∷ s) c (suc n) = c % 256 ∷ memset s c n

pub memcpy : List ℕ → List ℕ → ℕ → List ℕ
memcpy dst src zero = dst
memcpy [] src (suc n) = []
memcpy (d ∷ dst) [] (suc n) = d ∷ dst
memcpy (d ∷ dst) (x ∷ src) (suc n) = x ∷ memcpy dst src n

unfoldable pub memcmp : List ℕ → List ℕ → ℕ → ℤ
memcmp a b zero = pos 0
memcmp [] b (suc n) = pos 0
memcmp (x ∷ a) [] (suc n) = pos 0
memcmp (x ∷ a) (y ∷ b) (suc n) = if x == y then memcmp a b n else sub_ℕ x y

pub strlen : List ℕ → ℕ
strlen [] = 0
strlen (x ∷ s) = if x == 0 then 0 else suc (strlen s)

unfoldable pub strcmp : List ℕ → List ℕ → ℤ
strcmp [] [] = pos 0
strcmp [] (y ∷ b) = sub_ℕ 0 y
strcmp (x ∷ a) [] = sub_ℕ x 0
strcmp (x ∷ a) (y ∷ b) = if x == 0 || y == 0 || not (x == y) then sub_ℕ x y else strcmp a b

pub strncmp : List ℕ → List ℕ → ℕ → ℤ
strncmp a b zero = pos 0
strncmp [] [] (suc n) = pos 0
strncmp [] (y ∷ b) (suc n) = sub_ℕ 0 y
strncmp (x ∷ a) [] (suc n) = sub_ℕ x 0
strncmp (x ∷ a) (y ∷ b) (suc n) =
    if x == 0 || y == 0 || not (x == y) then sub_ℕ x y else strncmp a b n

-- The two loops of strncpy: up to the NUL, then zeros.
pub strncpy : List ℕ → List ℕ → ℕ → List ℕ
unfolding memset
strncpy dst src zero = dst
strncpy [] src (suc n) = []
strncpy (d ∷ dst) [] (suc n) = 0 ∷ memset dst 0 n
strncpy (d ∷ dst) (x ∷ src) (suc n) =
    let rest = strncpy dst src n in if x == 0 then 0 ∷ memset dst 0 n else x ∷ rest
