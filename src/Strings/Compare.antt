-- ===== src/Strings/Compare.antt =====
-- What kernel/string.h computes, against the text that a buffer holds.
use vesper_os.Prelude.{
  ℕ, zero, suc, ◌≡◌, refl, ap, ◌↔◌, List, [], ◌∷◌, ◌==◌, if◌then◌else◌, length, set, take, arith,
}
use vesper_os.Prelude.Int.{pos, sub_ℕ}
use vesper_os.Strings.{memset, strlen, strcmp, strncpy}

-- The bytes before the first NUL.
unfoldable pub text : List ℕ → List ℕ
text [] = []
text (x ∷ s) = if x == 0 then [] else x ∷ text s

sub_ℕ-zero : (a b : ℕ) → sub_ℕ a b ≡ pos 0 → a ≡ b
sub_ℕ-zero a b h = ground arith

sub_ℕ_self : (a : ℕ) → sub_ℕ a a ≡ pos 0
sub_ℕ_self a = ground arith

-- strcmp returns 0 exactly for two buffers that hold the same text.
pub strcmp_zero : (a b : List ℕ) → (strcmp a b ≡ pos 0) ↔ (text a ≡ text b)
unfolding strcmp text
strcmp_zero [] [] = (λ h. refl, λ h. refl)
strcmp_zero [] (y ∷ b) = (λ h. ground (arith, sub_ℕ-zero 0 y), λ h. ground arith)
strcmp_zero (x ∷ a) [] = (λ h. ground (arith, sub_ℕ-zero x 0), λ h. ground arith)
strcmp_zero (x ∷ a) (y ∷ b) = (
  λ h. ground (arith, sub_ℕ-zero x y, (strcmp_zero a b).0),
  λ h. ground (arith, sub_ℕ_self x, (strcmp_zero a b).1),
)

-- strlen counts the bytes of the text.
pub strlen_lem : (s : List ℕ) → strlen s ≡ length (text s)
unfolding strlen text
strlen_lem [] = refl
strlen_lem (x ∷ s) = ground (arith, strlen_lem s)

length-memset : (s : List ℕ) (c n : ℕ) → length (memset s c n) ≡ length s
unfolding memset
length-memset s c zero = refl
length-memset [] c (suc n) = refl
length-memset (x ∷ s) c (suc n) = ap suc (length-memset s c n)

pub length-strncpy : (dst src : List ℕ) (n : ℕ) → length (strncpy dst src n) ≡ length dst
unfolding strncpy
length-strncpy dst src zero = refl
length-strncpy [] src (suc n) = refl
length-strncpy (d ∷ dst) [] (suc n) = ap suc (length-memset dst 0 n)
length-strncpy (d ∷ dst) (x ∷ src) (suc n) =
    ground (arith, length-memset dst 0 n, length-strncpy dst src n)

-- A bounded copy into a buffer of n + 1 bytes, closed by a NUL in the last byte as the callers
-- write it, holds the text cut at `n` bytes.
pub text-set-strncpy :
    (dst src : List ℕ) (n : ℕ)
    → length dst ≡ suc n
    → text (set (strncpy dst src n) n 0) ≡ take n (text src)
unfolding strncpy text
text-set-strncpy [] src n h = absurd (omega arith)
text-set-strncpy (d ∷ dst) src zero h = refl
text-set-strncpy (d ∷ dst) [] (suc n) h = refl
text-set-strncpy (d ∷ dst) (x ∷ src) (suc n) h = ground (arith, text-set-strncpy dst src n)
