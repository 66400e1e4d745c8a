-- ===== src/Strings/Tests.antt =====
-- The string functions at inputs.
use vesper_os.Prelude.{ℕ, ◌≡◌, refl, List, [], ◌∷◌, set}
use vesper_os.Prelude.Int.{pos}
use vesper_os.Strings.{strncpy, memcmp, strncmp}
use vesper_os.Strings.Compare.{text, text-set-strncpy}

abbrev ls : List ℕ
ls = b'l' ∷ b's' ∷ 0 ∷ b'x' ∷ []

text-set-strncpy_example : text (set (strncpy (1 ∷ 1 ∷ []) ls 1) 1 0) ≡ b'l' ∷ []
unfolding text
text-set-strncpy_example = text-set-strncpy (1 ∷ 1 ∷ []) ls 1 refl

memcmp_sign : memcmp (3 ∷ 9 ∷ []) (3 ∷ 4 ∷ []) 2 ≡ pos 5
unfolding memcmp
memcmp_sign = refl

strncmp_prefix : strncmp ls (b'l' ∷ b'x' ∷ []) 1 ≡ pos 0
unfolding strncmp
strncmp_prefix = refl
