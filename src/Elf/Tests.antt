-- ===== src/Elf/Tests.antt =====
-- The theorem on kernel/elf.c with a file of 86 bytes: a header, a program header, and two bytes that
-- are loaded to 0x2000 with two zeros behind them.
use vesper_os.Prelude.{ℕ, ◌≡◌, refl, true, List, [], ◌∷◌, ◌++◌, get_or, replicate, arith}
use vesper_os.Elf.{Image, Memory, header, accepts, store, load}
use vesper_os.Elf.Load.{overlays, all_fit, load_lem}

abbrev file : List ℕ
file =
    0x7F ∷ b'E' ∷ b'L' ∷ b'F' ∷ 1 ∷ 1 ∷ 1 ∷ []
    ++ replicate 9 0
    ++ (2 ∷ 0 ∷ 3 ∷ 0 ∷ 1 ∷ 0 ∷ 0 ∷ 0 ∷ 0 ∷ 0x20 ∷ 0 ∷ 0 ∷ 52 ∷ 0 ∷ 0 ∷ 0 ∷ [])
    ++ replicate 10 0
    ++ (32 ∷ 0 ∷ 1 ∷ 0 ∷ [])
    ++ replicate 6 0
    ++ (1 ∷ 0 ∷ 0 ∷ 0 ∷ 84 ∷ 0 ∷ 0 ∷ 0 ∷ 0 ∷ 0x20 ∷ 0 ∷ 0 ∷ 0 ∷ 0 ∷ 0 ∷ 0 ∷ [])
    ++ (2 ∷ 0 ∷ 0 ∷ 0 ∷ 4 ∷ 0 ∷ 0 ∷ 0 ∷ 5 ∷ 0 ∷ 0 ∷ 0 ∷ 0 ∷ 0x10 ∷ 0 ∷ 0 ∷ [])
    ++ (0xEB ∷ 0xFE ∷ [])

abbrev image : Image
image i = get_or file i 0

abbrev ones : Memory
ones a = 1

accepted : accepts image 86 ≡ true
unfolding accepts
accepted = refl

fitting : all_fit (header image).phnum 0 image 86 ≡ true
unfolding header all_fit
fitting = refl

load_lem_example :
    load image 86 ones ≡ ((header image).start, overlays (header image).phnum 0 image ones)
load_lem_example = load_lem image 86 ones (omega arith) accepted fitting

copied : (load image 86 ones).1 0x2001 ≡ 0xFE
unfolding load store
copied = refl

zeroed : (load image 86 ones).1 0x2003 ≡ 0
unfolding load store
zeroed = refl
