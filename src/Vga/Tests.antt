-- ===== src/Vga/Tests.antt =====
-- The theorems on kernel/vga.c at concrete screens.
use vesper_os.Prelude.{ℕ, [], ◌∷◌, length-replicate, replicate, arith}
use vesper_os.Vga.{Screen, puts}
use vesper_os.Vga.Cursor.{IsScreen, puts-IsScreen}

-- The cursor stands on the last cell.
abbrev screen : Screen
screen = record { buffer = replicate 2000 0; row = 24; col = 79; color = 7; cursor = 1999 }

puts-IsScreen_example : IsScreen (puts (b'o' ∷ b'k' ∷ b'\n' ∷ 0 ∷ []) screen)
puts-IsScreen_example = puts-IsScreen (b'o' ∷ b'k' ∷ b'\n' ∷ 0 ∷ []) screen (record {
  cells = length-replicate {A = ℕ} 2000 0;
  row_in = omega arith;
  col_in = omega arith;
  cursor_at = omega arith;
})
