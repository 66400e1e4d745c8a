-- ===== src/Vga/Cursor.antt =====
-- The cursor of kernel/vga.c stays on the screen, and the hardware cursor stands where it does.
use vesper_os.Prelude.{
  ℕ, ◌+◌, ◌*◌, ◌<◌, ◌≡◌, ◌∙◌, inl, inr, List, [], ◌∷◌, length, length-set, ltb, leb, ◌==◌,
  Bool-cases, arith,
}
use vesper_os.Vga.{
  Screen, vga_cols, vga_rows, entry, offset, update_cursor, scroll, place, wrap, scroll_past,
  putchar, puts,
}
use vesper_os.Vga.Scroll.{length-copy_up, length-fill}

-- A screen with its 2000 cells and the cursor on it.
pub record IsScreen (s : Screen) : Type 0 where
  pub cells : length s.buffer ≡ vga_rows * vga_cols
  pub row_in : s.row < vga_rows
  pub col_in : s.col < vga_cols
  pub cursor_at : s.cursor ≡ s.row * vga_cols + s.col

-- While a character is placed the cursor may stand one past an edge.
record IsPlaced (s : Screen) (rows cols : ℕ) : Type 0 where
  cells : length s.buffer ≡ vga_rows * vga_cols
  row_in : s.row < rows
  col_in : s.col < cols

place-IsPlaced : (c : ℕ) (s : Screen) → IsScreen s → IsPlaced (place c s) 26 81
unfolding place
place-IsPlaced c s v = record {
  cells = elim (Bool-cases (c == 10)) [
    | inl a ↦ rw a v.cells
    | inr a ↦ rw a (elim (Bool-cases (c == 13)) [
      | inl b ↦ rw b v.cells
      | inr b ↦ rw b (elim (Bool-cases (c == 8)) [
        | inr d ↦ rw d (length-set s.buffer (offset s) (entry c s.color) ∙ v.cells)
        | inl d ↦ rw d (elim (Bool-cases (ltb 0 s.col)) [
          | inl t ↦ rw t (length-set s.buffer _ _ ∙ v.cells)
          | inr t ↦ rw t v.cells
        ])
      ])
    ])
  ];
  row_in = ground (arith, v.row_in);
  col_in = ground (arith, v.col_in);
}

wrap-IsPlaced : {s : Screen} → IsPlaced s 26 81 → IsPlaced (wrap s) 27 80
unfolding wrap
wrap-IsPlaced {s} v = elim (Bool-cases (leb vga_cols s.col)) [
  | inl e ↦
      rw e (record { cells = v.cells; row_in = omega (arith, v.row_in); col_in = omega arith })
  | inr e ↦
      rw e (record { cells = v.cells; row_in = omega (arith, v.row_in); col_in = ground arith })
]

scroll_past-IsPlaced : {s : Screen} → IsPlaced s 27 80 → IsPlaced (scroll_past s) 25 80
unfolding scroll_past scroll
scroll_past-IsPlaced {s} v = elim (Bool-cases (leb vga_rows s.row)) [
  | inl e ↦ rw e (record {
    cells = length-fill 80 1920 _ _ ∙ length-copy_up 1920 0 s.buffer ∙ v.cells;
    row_in = omega arith;
    col_in = v.col_in;
  })
  | inr e ↦ rw e (record { cells = v.cells; row_in = ground arith; col_in = v.col_in })
]

update_cursor-IsScreen : {s : Screen} → IsPlaced s 25 80 → IsScreen (update_cursor s)
unfolding update_cursor
update_cursor-IsScreen v = record {
  cells = v.cells;
  row_in = v.row_in;
  col_in = v.col_in;
  cursor_at = omega (arith, v.row_in, v.col_in);
}

-- vga_putchar of any character keeps the 2000 cells, leaves the cursor on the screen, and sets the
-- hardware cursor to it.
pub putchar-IsScreen : (c : ℕ) (s : Screen) → IsScreen s → IsScreen (putchar c s)
unfolding putchar
putchar-IsScreen c s v =
    update_cursor-IsScreen (scroll_past-IsPlaced (wrap-IsPlaced (place-IsPlaced c s v)))

-- From a screen of 2000 cells with the cursor on it and the hardware cursor set to it, vga_puts
-- leads to one.
pub puts-IsScreen : (str : List ℕ) (s : Screen) → IsScreen s → IsScreen (puts str s)
unfolding puts
puts-IsScreen [] s v = v
puts-IsScreen (c ∷ str) s v = elim (Bool-cases (c == 0)) [
  | inl e ↦ rw e v
  | inr e ↦ rw e (puts-IsScreen str (putchar c s) (putchar-IsScreen c s v))
]
