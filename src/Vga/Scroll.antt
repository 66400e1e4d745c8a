-- ===== src/Vga/Scroll.antt =====
-- vga_scroll of kernel/vga.c: what its loops leave in each cell.
use vesper_os.Prelude.{
  ℕ, zero, suc, ◌+◌, ◌*◌, ◌≤◌, ◌<◌, ◌≡◌, refl, ◌∙◌, ◌⊎◌, inl, List, length, length-set, get_or,
  get_or-set_self, get_or-set_ne, set, arith,
}
use vesper_os.Vga.{Screen, vga_cols, vga_rows, entry, copy_up, fill, scroll}
use native.Mathlib.Decide.{ℕ_discrete}

pub length-copy_up : (n i : ℕ) (buf : List ℕ) → length (copy_up n i buf) ≡ length buf
unfolding copy_up
length-copy_up zero i buf = refl
length-copy_up (suc n) i buf = length-copy_up n (i + 1) _ ∙ length-set buf i _

pub length-fill : (n i v : ℕ) (buf : List ℕ) → length (fill n i v buf) ≡ length buf
unfolding fill
length-fill zero i v buf = refl
length-fill (suc n) i v buf = length-fill n (i + 1) v _ ∙ length-set buf i v

copy_up_outside :
    (n i j : ℕ) (buf : List ℕ)
    → (j < i) ⊎ (i + n ≤ j)
    → get_or (copy_up n i buf) j 0 ≡ get_or buf j 0
unfolding copy_up
copy_up_outside zero i j buf o = refl
copy_up_outside (suc n) i j buf o =
    copy_up_outside n (i + 1) j _ (ground arith) ∙ get_or-set_ne buf i j _ 0 (ground arith)

copy_up_inside :
    (n i j : ℕ) (buf : List ℕ)
    → i ≤ j
    → j < i + n
    → j < length buf
    → get_or (copy_up n i buf) j 0 ≡ get_or buf (j + vga_cols) 0
unfolding copy_up
copy_up_inside zero i j buf l h t = absurd (omega arith)
copy_up_inside (suc n) i j buf l h t =
    let v = get_or buf (i + vga_cols) 0 in
    elim (ℕ_discrete j i) [
      | yes q ↦ rw q (
          copy_up_outside n (i + 1) i (set buf i v) (inl (omega arith))
          ∙ get_or-set_self buf i v 0 (omega arith))
      | no q ↦
          copy_up_inside n (i + 1) j (set buf i v) (omega (arith, q)) (omega arith)
            (rw (length-set buf i v) t)
          ∙ get_or-set_ne buf i (j + vga_cols) v 0 (omega arith)
    ]

fill_outside :
    (n i v j : ℕ) (buf : List ℕ)
    → (j < i) ⊎ (i + n ≤ j)
    → get_or (fill n i v buf) j 0 ≡ get_or buf j 0
unfolding fill
fill_outside zero i v j buf o = refl
fill_outside (suc n) i v j buf o =
    fill_outside n (i + 1) v j _ (ground arith) ∙ get_or-set_ne buf i j v 0 (ground arith)

pub fill_inside :
    (n i v j : ℕ) (buf : List ℕ)
    → i ≤ j
    → j < i + n
    → j < length buf
    → get_or (fill n i v buf) j 0 ≡ v
unfolding fill
fill_inside zero i v j buf l h t = absurd (omega arith)
fill_inside (suc n) i v j buf l h t = elim (ℕ_discrete j i) [
  | yes q ↦ rw q (
      fill_outside n (i + 1) v i (set buf i v) (inl (omega arith))
      ∙ get_or-set_self buf i v 0 (omega arith))
  | no q ↦
      fill_inside n (i + 1) v j (set buf i v) (omega (arith, q)) (omega arith)
        (rw (length-set buf i v) t)
]

-- After vga_scroll of a screen with its 2000 cells, each cell of the first 24 rows has what stood
-- one row below, each cell of the last row is a space in the current colour, and the cursor's row
-- is the last.
pub scroll_lem :
    (s : Screen)
    → length s.buffer ≡ vga_rows * vga_cols
    → ((i : ℕ) → i < 1920 → get_or (scroll s).buffer i 0 ≡ get_or s.buffer (i + vga_cols) 0)
      × ((i : ℕ) → 1920 ≤ i → i < 2000 → get_or (scroll s).buffer i 0 ≡ entry b' ' s.color)
      × ((scroll s).row ≡ 24)
unfolding scroll
scroll_lem s l =
    let up = copy_up 1920 0 s.buffer in
    let e = length-copy_up 1920 0 s.buffer in
    (
      λ i h.
          fill_outside 80 1920 (entry b' ' s.color) i up (inl h)
          ∙ copy_up_inside 1920 0 i s.buffer (omega arith) (omega arith) (omega (arith, l)),
      λ i lo hi.
          fill_inside 80 1920 (entry b' ' s.color) i up lo (omega arith) (omega (arith, e, l)),
      refl,
    )
