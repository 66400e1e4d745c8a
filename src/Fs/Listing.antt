-- ===== src/Fs/Listing.antt =====
-- fs_ls of kernel/fs.c: the lines of the command ls.
use vesper_os.Prelude.{
  ℕ, zero, suc, ◌+◌, ◌-◌, Bool, true, false, none, some, List, [], ◌∷◌, ◌++◌, replicate,
  if◌then◌else◌,
}
use vesper_os.Prelude.Text.{codes}
use vesper_os.Strings.{strlen}
use vesper_os.Vga.Output.{Item, uint, char, text, cyan, grey}
use vesper_os.Fs.{Driver, max_files, entry_name, entry_size, in_use, read_dir}

-- The name padded to 32 characters, and the size.
pub line : ℕ → List ℕ → List Item
line i dir =
    let name = entry_name i dir in
    text name ∷ replicate (32 - strlen name) (char b' ')
    ++ (uint (entry_size i dir) ∷ text (codes " B\n") ∷ [])

-- The entries in use of `n` from number `i` on.
pub lines : ℕ → ℕ → List ℕ → List Item
unfolding line
lines zero i dir = []
lines (suc n) i dir =
    let rest = lines n (i + 1) dir in if in_use i dir then line i dir ++ rest else rest

-- `found`
pub any_in_use : ℕ → ℕ → List ℕ → Bool
any_in_use zero i dir = false
any_in_use (suc n) i dir =
    let rest = any_in_use n (i + 1) dir in if in_use i dir then true else rest

pub listing : List ℕ → List Item
unfolding lines any_in_use
listing dir =
    (cyan
      ∷ text (codes "NAME                             SIZE\n")
      ∷ text (codes "-------------------------------- ------\n")
      ∷ grey
      ∷ [])
    ++ lines max_files 0 dir
    ++ (if any_in_use max_files 0 dir then [] else text (codes "  (empty)\n") ∷ [])

-- What fs_ls prints, and the disk.
pub ls : (driver : Driver) → driver.Disk → List Item × driver.Disk
unfolding listing
ls driver d =
    let (res, d1) = read_dir driver d in
    elim res [
      | none ↦ (text (codes "  [FS] disk read error\n") ∷ [], d1)
      | some dir ↦ (listing dir, d1)
    ]
