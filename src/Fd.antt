-- ===== src/Fd.antt =====
-- kernel/fd.c and fd.h: the table of 16 open files, each owned by a process. The disk driver is the
-- parameter of Fs. An int descriptor is an integer, and -1 is `negsuc 0`.
pub mod Owner
mod Tests
use vesper_os.Prelude.{
  ℕ, ◌+◌, Bool, true, false, ◌&&◌, Option, none, some, List, [], ◌∷◌, length, get_or, set,
  replicate, ltb, ◌==◌, if◌then◌else◌,
}
use vesper_os.Prelude.Int.{ℤ, pos, negsuc}
use vesper_os.Fs
use vesper_os.Fs.{Driver, File}

abbrev pub fd_max : ℕ
fd_max = 16

-- `fd_entry_t`.
pub record Entry : Type 0 where
  pub file : File
  pub pid : ℕ
  pub used : Bool

abbrev pub no_file : File
no_file = record { first_lba = 0; size = 0; position = 0; is_valid = false }

abbrev pub no_entry : Entry
no_entry = record { file = no_file; pid = 0; used = false }

abbrev pub Table : Type 0
Table = List Entry

abbrev pub entry_at : Table → ℕ → Entry
entry_at t i = get_or t i no_entry

pub init : Table
init = replicate fd_max no_entry

-- The first slot from `i` on that is not used.
pub unused_slot : ℕ → Table → Option ℕ
unused_slot i [] = none
unused_slot i (e ∷ es) = let rest = unused_slot (i + 1) es in if e.used then rest else some i

-- The slot of a descriptor in range that the process owns.
pub owned : ℤ → ℕ → Table → Option ℕ
owned (pos i) pid t =
    if ltb i fd_max
    then if (entry_at t i).used && (entry_at t i).pid == pid then some i else none
    else none
owned (negsuc i) pid t = none

module _ (driver : Driver) where
  pub fd_open : List ℕ → ℕ → Table → driver.Disk → ℤ × Table × driver.Disk
  fd_open name pid t d = elim (unused_slot 0 t) [
    | none ↦ (negsuc 0, t, d)
    | some i ↦
        let (res, d1) = Fs.fs_open driver name d in
        elim res [
          | none ↦ (negsuc 0, t, d1)
          | some f ↦ (pos i, set t i (record { file = f; pid = pid; used = true }), d1)
        ]
  ]

  -- The bytes read with their number, or -1; `none` is a loop that has not ended.
  pub read : ℤ → ℕ → ℕ → Table → driver.Disk → Option ((ℤ × List ℕ) × Table × driver.Disk)
  read fd len pid t d = elim (owned fd pid t) [
    | none ↦ some ((negsuc 0, []), t, d)
    | some i ↦ elim (Fs.read driver len (entry_at t i).file d) [
      | none ↦ none
      | some (bytes, f, d1) ↦
          some ((pos (length bytes), bytes), set t i (record (entry_at t i) { file = f }), d1)
    ]
  ]

pub close : ℤ → ℕ → Table → Table
close fd pid t = elim (owned fd pid t) [
  | none ↦ t
  | some i ↦ set t i (record { file = Fs.close (entry_at t i).file; pid = 0; used = false })
]
