-- ===== src/Fd/Owner.antt =====
-- Who may use a descriptor of kernel/fd.c.
use vesper_os.Prelude.{
  ℕ, suc, ◌+◌, ◌<◌, ◌≡◌, ◌≢◌, refl, ap, ◌∙◌, ◌⊎◌, inl, inr, true, false, ◌&&◌, none, some,
  Option-cases, List, [], ◌∷◌, length, length-set, get_or-set_ne, set, ltb, ◌==◌, Bool-cases, arith,
}
use vesper_os.Prelude.Int.{ℤ, pos, negsuc}
use vesper_os.Fs
use vesper_os.Fs.{Driver, File}
use vesper_os.Fs.Read.{read-Ends}
use vesper_os.Fd.{init, Table, fd_max, entry_at, no_entry, unused_slot, owned, fd_open, read, close}

-- The descriptor is one that the process has open.
abbrev pub Owns : Table → ℕ → ℤ → Type 0
Owns t pid (pos i) = (i < fd_max) × ((entry_at t i).used ≡ true) × ((entry_at t i).pid ≡ pid)
Owns t pid (negsuc n) = ⊥

not_owned : (t : Table) (pid : ℕ) (fd : ℤ) → ¬ (Owns t pid fd) → owned fd pid t ≡ none
unfolding owned
not_owned t pid (negsuc n) h = refl
not_owned t pid (pos i) h = elim (Bool-cases (ltb i fd_max)) [
  | inr e ↦ rw e refl
  | inl e ↦ rw e (elim (Bool-cases ((entry_at t i).used && (entry_at t i).pid == pid)) [
    | inr f ↦ rw f refl
    | inl f ↦ absurd (h (ground arith, ground arith, ground arith))
  ])
]

-- fd_read and fd_close of a descriptor that the process does not have open, also of one that another
-- process has, do nothing: the read returns -1 and no bytes, and the table and the disk stay.
pub not_owner :
    (driver : Driver) (t : Table) (d : driver.Disk) (pid len : ℕ) (fd : ℤ)
    → ¬ (Owns t pid fd)
    → (read driver fd len pid t d ≡ some ((negsuc 0, []), t, d)) × (close fd pid t ≡ t)
unfolding read close
not_owner driver t d pid len fd h =
    let o = not_owned t pid fd h in (rw (o, read) refl, rw (o, close) refl)

pub length-close : (fd : ℤ) (pid : ℕ) (t : Table) → length (close fd pid t) ≡ length t
unfolding close
length-close fd pid t = elim (Option-cases (owned fd pid t)) [
  | inl e ↦ rw (e, close) refl
  | inr (i, e) ↦ rw (e, close) (length-set t i _)
]

-- fd_read ends and keeps the length of the table.
pub read_ends :
    (driver : Driver) (fd : ℤ) (len pid : ℕ) (t : Table) (d : driver.Disk)
    → (res : ℤ × List ℕ) × (t' : Table) × (d' : driver.Disk) × (read driver fd len pid t d
        ≡ some (res, t', d'))
      × (length t' ≡ length t)
unfolding read
read_ends driver fd len pid t d = elim (Option-cases (owned fd pid t)) [
  | inl e ↦ rw (e, read) ((negsuc 0, []), t, d, refl, refl)
  | inr (i, e) ↦
      let (bytes, f, d1, q, l) = read-Ends driver len (entry_at t i).file d in
      rw (e, read) (rw q ((pos (length bytes), bytes), _, d1, refl, length-set t i _))
]

unused_at :
    (i : ℕ) (t : Table)
    → (unused_slot i t ≡ none)
      ⊎ ((j : ℕ) × (unused_slot i t ≡ some (i + j))
          × (j < length t)
          × ((entry_at t j).used ≡ false))
unfolding unused_slot
unused_at i [] = inl refl
unused_at i (e ∷ es) = elim (Bool-cases e.used) [
  | inr u ↦ inr (0, rw u (ap some (omega arith)), omega arith, u)
  | inl u ↦ elim (unused_at (i + 1) es) [
    | inl q ↦ inl (rw u q)
    | inr (j, q, l, f) ↦ inr (suc j, rw u (q ∙ ap some (omega arith)), omega arith, f)
  ]
]

unused_lem :
    (t : Table)
    → (unused_slot 0 t ≡ none)
      ⊎ ((j : ℕ) × (unused_slot 0 t ≡ some j) × (j < length t) × ((entry_at t j).used ≡ false))
unused_lem t = elim (unused_at 0 t) [
  | inl e ↦ inl e
  | inr (j, e, l, u) ↦ inr (j, e ∙ ap some (omega arith), l, u)
]

-- What fd_open leaves: nothing happened to the table, or a slot that was free holds a handle of the
-- caller.
pub data Opened (t : Table) (pid : ℕ) : ℤ → Table → Type 0 where
  refused : Opened t pid (negsuc 0) t
  opened :
      (i : ℕ) (f : File)
      → i < length t
      → (entry_at t i).used ≡ false
      → Opened t pid (pos i) (set t i (record { file = f; pid = pid; used = true }))

pub fd_open-Opened :
    (driver : Driver) (name : List ℕ) (pid : ℕ) (t : Table) (d : driver.Disk)
    → Opened t pid (fd_open driver name pid t d).0 (fd_open driver name pid t d).1
unfolding fd_open
fd_open-Opened driver name pid t d = elim (unused_lem t) [
  | inl e ↦ rw (e, fd_open) refused
  | inr (j, e, l, u) ↦
      rw (e, fd_open)
        (elim (Option-cases (Fs.fs_open driver name d).0) [
          | inl z ↦ rw z refused
          | inr (f, z) ↦ rw z (opened j f l u)
        ])
]

length-Opened : {t t' : Table} {pid : ℕ} {res : ℤ} → Opened t pid res t' → length t' ≡ length t
length-Opened refused = refl
length-Opened {t} (opened i f l u) = length-set t i _

pub length-fd_open :
    (driver : Driver) (name : List ℕ) (pid : ℕ) (t : Table) (d : driver.Disk)
    → length (fd_open driver name pid t d).1 ≡ length t
length-fd_open driver name pid t d = length-Opened (fd_open-Opened driver name pid t d)

-- What a process has open stays so when a process opens a file.
Opened-Owns :
    {t t' : Table} {pid : ℕ} {res : ℤ} (owner : ℕ) (fd : ℤ)
    → Opened t pid res t'
    → Owns t owner fd
    → Owns t' owner fd
Opened-Owns owner (negsuc n) o h = h
Opened-Owns owner (pos j) refused h = h
Opened-Owns {t} owner (pos j) (opened i f l u) (a, b, c) =
    let other : i ≢ j = (λ e. let u' : (entry_at t j).used ≡ false = rw e at u in ground arith) in
    rw (get_or-set_ne t i j _ no_entry other) (a, b, c)

-- A process that opens a file takes no descriptor from any process that has it open.
pub fd_open-Owns :
    (driver : Driver) (name : List ℕ) (pid owner : ℕ) (fd : ℤ) (t : Table) (d : driver.Disk)
    → Owns t owner fd
    → Owns (fd_open driver name pid t d).1 owner fd
fd_open-Owns driver name pid owner fd t d h =
    Opened-Owns owner fd (fd_open-Opened driver name pid t d) h

pub length-init : length init ≡ fd_max
unfolding init
length-init = refl
