-- ===== src/Fs/Read.antt =====
-- fs_read of kernel/fs.c ends.
use vesper_os.Prelude.{
  ℕ, zero, suc, ◌+◌, ◌-◌, ◌/◌, ◌%◌, ◌^◌, ◌≤◌, ◌<◌, ◌≡◌, refl, inl, inr, not, ◌||◌, Option, none,
  some, List, [], ◌++◌, take, drop, length, length-take, length-append, ltb, leb, ◌==◌,
  if◌then◌else◌, Bool-cases, arith,
}
use vesper_os.Fs.{Driver, File, sector_size, read_loop, read}

-- The read ended with at most `len` bytes.
abbrev pub Ends : (driver : Driver) → ℕ → Option (List ℕ × File × driver.Disk) → Type 0
Ends driver len out =
    (bytes : List ℕ) × (f : File) × (d : driver.Disk) × (out ≡ some (bytes, f, d))
    × (length bytes ≤ len)

prepend :
    (driver : Driver) (chunk : List ℕ) (n len : ℕ) (out : Option (List ℕ × File × driver.Disk))
    → Ends driver n out
    → length chunk + n ≤ len
    → Ends driver len
        (elim out [ none ↦ none | some (bytes, f2, d2) ↦ some (chunk ++ bytes, f2, d2) ])
prepend driver chunk n len out (bytes, f, d, e, l) h =
    rw e (chunk ++ bytes, f, d, refl, omega (arith, length-append chunk bytes))

read_loop-Ends :
    (driver : Driver) (n remaining : ℕ) (f : File) (d : driver.Disk)
    → remaining < n
    → Ends driver remaining (read_loop driver n remaining f d)
unfolding read_loop
read_loop-Ends driver zero remaining f d l = absurd (omega arith)
read_loop-Ends driver (suc n) remaining f d l = elim (Bool-cases (remaining == 0)) [
  | inl e ↦ rw (e, read_loop) ([], f, d, refl, omega arith)
  | inr e ↦
      let out = driver.read_sectors ((f.first_lba + f.position / sector_size) % 2 ^ 32) 1 d in
      rw (e, read_loop)
        (step out.0 out.1 (λ m g d2 lt. read_loop-Ends driver n m g d2 lt) (ground arith))
]
  where
    step :
        (res : Option (List ℕ)) (d1 : driver.Disk)
        → ((m : ℕ) (g : File) (d2 : driver.Disk)
            → m < n
            → Ends driver m (read_loop driver n m g d2))
        → 0 < remaining
        → Ends driver remaining (elim res [
          | none ↦ some ([], f, d1)
          | some sector ↦
              let offset = f.position % sector_size in
              let room = sector_size - offset in
              let chunk = if ltb remaining room then remaining else room in
              let moved = record f { position = (f.position + chunk) % 2 ^ 32 } in
              elim (read_loop driver n (remaining - chunk) moved d1) [
                | none ↦ none
                | some (bytes, f2, d2) ↦ some (take chunk (drop offset sector) ++ bytes, f2, d2)
              ]
        ])
    step none d1 ih nz = ([], f, d1, refl, omega arith)
    step (some sector) d1 ih nz =
        let offset = f.position % sector_size in
        let chunk =
          if ltb remaining (sector_size - offset) then remaining else sector_size - offset in
        let moved : File = record f { position = (f.position + chunk) % 2 ^ 32 } in
        let some_bytes : 0 < chunk = ground (arith, nz) in
        let most : chunk ≤ remaining = ground arith in
        prepend driver (take chunk (drop offset sector)) (remaining - chunk) remaining _
          (ih (remaining - chunk) moved d1 (omega (arith, some_bytes, nz, l)))
          (omega (arith, most, length-take chunk (drop offset sector)))

-- fs_read of any handle from any disk ends, also when the disk fails, and gives at most the bytes
-- asked for.
pub read-Ends :
    (driver : Driver) (len : ℕ) (f : File) (d : driver.Disk)
    → (bytes : List ℕ) × (f' : File) × (d' : driver.Disk) × (read driver len f d
        ≡ some (bytes, f', d'))
      × (length bytes ≤ len)
unfolding read
read-Ends driver len f d =
    let left = f.size - f.position in
    let len' = if ltb left len then left else len in
    let most : len' ≤ len = ground arith in
    elim (Bool-cases (not f.is_valid || leb f.size f.position)) [
      | inl e ↦ rw (e, read) ([], f, d, refl, omega arith)
      | inr e ↦
          let (bytes, g, d', q, l) = read_loop-Ends driver (suc len') len' f d (omega arith) in
          rw (e, read) (bytes, g, d', q, omega (arith, l, most))
    ]
