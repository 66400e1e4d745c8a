-- ===== src/Fs/Content.antt =====
-- What fs_read of kernel/fs.c reads, from a disk whose sectors can all be read.
use vesper_os.Prelude.{
  ℕ, zero, suc, ◌+◌, ◌-◌, ◌*◌, ◌/◌, ◌%◌, ◌^◌, ◌≤◌, ◌<◌, ◌≡◌, refl, ap, ◌∙◌, inl, inr, not, ◌||◌,
  true, false, Option, some, List, [], ◌∷◌, ◌++◌, take, drop, length, get_or, ltb, leb, ◌==◌,
  if◌then◌else◌, Bool-cases, arith,
}
use vesper_os.Fs.{Driver, File, sector_size, read_loop, read}

-- A driver that reads the sector asked for, and changes none by that.
pub record Readable (driver : Driver) : Type 1 where
  pub sector : driver.Disk → ℕ → List ℕ
  pub size : (d : driver.Disk) (l : ℕ) → length (sector d l) ≡ sector_size
  pub reads : (l : ℕ) (d : driver.Disk) → (driver.read_sectors l 1 d).0 ≡ some (sector d l)
  pub keeps : (l k : ℕ) (d : driver.Disk) → sector (driver.read_sectors l 1 d).1 k ≡ sector d k

-- The bytes of a file that starts in sector `first`, from position `pos` on.
pub content : (ℕ → List ℕ) → ℕ → ℕ → ℕ → List ℕ
content s first pos zero = []
content s first pos (suc n) =
    get_or (s ((first + pos / sector_size) % 2 ^ 32)) (pos % sector_size) 0
    ∷ content s first (pos + 1) n

content-same :
    (s t : ℕ → List ℕ) (first pos n : ℕ)
    → ((k : ℕ) → s k ≡ t k)
    → content s first pos n ≡ content t first pos n
unfolding content
content-same s t first pos zero e = refl
content-same s t first pos (suc n) e =
    rw (e ((first + pos / sector_size) % 2 ^ 32), content-same s t first (pos + 1) n e) refl

append-content :
    (s : ℕ → List ℕ) (first pos p a b m : ℕ)
    → p ≡ pos + a
    → m ≡ a + b
    → content s first pos a ++ content s first p b ≡ content s first pos m
unfolding content
append-content s first pos p zero b m e f =
    let e0 : p ≡ pos = omega arith in let f0 : m ≡ b = omega arith in rw (e0, f0) refl
append-content s first pos p (suc a) b zero e f = absurd (omega arith)
append-content s first pos p (suc a) b (suc m) e f =
    ap (λ x. get_or (s ((first + pos / sector_size) % 2 ^ 32)) (pos % sector_size) 0 ∷ x)
      (append-content s first (pos + 1) p a b m (omega arith) (omega arith))

take-drop :
    (n i : ℕ) (l : List ℕ)
    → i < length l
    → take (suc n) (drop i l) ≡ get_or l i 0 ∷ take n (drop (suc i) l)
take-drop n i [] h = absurd (omega arith)
take-drop n zero (x ∷ l) h = refl
take-drop n (suc i) (x ∷ l) h = take-drop n i l (omega arith)

-- A part of one sector.
take-content :
    (s : ℕ → List ℕ) (first n q r : ℕ)
    → ((k : ℕ) → length (s k) ≡ sector_size)
    → r + n ≤ sector_size
    → take n (drop r (s ((first + q) % 2 ^ 32))) ≡ content s first (q * sector_size + r) n
unfolding content
take-content s first zero q r e l = refl
take-content s first (suc n) q r e l =
    let at : (q * sector_size + r) / sector_size ≡ q = omega arith in
    let in_sector : (q * sector_size + r) % sector_size ≡ r = omega arith in
    let next : q * sector_size + r + 1 ≡ q * sector_size + suc r = omega arith in
    take-drop n r (s ((first + q) % 2 ^ 32)) (omega (arith, e ((first + q) % 2 ^ 32)))
    ∙ ap (λ x. get_or (s ((first + q) % 2 ^ 32)) r 0 ∷ x)
        (take-content s first n q (suc r) e (omega arith))
    ∙ rw (at, in_sector, next) refl

-- The handle behind the bytes read.
abbrev pub moved : ℕ → File → File
moved n f = record f { position = f.position + n }

abbrev pub Gives :
    (driver : Driver) (g : Readable driver) (n : ℕ) (f : File) (d : driver.Disk)
    → Option (List ℕ × File × driver.Disk)
    → Type 0
Gives driver g n f d out =
    (d' : driver.Disk) × (out ≡ some (content (g.sector d) f.first_lba f.position n, moved n f, d'))
    × ((k : ℕ) → g.sector d' k ≡ g.sector d k)

-- The bytes that one round takes from its sector, and the sector.
abbrev chunk_of : File → ℕ → ℕ
chunk_of f remaining =
    if ltb remaining (sector_size - f.position % sector_size)
    then remaining
    else sector_size - f.position % sector_size

abbrev lba_of : File → ℕ
lba_of f = (f.first_lba + f.position / sector_size) % 2 ^ 32

-- One round and the rest of the file.
take-content_rest :
    (s t : ℕ → List ℕ) (f : File) (c remaining : ℕ)
    → ((k : ℕ) → length (s k) ≡ sector_size)
    → ((k : ℕ) → t k ≡ s k)
    → c ≤ remaining
    → f.position % sector_size + c ≤ sector_size
    → f.position + remaining < 2 ^ 32
    → take c (drop (f.position % sector_size) (s (lba_of f)))
        ++ content t f.first_lba ((f.position + c) % 2 ^ 32) (remaining - c)
      ≡ content s f.first_lba f.position remaining
take-content_rest s t f c remaining size same most fits w =
    let parts : f.position / sector_size * sector_size + f.position % sector_size ≡ f.position =
      omega arith in
    let here =
      take-content s f.first_lba c (f.position / sector_size) (f.position % sector_size) size
        fits in
    let here' = here ∙ ap (λ p. content s f.first_lba p c) parts in
    let p1 : (f.position + c) % 2 ^ 32 ≡ f.position + c = omega arith in
    let split : remaining ≡ c + (remaining - c) = omega arith in
    ap (λ x. x ++ content t f.first_lba ((f.position + c) % 2 ^ 32) (remaining - c)) here'
    ∙ ap (λ x. content s f.first_lba f.position c ++ x)
        (content-same t s f.first_lba ((f.position + c) % 2 ^ 32) (remaining - c) same)
    ∙ append-content s f.first_lba f.position _ c (remaining - c) remaining p1 split

module _ (driver : Driver) (g : Readable driver) where
  read_loop-round :
      (n remaining : ℕ) (f f2 : File) (d d2 : driver.Disk) (sector bytes : List ℕ)
      → (remaining == 0) ≡ false
      → (driver.read_sectors (lba_of f) 1 d).0 ≡ some sector
      → read_loop driver n
          (remaining - chunk_of f remaining)
          (record f { position = (f.position + chunk_of f remaining) % 2 ^ 32 })
          (driver.read_sectors (lba_of f) 1 d).1
        ≡ some (bytes, f2, d2)
      → read_loop driver (suc n) remaining f d
        ≡ some
            (take (chunk_of f remaining) (drop (f.position % sector_size) sector) ++ bytes, f2, d2)
  unfolding read_loop
  read_loop-round n remaining f f2 d d2 sector bytes z e r = rw (z, read_loop) (rw e (rw r refl))

  read_loop-Gives :
      (n remaining : ℕ) (f : File) (d : driver.Disk)
      → remaining < n
      → f.position + remaining < 2 ^ 32
      → Gives driver g remaining f d (read_loop driver n remaining f d)
  unfolding content read_loop
  read_loop-Gives zero remaining f d l w = absurd (omega arith)
  read_loop-Gives (suc n) zero f d l w =
      (d, ap (λ p. some ([], record f { position = p }, d)) (omega arith), λ k. refl)
  read_loop-Gives (suc n) (suc m) f d l w =
      let chunk = chunk_of f (suc m) in
      let positive : 0 < chunk = ground arith in
      let most : chunk ≤ suc m = ground arith in
      let fits : f.position % sector_size + chunk ≤ sector_size = ground arith in
      let (d', e, same) =
        read_loop-Gives n (suc m - chunk) (record f { position = (f.position + chunk) % 2 ^ 32 })
          (driver.read_sectors (lba_of f) 1 d).1 (omega arith) (omega arith) in
      let after : (f.position + chunk) % 2 ^ 32 + (suc m - chunk) ≡ f.position + suc m =
        omega arith in
      let bytes =
        take-content_rest (g.sector d) (g.sector (driver.read_sectors (lba_of f) 1 d).1) f chunk
          (suc m) (g.size d) (λ k. g.keeps (lba_of f) k d) most fits w in
      (
        d',
        read_loop-round n (suc m) f _ d d' _ _ (ground arith) (g.reads (lba_of f) d) e
            ∙ ap
                (λ b. some (
                  b,
                  moved (suc m - chunk) (record f { position = (f.position + chunk) % 2 ^ 32 }),
                  d',
                ))
                bytes
            ∙ ap
                (λ p. some (
                  content (g.sector d) f.first_lba f.position (suc m),
                  record f { position = p },
                  d',
                ))
                after,
        λ k. same k ∙ g.keeps (lba_of f) k d,
      )

  -- From a disk whose sectors can all be read, fs_read of an open handle that has not passed the
  -- end of its file, of fewer than 2^32 bytes, gives exactly the bytes of the file from the
  -- position on, as many as were asked for or as are left, moves the position behind them, and
  -- changes no sector.
  pub read-Gives :
      (len : ℕ) (f : File) (d : driver.Disk)
      → f.is_valid ≡ true
      → f.position ≤ f.size
      → f.size < 2 ^ 32
      → Gives driver g
          (if ltb (f.size - f.position) len then f.size - f.position else len)
          f
          d
          (read driver len f d)
  unfolding content read
  read-Gives len f d v le l =
      let left = f.size - f.position in
      let n = if ltb left len then left else len in
      elim (Bool-cases (leb f.size f.position)) [
        | inl e ↦
            let z : n ≡ 0 = ground arith in
            let stop : (not f.is_valid || leb f.size f.position) ≡ true = ground arith in
            rw (stop, z)
              (d, ap (λ p. some ([], record f { position = p }, d)) (omega arith), λ k. refl)
        | inr e ↦
            let go : (not f.is_valid || leb f.size f.position) ≡ false = ground arith in
            let few : f.position + n < 2 ^ 32 = ground arith in
            let (d', q, same) = read_loop-Gives (suc n) n f d (omega arith) few in
            (d', rw (go, read) q, same)
      ]
