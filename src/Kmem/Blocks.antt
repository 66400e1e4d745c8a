-- ===== src/Kmem/Blocks.antt =====
-- The heap of kernel/kmem.c as a list of blocks in address order: what each operation promises.
use vesper_os.Prelude.{
  ℕ, ◌+◌, ◌-◌, ◌≡◌, ◌⊎◌, Bool, true, false, ◌&&◌, Option, none, some, List, [], ◌∷◌, leb, ◌==◌,
  if◌then◌else◌,
}

pub record Block : Type 0 where
  pub size : ℕ
  pub free : Bool

-- First fit: the block at position `pos` that is taken, as the address of its data, and the list.
unfoldable pub allocate : ℕ → ℕ → List Block → Option (ℕ × List Block)
allocate size pos [] = none
allocate size pos (b ∷ bs) =
    let rest = allocate size (pos + 16 + b.size) bs in
    let split =
      if leb (size + 20) b.size
      then record { size = size; free = false }
        ∷ record { size = b.size - size - 16; free = true }
        ∷ bs
      else record b { free = false } ∷ bs in
    if b.free && leb size b.size
    then some (pos + 16, split)
    else elim rest [ none ↦ none | some (p, bs') ↦ some (p, b ∷ bs') ]

-- One pass that joins every run of free blocks.
unfoldable pub coalesce_from : Block → List Block → List Block
coalesce_from b [] = b ∷ []
coalesce_from b (c ∷ bs) =
    let joined = coalesce_from (record { size = b.size + 16 + c.size; free = true }) bs in
    let rest = coalesce_from c bs in if b.free && c.free then joined else b ∷ rest

unfoldable pub coalesce : List Block → List Block
unfolding coalesce_from
coalesce [] = []
coalesce (b ∷ bs) = coalesce_from b bs

-- Marking the block whose data starts at an address.
unfoldable pub release : ℕ → ℕ → List Block → List Block
release ptr pos [] = []
release ptr pos (b ∷ bs) =
    let rest = release ptr (pos + 16 + b.size) bs in
    if ptr == pos + 16 then record b { free = true } ∷ bs else b ∷ rest

-- A block in use has its header at `a`, for a list of blocks from `pos` on.
abbrev pub InUse : ℕ → ℕ → List Block → Type 0
InUse a pos [] = ⊥
InUse a pos (b ∷ bs) = ((a ≡ pos) × (b.free ≡ false)) ⊎ InUse a (pos + 16 + b.size) bs

-- The bytes that the blocks take, headers included.
unfoldable pub extent : List Block → ℕ
extent [] = 0
extent (b ∷ bs) = 16 + b.size + extent bs

unfoldable pub used_bytes : List Block → ℕ
used_bytes [] = 0
used_bytes (b ∷ bs) = (if b.free then 0 else b.size) + used_bytes bs

unfoldable pub free_bytes : List Block → ℕ
free_bytes [] = 0
free_bytes (b ∷ bs) = (if b.free then b.size else 0) + free_bytes bs

-- No two neighbours are both free.
abbrev pub IsCoalesced : List Block → Type 0
IsCoalesced [] = Unit {0}
IsCoalesced (b ∷ []) = Unit {0}
IsCoalesced (b ∷ c ∷ bs) = (b.free && c.free ≡ false) × IsCoalesced (c ∷ bs)
