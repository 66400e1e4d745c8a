-- ===== src/Kmem/Alloc.antt =====
-- kmalloc of kernel/kmem.c implements the first fit on the list of blocks.
use vesper_os.Prelude.{
  ℕ, zero, suc, ◌+◌, ◌-◌, ◌%◌, ◌*◌, ◌^◌, ◌≤◌, ◌<◌, ◌≡◌, refl, ap, ◌∙◌, inl, inr, true, false, ◌&&◌,
  Option, none, some, List, [], ◌∷◌, length, leb, ◌==◌, if◌then◌else◌, Bool-cases, &&-split, leb→le,
  arith,
}
use vesper_os.Kmem.{
  Heap, is_free, heap_magic, header_size, put, take_block, alloc_loop, round_up, rounds, kmalloc,
  heap_size,
}
use vesper_os.Kmem.Blocks.{Block, extent, allocate}
use vesper_os.Kmem.Chain.{Chain, Chain-extent, Chain-frame}

-- What the loop of kmalloc makes of the blocks from `pos` on, told by what first fit promises.
abbrev pub AllocDone : ℕ → ℕ → ℕ → Heap → Option (ℕ × Heap) → Option (ℕ × List Block) → Type 0
AllocDone stop pos ptr h out none = out ≡ some (0, h)
AllocDone stop pos ptr h out (some (p, bs)) =
    (h' : Heap) × (out ≡ some (p, h'))
    × Chain h' stop pos ptr bs
    × ((a : ℕ) → a < pos → h'.at a ≡ h.at a)
    × (h'.head ≡ h.head)

-- The block at `pos` is taken.
module _ (h : Heap) (stop size pos : ℕ) (b : Block) (bs : List Block)
    (c : Chain h stop pos pos (b ∷ bs)) (low : 16 ≤ pos) (top : stop < 2 ^ 32)
    (fits : size ≤ b.size) where
  tail_extent : pos + 16 + b.size + extent bs ≡ stop
  tail_extent = Chain-extent h stop (pos + 16 + b.size) (h.at pos).next bs c.4

  self : (pos == pos) ≡ true
  self = ground arith

  -- The block is split: its header, and the header of the rest.
  split_heap : Heap
  split_heap =
      put pos (record (h.at pos) { size = size; free = 0; next = pos + 16 + size })
        (put pos (record (h.at pos) { size = size; next = pos + 16 + size })
          (put (pos + 16 + size)
            (record {
              size = b.size - size - 16;
              free = 1;
              magic = heap_magic;
              next = (h.at pos).next;
            })
            h))

  take_block_split : size + 20 ≤ b.size → take_block size pos h ≡ (pos + 16, split_heap)
  unfolding take_block split_heap
  take_block_split roomy =
      let e = tail_extent in
      let t : leb ((size + header_size + 4) % 2 ^ 32) (h.at pos).size ≡ true =
        ground (arith, tail_extent, c.1) in
      let q : (pos + header_size + size) % 2 ^ 32 ≡ pos + 16 + size = omega arith in
      let r : ((h.at pos).size + 2 ^ 32 - size - header_size) % 2 ^ 32 ≡ b.size - size - 16 =
        omega (arith, c.1) in
      let d : (pos + header_size) % 2 ^ 32 ≡ pos + 16 = omega arith in
      rw t (rw (q, r, d) (rw self refl))

  take_split :
      size + 20 ≤ b.size
      → AllocDone stop pos pos h (some (take_block size pos h)) (
          some (
            pos + 16,
            record { size = size; free = false }
                ∷ record { size = b.size - size - 16; free = true }
                ∷ bs,
          ))
  unfolding split_heap
  take_split roomy =
      let other : (pos + 16 + size == pos) ≡ false = ground arith in
      let self' : (pos + 16 + size == pos + 16 + size) ≡ true = ground arith in
      (
        split_heap,
        ap some (take_block_split roomy),
        (
          refl,
          rw self refl,
          rw self refl,
          rw self c.3,
          (
            rw self refl,
            rw (other, self') refl,
            rw (other, self') refl,
            rw (other, self') refl,
            rw (other, self') (rest roomy),
          ),
        ),
        (λ a l. ground arith),
        refl,
      )
    where
      rest :
          size + 20 ≤ b.size
          → Chain split_heap stop (pos + 16 + size + 16 + (b.size - size - 16)) (h.at pos).next bs
      rest roomy =
          let e : pos + 16 + size + 16 + (b.size - size - 16) ≡ pos + 16 + b.size = omega arith in
          rw e (
            Chain-frame h split_heap stop (pos + 16 + b.size) (h.at pos).next bs
              (λ a l. ground arith) c.4)

  take_whole :
      leb (size + 20) b.size ≡ false
      → AllocDone stop pos pos h
          (some (take_block size pos h))
          (some (pos + 16, record b { free = false } ∷ bs))
  unfolding take_block
  take_whole tight =
      let t : leb ((size + header_size + 4) % 2 ^ 32) (h.at pos).size ≡ false =
        ground (arith, tail_extent, c.1) in
      let taken = put pos (record (h.at pos) { free = 0 }) h in
      rw t (
        taken,
        ap (λ q. some (q, taken)) (omega (arith, tail_extent)),
        (
          refl,
          rw self c.1,
          rw self refl,
          rw self c.3,
          rw self (
              Chain-frame h taken stop (pos + 16 + b.size) (h.at pos).next bs (λ a l. ground arith)
                c.4),
        ),
        (λ a l. ground arith),
        refl,
      )

  take_lem : AllocDone stop pos pos h (some (take_block size pos h)) (
      some (
        pos + 16,
        if leb (size + 20) b.size
            then record { size = size; free = false }
              ∷ record { size = b.size - size - 16; free = true }
              ∷ bs
            else record b { free = false } ∷ bs,
      ))
  take_lem = elim (Bool-cases (leb (size + 20) b.size)) [
    | inl e ↦ rw e (take_split (ground arith))
    | inr e ↦ rw e (take_whole e)
  ]

-- A block that is passed over stays in front of what is made of the rest.
pass_over :
    (h : Heap) (stop pos : ℕ) (b : Block) (bs : List Block) (out : Option (ℕ × Heap))
    (r : Option (ℕ × List Block))
    → Chain h stop pos pos (b ∷ bs)
    → AllocDone stop (pos + 16 + b.size) (h.at pos).next h out r
    → AllocDone stop pos pos h out (elim r [ none ↦ none | some (p, bs') ↦ some (p, b ∷ bs') ])
pass_over h stop pos b bs out none c d = d
pass_over h stop pos b bs out (some (p, bs')) c (h', e, c', low, head) =
    let same = low pos (omega arith) in
    (
      h',
      e,
      (
        refl,
        ap (λ x. x.size) same ∙ c.1,
        ap (λ x. is_free x) same ∙ c.2,
        ap (λ x. x.magic) same ∙ c.3,
        rw (ap (λ x. x.next) same) c',
      ),
      (λ a l. low a (omega arith)),
      head,
    )

-- With a round for every block and one for the NULL, the loop of kmalloc ends, and does first fit.
pub alloc_loop_lem :
    (n size : ℕ) (h : Heap) (stop pos ptr : ℕ) (bs : List Block)
    → Chain h stop pos ptr bs
    → length bs < n
    → 16 ≤ pos
    → stop < 2 ^ 32
    → AllocDone stop pos ptr h (alloc_loop n size ptr h) (allocate size pos bs)
unfolding alloc_loop allocate
alloc_loop_lem zero size h stop pos ptr bs c l low top = absurd (omega arith)
alloc_loop_lem (suc n) size h stop pos ptr [] c l low top = rw c.0 refl
alloc_loop_lem (suc n) size h stop pos ptr (b ∷ bs) c l low top =
    let nz : (ptr == 0) ≡ false = ground (arith, c.0) in
    let rest =
      alloc_loop_lem n size h stop (pos + 16 + b.size) (h.at pos).next bs c.4 (omega arith)
        (omega arith) top in
    rw nz (rw c.0 (rw (c.1, c.2) (choose rest)))
  where
    choose :
        AllocDone stop
          (pos + 16 + b.size)
          (h.at pos).next
          h
          (alloc_loop n size (h.at pos).next h)
          (allocate size (pos + 16 + b.size) bs)
        → AllocDone stop pos pos h
            (if b.free && leb size b.size
              then some (take_block size pos h)
              else alloc_loop n size (h.at pos).next h)
            (if b.free && leb size b.size
              then some (
                pos + 16,
                if leb (size + 20) b.size
                    then record { size = size; free = false }
                      ∷ record { size = b.size - size - 16; free = true }
                      ∷ bs
                    else record b { free = false } ∷ bs,
              )
              else elim (allocate size (pos + 16 + b.size) bs) [
                | none ↦ none
                | some (p, bs') ↦ some (p, b ∷ bs')
              ])
    choose rest = elim (Bool-cases (b.free && leb size b.size)) [
      | inl e ↦
          let parts = &&-split b.free (leb size b.size) e in
          rw e
            (take_lem h stop size pos b bs (refl, c.1, c.2, c.3, c.4) low top (leb→le _ _ parts.1))
      | inr e ↦ rw e (pass_over h stop pos b bs _ _ (refl, c.1, c.2, c.3, c.4) rest)
    ]

-- The heap's headers stand for the blocks `bs`, which fill heap_storage.
pub record IsHeap (storage : ℕ) (h : Heap) (bs : List Block) : Type 0 where
  pub chain : Chain h (storage + heap_size) storage h.head bs
  pub low : 16 ≤ storage
  pub top : storage + heap_size < 2 ^ 32

length-le-extent : (bs : List Block) → 16 * length bs ≤ extent bs
unfolding extent
length-le-extent [] = omega arith
length-le-extent (b ∷ bs) = omega (arith, length-le-extent bs)

-- The fuel of the loops is enough: each block takes a header.
pub enough_rounds :
    {storage : ℕ} {h : Heap} {bs : List Block} → IsHeap storage h bs → length bs < rounds
enough_rounds {storage} {h} {bs} v =
    omega
      (arith, length-le-extent bs, Chain-extent h (storage + heap_size) storage h.head bs v.chain)

-- On a heap whose headers stand for a list of blocks, kmalloc of a size that is not 0 ends, and
-- does what first fit does with the size rounded up: if that finds no block it returns NULL and
-- changes nothing, and otherwise the headers stand for its list of blocks and the result is its
-- address.
pub kmalloc_lem :
    (storage size : ℕ) (h : Heap) (bs : List Block)
    → IsHeap storage h bs
    → 0 < size
    → AllocDone
        (storage + heap_size)
        storage
        h.head
        h
        (kmalloc size h)
        (allocate (round_up size) storage bs)
unfolding kmalloc
kmalloc_lem storage size h bs v nz =
    let t : (size == 0) ≡ false = ground arith in
    rw t (
      alloc_loop_lem rounds (round_up size) h (storage + heap_size) storage h.head bs v.chain
        (enough_rounds v) v.low v.top)
