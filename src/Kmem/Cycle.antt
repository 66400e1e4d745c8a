-- ===== src/Kmem/Cycle.antt =====
-- What kmem_init, kmalloc and kfree of kernel/kmem.c leave: a fresh heap, and a coalesced one.
use vesper_os.Prelude.{
  ℕ, ◌+◌, ◌-◌, ◌^◌, ◌≤◌, ◌<◌, ◌≡◌, refl, ap, subst, inl, inr, true, false, ◌&&◌, some, List, [],
  ◌∷◌, ◌==◌, Bool-cases, &&-split, arith,
}
use vesper_os.Kmem.{Heap, heap_size, init, round_up, kmalloc, kfree}
use vesper_os.Kmem.Blocks.{Block, InUse, coalesce_from, coalesce, release, allocate, IsCoalesced}
use vesper_os.Kmem.Alloc.{IsHeap, AllocDone, kmalloc_lem}
use vesper_os.Kmem.Free.{kfree_lem}

-- After kmem_init the headers stand for one free block that fills heap_storage, where that lies at
-- address 16 or above and ends below 2^32.
pub kmem_init-IsHeap :
    (storage : ℕ) (h : Heap)
    → 16 ≤ storage
    → storage + heap_size < 2 ^ 32
    → IsHeap storage (init storage h) (record { size = 262128; free = true } ∷ [])
unfolding init
kmem_init-IsHeap storage h low top =
    let self : (storage == storage) ≡ true = ground arith in
    record {
      chain = (refl, rw self refl, rw self refl, rw self refl, rw self (refl, omega arith));
      low = low;
      top = top;
    }

-- A list of blocks that starts with a block as free as `b` and is coalesced.
abbrev Joined : Block → List Block → Type 0
Joined b bs =
    (c : Block) × (cs : List Block) × (bs ≡ c ∷ cs) × (c.free ≡ b.free) × IsCoalesced (c ∷ cs)

coalesce_from-Joined : (b : Block) (bs : List Block) → Joined b (coalesce_from b bs)
unfolding coalesce_from
coalesce_from-Joined b [] = (b, [], refl, refl, _)
coalesce_from-Joined b (c ∷ bs) = elim (Bool-cases (b.free && c.free)) [
  | inl e ↦
      let (d, ds, q, f, w) =
        coalesce_from-Joined (record { size = b.size + 16 + c.size; free = true }) bs in
      rw e (d, ds, q, rw (&&-split b.free c.free e).0 f, w)
  | inr e ↦
      let (d, ds, q, f, w) = coalesce_from-Joined c bs in
      rw e (b, d ∷ ds, ap (λ x. b ∷ x) q, refl, (rw f e, w))
]

coalesce-IsCoalesced : (bs : List Block) → IsCoalesced (coalesce bs)
unfolding coalesce
coalesce-IsCoalesced [] = _
coalesce-IsCoalesced (b ∷ bs) = let (d, ds, q, f, w) = coalesce_from-Joined b bs in rw q w

-- On a heap whose headers stand for a list of blocks, kfree of the address behind the header of a
-- block in use leaves headers that stand for a list of blocks in which no two neighbours are both
-- free.
pub kfree-IsCoalesced :
    (storage a : ℕ) (h : Heap) (bs : List Block)
    → IsHeap storage h bs
    → InUse a storage bs
    → (h' : Heap) × (bs' : List Block) × (kfree (a + 16) h ≡ some h')
      × IsHeap storage h' bs'
      × IsCoalesced bs'
kfree-IsCoalesced storage a h bs v u =
    let done = kfree_lem storage a h bs v u in
    (
      done.heap,
      coalesce (release (a + 16) storage bs),
      done.ends,
      done.holds,
      coalesce-IsCoalesced (release (a + 16) storage bs),
    )

-- A size of 2^32 - 3 up to 2^32 - 1 rounds up to 0, so kmalloc of it on a fresh heap at
-- address 16 or above that ends below 2^32 does not return NULL: it returns a block of no bytes, and
-- the headers stand for that block and the rest.
pub kmalloc_wraps :
    (storage size : ℕ) (h : Heap)
    → 16 ≤ storage
    → storage + heap_size < 2 ^ 32
    → 2 ^ 32 - 3 ≤ size
    → size < 2 ^ 32
    → (h' : Heap) × (kmalloc size (init storage h) ≡ some (storage + 16, h'))
      × IsHeap storage h'
          (record { size = 0; free = false } ∷ record { size = 262112; free = true } ∷ [])
unfolding allocate
kmalloc_wraps storage size h low top big small =
    let blocks : List Block = record { size = 262128; free = true } ∷ [] in
    let r : round_up size ≡ 0 = omega arith in
    let v = kmem_init-IsHeap storage h low top in
    let done : AllocDone (storage + heap_size) storage (init storage h).head (init storage h)
        (kmalloc size (init storage h)) (allocate 0 storage blocks) =
      subst
        (λ x.
          AllocDone (storage + heap_size) storage (init storage h).head (init storage h)
            (kmalloc size (init storage h)) (allocate x storage blocks))
        r (kmalloc_lem storage size (init storage h) blocks v (omega arith)) in
    let (h', e, k, same, head) = done in (h', e, record { chain = rw head k; low = low; top = top })
