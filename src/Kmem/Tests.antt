-- ===== src/Kmem/Tests.antt =====
-- The theorems on kernel/kmem.c at concrete heaps, with heap_storage at address 4096.
use vesper_os.Prelude.{inl, ◌+◌, ◌-◌, ◌^◌, ◌≡◌, refl, true, false, some, List, [], ◌∷◌, arith}
use vesper_os.Kmem.{
  Heap, heap_magic, heap_size, put, init, round_up, kmalloc, kfree, info_loop, kmem_info,
}
use vesper_os.Kmem.Blocks.{Block, allocate, coalesce, release, IsCoalesced}
use vesper_os.Kmem.Alloc.{IsHeap, AllocDone, kmalloc_lem}
use vesper_os.Kmem.Free.{Freed, kfree_lem}
use vesper_os.Kmem.Cycle.{kmem_init-IsHeap, kfree-IsCoalesced, kmalloc_wraps}

abbrev blank : Heap
blank = record { head = 0; at = λ x. record { size = 0; free = 0; magic = 0; next = 0 } }

abbrev fresh : Heap
fresh = init 4096 blank

-- One block, in use, then a free one.
abbrev busy : Heap
busy =
    put 4096 (record { size = 100; free = 0; magic = heap_magic; next = 4212 })
      (put 4212 (record { size = 262012; free = 1; magic = heap_magic; next = 0 })
        (record blank { head = 4096 }))

abbrev busy_blocks : List Block
busy_blocks = record { size = 100; free = false } ∷ record { size = 262012; free = true } ∷ []

abbrev fresh_blocks : List Block
fresh_blocks = record { size = 262128; free = true } ∷ []

busy-IsHeap : IsHeap 4096 busy busy_blocks
busy-IsHeap = record {
  chain = (refl, refl, refl, refl, (refl, refl, refl, refl, (refl, refl)));
  low = omega arith;
  top = omega arith;
}

fresh-IsHeap : IsHeap 4096 fresh fresh_blocks
fresh-IsHeap = kmem_init-IsHeap 4096 blank (omega arith) (omega arith)

kmalloc_lem_example :
    AllocDone
      (4096 + heap_size)
      4096
      fresh.head
      fresh
      (kmalloc 100 fresh)
      (allocate (round_up 100) 4096 fresh_blocks)
kmalloc_lem_example = kmalloc_lem 4096 100 fresh fresh_blocks fresh-IsHeap (omega arith)

kfree_lem_example :
    Freed 4096 busy (coalesce (release (4096 + 16) 4096 busy_blocks)) (kfree (4096 + 16) busy)
kfree_lem_example = kfree_lem 4096 4096 busy busy_blocks busy-IsHeap (inl (refl, refl))

kfree-IsCoalesced_example :
    (h' : Heap) × (bs' : List Block) × (kfree (4096 + 16) busy ≡ some h')
    × IsHeap 4096 h' bs'
    × IsCoalesced bs'
kfree-IsCoalesced_example =
    kfree-IsCoalesced 4096 4096 busy busy_blocks busy-IsHeap (inl (refl, refl))

kmalloc_wraps_example :
    (h' : Heap) × (kmalloc (2 ^ 32 - 1) (init 4096 blank) ≡ some (4096 + 16, h'))
    × IsHeap 4096 h'
        (record { size = 0; free = false } ∷ record { size = 262112; free = true } ∷ [])
kmalloc_wraps_example =
    kmalloc_wraps 4096 (2 ^ 32 - 1) blank (omega arith) (omega arith) (omega arith) (omega arith)

-- kmem_info of the heap with one block in use: used, free and total.
busy_info : kmem_info busy ≡ some (100, 262012, 262144)
unfolding kmem_info info_loop
busy_info = refl
