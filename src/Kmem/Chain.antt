-- ===== src/Kmem/Chain.antt =====
-- How the headers of kernel/kmem.c in memory stand for a list of blocks.
use vesper_os.Prelude.{ℕ, ◌+◌, ◌≤◌, ◌≡◌, ap, ◌∙◌, List, [], ◌∷◌, arith}
use vesper_os.Kmem.{Heap, is_free, heap_magic}
use vesper_os.Kmem.Blocks.{Block, extent}

-- From the pointer `ptr` on, the headers are those of the blocks, each where the one before it
-- ends, the first at `pos`; the last block ends at `stop`.
abbrev pub Chain : Heap → ℕ → ℕ → ℕ → List Block → Type 0
Chain h stop pos ptr [] = (ptr ≡ 0) × (pos ≡ stop)
Chain h stop pos ptr (b ∷ bs) =
    (ptr ≡ pos)
    × ((h.at pos).size ≡ b.size)
    × (is_free (h.at pos) ≡ b.free)
    × ((h.at pos).magic ≡ heap_magic)
    × Chain h stop (pos + 16 + b.size) (h.at pos).next bs

-- The whole range lies before `stop`.
pub Chain-extent :
    (h : Heap) (stop pos ptr : ℕ) (bs : List Block)
    → Chain h stop pos ptr bs
    → pos + extent bs ≡ stop
unfolding extent
Chain-extent h stop pos ptr [] c = omega (arith, c.1)
Chain-extent h stop pos ptr (b ∷ bs) c =
    omega (arith, Chain-extent h stop (pos + 16 + b.size) (h.at pos).next bs c.4)

-- Headers below the range do not matter.
pub Chain-frame :
    (h h' : Heap) (stop pos ptr : ℕ) (bs : List Block)
    → ((a : ℕ) → pos ≤ a → h'.at a ≡ h.at a)
    → Chain h stop pos ptr bs
    → Chain h' stop pos ptr bs
Chain-frame h h' stop pos ptr [] same c = c
Chain-frame h h' stop pos ptr (b ∷ bs) same c =
    let e = same pos (omega arith) in
    (
      c.0,
      ap (λ x. x.size) e ∙ c.1,
      ap (λ x. is_free x) e ∙ c.2,
      ap (λ x. x.magic) e ∙ c.3,
      rw (ap (λ x. x.next) e) (
          Chain-frame h h' stop (pos + 16 + b.size) (h.at pos).next bs (λ a l. same a (omega arith))
            c.4),
    )
