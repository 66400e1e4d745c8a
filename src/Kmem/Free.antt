-- ===== src/Kmem/Free.antt =====
-- kfree of kernel/kmem.c implements release and coalescing on the list of blocks.
use vesper_os.Prelude.{
  ℕ, zero, suc, ◌+◌, ◌-◌, ◌%◌, ◌^◌, ◌≤◌, ◌<◌, ◌≡◌, ◌≢◌, refl, ap, ◌∙◌, ◌⊎◌, inl, inr, true, false,
  not, ◌&&◌, ◌||◌, Option, some, List, [], ◌∷◌, length, ◌==◌, Bool-cases, &&-split, arith,
}
use vesper_os.Kmem.{
  Heap, is_free, heap_magic, header_size, heap_size, put, absorb, coalesce_loop, rounds, kfree,
}
use vesper_os.Kmem.Blocks.{Block, InUse, coalesce_from, coalesce, release}
use vesper_os.Kmem.Chain.{Chain, Chain-extent, Chain-frame}
use vesper_os.Kmem.Alloc.{IsHeap, enough_rounds}

-- What the merging loop makes of the blocks from `pos` on.
abbrev Merged : ℕ → ℕ → Heap → Option Heap → List Block → Type 0
Merged stop pos h out bs =
    (h' : Heap) × (out ≡ some h')
    × Chain h' stop pos pos bs
    × ((a : ℕ) → a < pos → h'.at a ≡ h.at a)
    × (h'.head ≡ h.head)

-- Two free neighbours become one block.
module _ (h : Heap) (stop pos : ℕ) (b c : Block) (bs : List Block)
    (k : Chain h stop pos pos (b ∷ c ∷ bs)) (low : 16 ≤ pos) (top : stop < 2 ^ 32) where
  abbrev joined : Heap
  joined = put pos (absorb (h.at pos) (h.at (h.at pos).next)) h

  absorb-Chain :
      b.free ≡ true
      → Chain joined stop pos pos (record { size = b.size + 16 + c.size; free = true } ∷ bs)
  absorb-Chain f =
      let (tie, cs, cf, cm, rest) = k.4 in
      let e =
        Chain-extent h stop (pos + 16 + b.size + 16 + c.size) (h.at (pos + 16 + b.size)).next bs
          rest in
      let self : (pos == pos) ≡ true = ground arith in
      let far : pos + 16 + (b.size + 16 + c.size) ≡ pos + 16 + b.size + 16 + c.size = omega arith in
      let size : ((h.at pos).size + (header_size + (h.at (h.at pos).next).size)) % 2 ^ 32
          ≡ b.size + 16 + c.size =
        rw tie (omega (arith, k.1, cs, e)) in
      (
        refl,
        rw self size,
        rw self (k.2 ∙ f),
        rw self k.3,
        rw self (
            rw (far, tie)
              (Chain-frame h joined stop (pos + 16 + b.size + 16 + c.size)
                (h.at (pos + 16 + b.size)).next bs (λ a l. ground arith) rest)),
      )

Merged-step :
    (h : Heap) (stop pos : ℕ) (b c : Block) (bs : List Block)
    (k : Chain h stop pos pos (b ∷ c ∷ bs)) (low : 16 ≤ pos) (top : stop < 2 ^ 32)
    (out : Option Heap) (bs' : List Block)
    → Merged stop pos (joined h stop pos b c bs k low top) out bs'
    → Merged stop pos h out bs'
Merged-step h stop pos b c bs k low top out bs' (h', e, k', same, head) =
    (h', e, k', (λ a l. same a l ∙ ground arith), head)

pass_step :
    (h : Heap) (stop pos : ℕ) (b c : Block) (bs : List Block)
    (k : Chain h stop pos pos (b ∷ c ∷ bs)) (out : Option Heap) (bs' : List Block)
    → Merged stop (pos + 16 + b.size) h out bs'
    → Merged stop pos h out (b ∷ bs')
pass_step h stop pos b c bs k out bs' (h', e, k', same, head) =
    let here = same pos (omega arith) in
    (
      h',
      e,
      (
        refl,
        ap (λ x. x.size) here ∙ k.1,
        ap (λ x. is_free x) here ∙ k.2,
        ap (λ x. x.magic) here ∙ k.3,
        rw (ap (λ x. x.next) here) (rw k.4.0 k'),
      ),
      (λ a l. same a (omega arith)),
      head,
    )

coalesce_loop_lem :
    (n : ℕ) (h : Heap) (stop pos : ℕ) (b : Block) (bs : List Block)
    → Chain h stop pos pos (b ∷ bs)
    → suc (length bs) ≤ n
    → 16 ≤ pos
    → stop < 2 ^ 32
    → Merged stop pos h (coalesce_loop n pos h) (coalesce_from b bs)
unfolding coalesce_loop coalesce_from
coalesce_loop_lem zero h stop pos b bs k l low top = absurd (omega arith)
coalesce_loop_lem (suc n) h stop pos b [] k l low top =
    let nz : (pos == 0) ≡ false = ground arith in
    let z : ((h.at pos).next == 0) ≡ true = ground (arith, k.4.0) in
    rw (nz, z) (h, refl, k, (λ a l. refl), refl)
coalesce_loop_lem (suc n) h stop pos b (c ∷ bs) k l low top =
    let nz : (pos == 0) ≡ false = ground arith in
    let z : ((h.at pos).next == 0) ≡ false = ground (arith, k.4.0) in
    let flags : (is_free (h.at pos) && is_free (h.at (h.at pos).next)) ≡ (b.free && c.free) =
      rw k.4.0 (rw (k.2, k.4.2) refl) in
    let both = is_free (h.at pos) && is_free (h.at (h.at pos).next) in
    rw nz (
      rw z (
        rw flags (elim (Bool-cases (b.free && c.free)) [
          | inl e ↦
              let j = joined h stop pos b c bs k low top in
              let f = &&-split b.free c.free e in
              rw e (
                Merged-step h stop pos b c bs k low top _ _ (
                  coalesce_loop_lem n j stop pos
                    (record { size = b.size + 16 + c.size; free = true }) bs
                    (absorb-Chain h stop pos b c bs k low top f.0) (omega arith) low top))
          | inr e ↦ rw e (
              rw k.4.0 (
                pass_step h stop pos b c bs k _ _ (
                  coalesce_loop_lem n h stop (pos + 16 + b.size) c bs
                    (refl, k.4.1, k.4.2, k.4.3, k.4.4) (omega arith) (omega arith) top)))
        ])))

-- The block of the header at a position is marked free.
release_lem :
    (h : Heap) (stop pos ptr a : ℕ) (bs : List Block)
    → Chain h stop pos ptr bs
    → Chain (put a (record (h.at a) { free = 1 }) h) stop pos ptr (release (a + 16) pos bs)
unfolding release
release_lem h stop pos ptr a [] k = k
release_lem h stop pos ptr a (b ∷ bs) k = elim (Bool-cases (a + 16 == pos + 16)) [
  | inl e ↦
      let q : a ≡ pos = ground arith in
      let self : (pos == pos) ≡ true = ground arith in
      let self' : (pos + 16 == pos + 16) ≡ true = ground arith in
      rw q (
        rw self' (
          k.0,
          rw self k.1,
          rw self refl,
          rw self k.3,
          rw self (
              Chain-frame h (put pos (record (h.at pos) { free = 1 }) h) stop (pos + 16 + b.size)
                (h.at pos).next bs (λ x l. ground arith) k.4),
        ))
  | inr e ↦
      let other : (pos == a) ≡ false = ground arith in
      rw e (
        k.0,
        rw other k.1,
        rw other k.2,
        rw other k.3,
        rw other (release_lem h stop (pos + 16 + b.size) (h.at pos).next a bs k.4),
      )
]

-- What kfree leaves when it releases a block.
pub record Freed (storage : ℕ) (h : Heap) (bs : List Block) (out : Option Heap) : Type 0 where
  pub heap : Heap
  pub ends : out ≡ some heap
  pub holds : IsHeap storage heap bs
  pub head : heap.head ≡ h.head

coalesce_all :
    (storage : ℕ) (h : Heap) (bs : List Block)
    → IsHeap storage h bs
    → Freed storage h (coalesce bs) (coalesce_loop rounds h.head h)
unfolding coalesce
coalesce_all storage h [] v = absurd (omega (arith, v.chain.1))
coalesce_all storage h (b ∷ bs) v =
    let k = v.chain in
    let (h', e, k', same, head) =
      coalesce_loop_lem rounds h (storage + heap_size) storage b bs (refl, k.1, k.2, k.3, k.4)
        (omega (arith, enough_rounds v)) v.low v.top in
    record {
      heap = h';
      ends = ap (λ p. coalesce_loop rounds p h) k.0 ∙ e;
      holds = record { chain = rw (head ∙ k.0) k'; low = v.low; top = v.top };
      head = head;
    }

-- The header of a block in use passes the test of kfree.
InUse-header :
    (h : Heap) (stop pos ptr a : ℕ) (bs : List Block)
    → Chain h stop pos ptr bs
    → InUse a pos bs
    → ((h.at a).magic ≡ heap_magic) × ((h.at a).free ≡ 0) × (a + 16 ≤ stop)
InUse-header h stop pos ptr a [] k u = elim u [ ]
InUse-header h stop pos ptr a (b ∷ bs) k (inl (e, f)) =
    let x = Chain-extent h stop (pos + 16 + b.size) (h.at pos).next bs k.4 in
    rw e (k.3, ground (arith, k.2, f), omega (arith, x))
InUse-header h stop pos ptr a (b ∷ bs) k (inr u) =
    InUse-header h stop (pos + 16 + b.size) (h.at pos).next a bs k.4 u

-- On a heap whose headers stand for a list of blocks, kfree of the address behind the header of a
-- block in use ends: it marks that block free and joins every run of free blocks into one.
pub kfree_lem :
    (storage a : ℕ) (h : Heap) (bs : List Block)
    → IsHeap storage h bs
    → InUse a storage bs
    → Freed storage h (coalesce (release (a + 16) storage bs)) (kfree (a + 16) h)
unfolding kfree
kfree_lem storage a h bs v u =
    let (m, f, x) = InUse-header h (storage + heap_size) storage h.head a bs v.chain u in
    let q : (a + 16 + 2 ^ 32 - header_size) % 2 ^ 32 ≡ a = omega (arith, v.top, x) in
    let nz : (a + 16 == 0) ≡ false = ground arith in
    let t : (not ((h.at a).magic == heap_magic) || is_free (h.at a)) ≡ false =
      ground (arith, m, f) in
    let marked = put a (record (h.at a) { free = 1 }) h in
    let w : IsHeap storage marked (release (a + 16) storage bs) = record {
      chain = release_lem h (storage + heap_size) storage h.head a bs v.chain;
      low = v.low;
      top = v.top;
    } in
    let done = coalesce_all storage marked (release (a + 16) storage bs) w in
    rw (q, nz)
      (rw t (record { heap = done.heap; ends = done.ends; holds = done.holds; head = done.head }))

-- kfree of NULL, of a pointer without the magic number before it, and of a block that is free
-- already changes nothing.
pub kfree_ignores :
    (ptr : ℕ) (h : Heap)
    → let b = h.at ((ptr + 2 ^ 32 - header_size) % 2 ^ 32) in
      (ptr ≡ 0) ⊎ ((b.magic ≢ heap_magic) ⊎ (b.free ≢ 0)) → kfree ptr h ≡ some h
unfolding kfree
kfree_ignores ptr h (inl z) = let t : (ptr == 0) ≡ true = ground arith in rw t refl
kfree_ignores ptr h (inr o) = ground arith
