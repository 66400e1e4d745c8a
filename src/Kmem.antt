-- ===== src/Kmem.antt =====
-- kernel/kmem.c and kmem.h: the kernel heap, a first-fit list of blocks in a 256 KB array.
-- `Heap` holds heap_head and the block headers by their address; the data bytes that callers write
-- are not modelled. A pointer is an address, 0 is NULL, and all sums are those of uint32_t. The
-- loops follow `next` on fuel: `none` is a loop that has not ended. Each block takes at least its
-- 16-byte header, so 16385 rounds are enough for 262144 bytes (Kmem.Alloc, Kmem.Free).
pub mod Blocks
pub mod Chain
pub mod Alloc
pub mod Free
pub mod Cycle
mod Tests
use vesper_os.Prelude.{
  ℕ, zero, suc, ◌+◌, ◌-◌, ◌*◌, ◌/◌, ◌%◌, ◌^◌, ◌<◌, Bool, true, false, ◌&&◌, ◌||◌, not, Option, none,
  some, ltb, leb, ◌==◌, if◌then◌else◌,
}

abbrev pub heap_size : ℕ
heap_size = 262144

abbrev pub heap_magic : ℕ
heap_magic = 0xDEAD1337

-- sizeof(block_header_t).
abbrev pub header_size : ℕ
header_size = 16

-- `block_header_t`.
pub record Header : Type 0 where
  pub size : ℕ
  pub free : ℕ
  pub magic : ℕ
  pub next : ℕ

pub record Heap : Type 0 where
  pub head : ℕ
  pub at : ℕ → Header

abbrev pub is_free : Header → Bool
is_free b = not (b.free == 0)

abbrev pub put : ℕ → Header → Heap → Heap
put a b h = record h { at = λ x. if x == a then b else h.at x }

-- `storage` is the address of heap_storage.
pub init : ℕ → Heap → Heap
init storage h =
    put storage (record { size = heap_size - header_size; free = 1; magic = heap_magic; next = 0 })
      (record h { head = storage })

-- (size + 3) & ~3
abbrev pub round_up : ℕ → ℕ
round_up size = (size + 3) % 2 ^ 32 / 4 * 4

-- The body of the loop of kmalloc for a block that is large enough: the split, and the marking.
pub take_block : ℕ → ℕ → Heap → ℕ × Heap
take_block size curr h =
    let b = h.at curr in
    let split = (curr + header_size + size) % 2 ^ 32 in
    let rest : Header = record {
      size = (b.size + 2 ^ 32 - size - header_size) % 2 ^ 32;
      free = 1;
      magic = heap_magic;
      next = b.next;
    } in
    let roomy = leb ((size + header_size + 4) % 2 ^ 32) b.size in
    let h' =
      if roomy then put curr (record b { size = size; next = split }) (put split rest h) else h in
    ((curr + header_size) % 2 ^ 32, put curr (record (h'.at curr) { free = 0 }) h')

pub alloc_loop : ℕ → ℕ → ℕ → Heap → Option (ℕ × Heap)
alloc_loop zero size curr h = none
alloc_loop (suc n) size curr h =
    let rest = alloc_loop n size (h.at curr).next h in
    if curr == 0
    then some (0, h)
    else if is_free (h.at curr) && leb size (h.at curr).size
    then some (take_block size curr h)
    else rest

abbrev pub rounds : ℕ
rounds = 16385

pub kmalloc : ℕ → Heap → Option (ℕ × Heap)
kmalloc size h = if size == 0 then some (0, h) else alloc_loop rounds (round_up size) h.head h

-- The joined header of two free neighbours.
abbrev pub absorb : Header → Header → Header
absorb b c = record b { size = (b.size + (header_size + c.size)) % 2 ^ 32; next = c.next }

pub coalesce_loop : ℕ → ℕ → Heap → Option Heap
coalesce_loop zero curr h = none
coalesce_loop (suc n) curr h =
    let b = h.at curr in
    let c = h.at b.next in
    let merge = is_free b && is_free c in
    let rest =
      coalesce_loop n (if merge then curr else b.next)
        (if merge then put curr (absorb b c) h else h) in
    if curr == 0 then some h else if b.next == 0 then some h else rest

-- For the pointers that kmalloc gives out: the header of any other address is one of its own here,
-- which in memory may lie over another.
pub kfree : ℕ → Heap → Option Heap
kfree ptr h =
    let block = (ptr + 2 ^ 32 - header_size) % 2 ^ 32 in
    let b = h.at block in
    let rest = coalesce_loop rounds h.head (put block (record b { free = 1 }) h) in
    if ptr == 0 then some h else if not (b.magic == heap_magic) || is_free b then some h else rest

-- kmem_info: the bytes in use and the free bytes from `curr` on.
pub info_loop : ℕ → ℕ → ℕ → ℕ → Heap → Option (ℕ × ℕ)
info_loop zero curr used free h = none
info_loop (suc n) curr used free h =
    let b = h.at curr in
    let rest =
      info_loop n b.next (if is_free b then used else (used + b.size) % 2 ^ 32)
        (if is_free b then (free + b.size) % 2 ^ 32 else free) h in
    if curr == 0 then some (used, free) else rest

-- used, free and total.
pub kmem_info : Heap → Option (ℕ × ℕ × ℕ)
kmem_info h = elim (info_loop rounds h.head 0 0 h) [
  | none ↦ none
  | some (used, free) ↦ some (used, free, heap_size)
]
