-- ===== src/Paging.antt =====
-- kernel/paging.c and paging.h: page directories and page tables in physical memory. `Machine`
-- holds what the code changes: memory as 32-bit words by their physical address (all its accesses
-- are to aligned words), CR3, the paging bit of CR0, the frame allocator, and whether an access by
-- a physical address has faulted since it is not mapped, after which the rest means nothing.
-- Loading a new CR3 or flushing a TLB entry changes no other state here. `x & ~0xFFF` of a 32-bit
-- word is `frame_of x`, and `x | 3`, `x | 7` are `x / 4 * 4 + 3`, `x / 8 * 8 + 7`.
pub mod Translate
pub mod Pages
mod Tests
use vesper_os.Prelude.{
  ℕ, zero, suc, ◌+◌, ◌*◌, ◌/◌, ◌%◌, ◌^◌, Bool, true, false, ◌&&◌, ◌||◌, leb, ◌==◌, if◌then◌else◌,
}
use vesper_os.Pmm
use vesper_os.Pmm.{Pmm}

pub record Machine : Type 0 where
  pub mem : ℕ → ℕ
  pub cr3 : ℕ
  pub paging_on : Bool
  pub pmm : Pmm
  pub faulted : Bool

-- Where the linker puts the two static arrays.
pub record Layout : Type 0 where
  pub page_directory : ℕ
  pub page_tables : ℕ

unfoldable pub store : ℕ → ℕ → (ℕ → ℕ) → ℕ → ℕ
store a v mem b = if b == a then v else mem b

-- The kernel reaches physical memory at its own address, and paging maps so the first 8 MB only.
abbrev pub outside : ℕ → Machine → Bool
outside a m = m.paging_on && leb 0x800000 a

abbrev pub touch : ℕ → Machine → Machine
touch a m = record m { faulted = m.faulted || outside a m }

abbrev write : ℕ → ℕ → Machine → Machine
write a v m = record (touch a m) { mem = store a v m.mem }

-- memset(p, 0, 4 * n) over words.
pub clear_words : ℕ → ℕ → (ℕ → ℕ) → ℕ → ℕ
clear_words zero a mem = mem
clear_words (suc n) a mem = clear_words n (a + 4) (store a 0 mem)

abbrev clear_page : ℕ → Machine → Machine
clear_page a m = record (touch a m) { mem = clear_words 1024 a m.mem }

abbrev pub present : ℕ → Bool
present entry = entry % 2 == 1

abbrev pub frame_of : ℕ → ℕ
frame_of x = x / 4096 * 4096

-- The indices of a virtual address, and the address of an entry of a table.
abbrev pub pdi : ℕ → ℕ
pdi virt = virt / 2 ^ 22

abbrev pub pti : ℕ → ℕ
pti virt = virt / 2 ^ 12 % 1024

abbrev pub entry : ℕ → ℕ → ℕ
entry table i = table + 4 * i

identity_entries : ℕ → ℕ → ℕ → ℕ → (ℕ → ℕ) → ℕ → ℕ
identity_entries zero t i table mem = mem
identity_entries (suc n) t i table mem =
    let phys = t * 4194304 + i * 4096 in
    identity_entries n t (i + 1) table (store (entry table i) (phys / 4 * 4 + 3) mem)

identity_tables : ℕ → ℕ → Layout → (ℕ → ℕ) → ℕ → ℕ
identity_tables zero t l mem = mem
identity_tables (suc n) t l mem =
    let table = l.page_tables + 4096 * t in
    identity_tables n (t + 1) l
      (store (entry l.page_directory t) (table / 4 * 4 + 3) (identity_entries 1024 t 0 table mem))

-- paging_init, up to the load of CR3 and CR0.
pub init : Layout → Machine → Machine
init l m = record m {
  mem = identity_tables 2 0 l (clear_words 1024 l.page_directory m.mem);
  cr3 = l.page_directory;
  paging_on = true;
}

-- paging_map_page, in the kernel's directory.
pub map_page : Layout → ℕ → ℕ → ℕ → Machine → Machine
map_page l virt phys flags m =
    let pde = m.mem (entry l.page_directory (pdi virt)) in
    let pte = frame_of phys + flags % 4096 / 2 * 2 + 1 in
    if present pde then write (entry (frame_of pde) (pti virt)) pte m else m

pub switch : ℕ → Machine → Machine
switch pd m = record m { cr3 = pd }

-- paging_create_pd: the new directory's address, or 0.
pub create_pd : Layout → Machine → ℕ × Machine
create_pd l m =
    let (pd, pmm') = Pmm.alloc_frame m.pmm in
    let m' = record m { pmm = pmm' } in
    let m0 = clear_page pd m' in
    let m1 = write (entry pd 0) (m0.mem (entry l.page_directory 0)) m0 in
    let m2 = write (entry pd 1) (m1.mem (entry l.page_directory 1)) m1 in
    if pd == 0 then (0, m') else (pd, m2)

-- The part of a round of paging_alloc_user_pages that sees to the page table; false is failure.
unfoldable pub ensure_table : ℕ → ℕ → Machine → Bool × Machine
ensure_table pd virt m =
    let (pt, pmm') = Pmm.alloc_frame m.pmm in
    let m' = record m { pmm = pmm' } in
    let cleared = clear_page pt m' in
    let linked = write (entry pd (pdi virt)) (pt / 8 * 8 + 7) cleared in
    if present (m.mem (entry pd (pdi virt)))
    then (true, m)
    else if pt == 0
    then (false, m')
    else (true, linked)

-- The rest of the round: a frame for the page, and its entry.
unfoldable pub map_frame : ℕ → ℕ → Machine → Bool × Machine
map_frame pd virt m =
    let (frame, pmm') = Pmm.alloc_frame m.pmm in
    let m' = record m { pmm = pmm' } in
    let pt = frame_of (m'.mem (entry pd (pdi virt))) in
    if frame == 0 then (false, m') else (true, write (entry pt (pti virt)) (frame / 8 * 8 + 7) m')

unfoldable pub alloc_user_page : ℕ → ℕ → Machine → Bool × Machine
alloc_user_page pd virt m =
    let (linked, m') = ensure_table pd virt (touch pd m) in
    if linked then map_frame pd virt m' else (false, m')

-- paging_alloc_user_pages with `n` pages left from page `i`; addresses are uint32_t.
pub alloc_user_pages : ℕ → ℕ → ℕ → ℕ → Machine → Bool × Machine
alloc_user_pages pd base zero i m = (true, m)
alloc_user_pages pd base (suc n) i m =
    let (done, m') = alloc_user_page pd ((base + i * 4096) % 2 ^ 32) m in
    let rest = alloc_user_pages pd base n (i + 1) m' in if done then rest else (false, m')

free_present : ℕ → Machine → Machine
free_present e m = if present e then record m { pmm = Pmm.free_frame (frame_of e) m.pmm } else m

-- The inner loop of paging_destroy_pd over the entries of one table.
free_entries : ℕ → ℕ → ℕ → Machine → Machine
free_entries zero pt j m = m
free_entries (suc n) pt j m = free_entries n pt (j + 1) (free_present (m.mem (entry pt j)) m)

free_table : ℕ → Machine → Machine
free_table pde m =
    let pt = frame_of pde in
    let m' = free_entries 1024 pt 0 (touch pt m) in
    if present pde then record m' { pmm = Pmm.free_frame pt m'.pmm } else m

free_tables : ℕ → ℕ → ℕ → Machine → Machine
free_tables zero pd i m = m
free_tables (suc n) pd i m = free_tables n pd (i + 1) (free_table (m.mem (entry pd i)) m)

pub destroy_pd : ℕ → Machine → Machine
destroy_pd pd m =
    let m' = free_tables 1022 pd 2 (touch pd m) in record m' { pmm = Pmm.free_frame pd m'.pmm }

-- phys_of_virt of kernel/elf.c: the frame that a directory maps a page to, or 0.
unfoldable pub phys_of_virt : ℕ → ℕ → Machine → ℕ
phys_of_virt pd virt m =
    let pde = m.mem (entry pd (pdi virt)) in
    let pte = m.mem (entry (frame_of pde) (pti virt)) in
    if present pde then if present pte then frame_of pte else 0 else 0
