-- ===== src/Elf/User.antt =====
-- elf_load_user of kernel/elf.c: the segments are loaded into frames that a user's page directory maps.
-- A frame's byte is part of the aligned word that Paging.Machine holds.
use vesper_os.Prelude.{
  ℕ, zero, suc, ◌+◌, ◌-◌, ◌*◌, ◌/◌, ◌%◌, ◌^◌, Bool, true, false, ◌&&◌, ◌||◌, not, ltb, leb, ◌==◌,
  if◌then◌else◌,
}
use vesper_os.Paging
use vesper_os.Paging.{Machine, alloc_user_pages, phys_of_virt}
use vesper_os.Elf.{Image, Segment, header, segment, accepts, pt_load}

-- A word with its byte number `k` replaced.
abbrev pub with_byte : ℕ → ℕ → ℕ → ℕ
with_byte k v w = w / 2 ^ (8 * (k + 1)) * 2 ^ (8 * (k + 1)) + v * 2 ^ (8 * k) + w % 2 ^ (8 * k)

pub store_byte : ℕ → ℕ → Machine → Machine
store_byte a v m =
    let at = a / 4 * 4 in
    record (Paging.touch a m) { mem = Paging.store at (with_byte (a % 4) v (m.mem at)) m.mem }

pub clear_bytes : ℕ → ℕ → Machine → Machine
unfolding store_byte
clear_bytes zero dst m = m
clear_bytes (suc n) dst m = clear_bytes n (dst + 1) (store_byte dst 0 m)

pub copy_bytes : ℕ → ℕ → ℕ → Image → Machine → Machine
unfolding store_byte
copy_bytes zero dst src image m = m
copy_bytes (suc n) dst src image m =
    copy_bytes n (dst + 1) (src + 1) image (store_byte dst (image (src % 2 ^ 32)) m)

-- The part of a page at `virt` that the file's data covers is copied to its frame.
pub fill_page : Segment → ℕ → ℕ → Image → Machine → Machine
unfolding clear_bytes copy_bytes
fill_page s virt phys image m =
    let cleared = clear_bytes 4096 phys m in
    let file_end = (s.vaddr + s.filesz) % 2 ^ 32 in
    let pg_end = (virt + 4096) % 2 ^ 32 in
    let from = if ltb s.vaddr virt then virt else s.vaddr in
    let to = if ltb pg_end file_end then pg_end else file_end in
    let src = (s.offset + (from + 2 ^ 32 - s.vaddr)) % 2 ^ 32 in
    let size = (to + 2 ^ 32 - from) % 2 ^ 32 in
    if leb file_end virt || leb pg_end s.vaddr
    then cleared
    else copy_bytes size (phys + (from - virt)) src image cleared

-- The loop over the pages of a segment, with `n` left from page `pg`; false is the return of 0.
pub fill_pages : ℕ → ℕ → Segment → ℕ → ℕ → Image → Machine → Bool × Machine
unfolding fill_page
fill_pages zero pg s pd start image m = (true, m)
fill_pages (suc n) pg s pd start image m =
    let virt = (start + pg * 4096) % 2 ^ 32 in
    let phys = phys_of_virt pd virt m in
    let rest = fill_pages n (pg + 1) s pd start image (fill_page s virt phys image m) in
    if phys == 0 then (false, m) else rest

pub load_pages : Segment → ℕ → Image → Machine → Bool × Machine
unfolding fill_pages
load_pages s pd image m =
    let start = Paging.frame_of s.vaddr in
    let stop = Paging.frame_of ((s.vaddr + s.memsz + 4095) % 2 ^ 32) in
    let n = (stop + 2 ^ 32 - start) % 2 ^ 32 / 4096 in
    let (done, m1) = alloc_user_pages pd start n 0 m in
    let filled = fill_pages n 0 s pd start image m1 in if done then filled else (false, m1)

pub user_loop : ℕ → ℕ → Image → ℕ → ℕ → Machine → Bool × Machine
unfolding segment load_pages
user_loop zero i image len pd m = (true, m)
user_loop (suc n) i image len pd m =
    let s = segment image i in
    let (done, m1) = load_pages s pd image m in
    let loaded = user_loop n (i + 1) image len pd m1 in
    let passed = user_loop n (i + 1) image len pd m in
    if not (s.kind == pt_load) || s.memsz == 0
    then passed
    else if ltb len ((s.offset + s.filesz) % 2 ^ 32)
    then (false, m)
    else if done
    then loaded
    else (false, m1)

-- elf_load_user: the entry point or 0, and the machine.
pub load_user : Image → ℕ → ℕ → Machine → ℕ × Machine
unfolding header accepts user_loop
load_user image len pd m =
    let h = header image in
    let (done, m') = user_loop h.phnum 0 image len pd m in
    if accepts image len && not (pd == 0) then (if done then h.start else 0, m') else (0, m)
