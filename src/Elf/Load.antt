-- ===== src/Elf/Load.antt =====
-- What memory holds after elf_load of kernel/elf.c.
use std.Path.{fun_ext}
use vesper_os.Prelude.{
  ℕ, zero, suc, ◌+◌, ◌-◌, ◌%◌, ◌^◌, ◌<◌, ◌≤◌, ◌≡◌, refl, ◌∙◌, inl, inr, Bool, true, false, not,
  ◌&&◌, ◌||◌, ltb, leb, ◌==◌, if◌then◌else◌, Bool-cases, &&-split, arith,
}
use vesper_os.Elf.{
  Image, Segment, Memory, header, segment, accepts, store, copy_in, clear, load_segment, skipped,
  load_loop, load,
}

-- A segment over a memory, by addresses: the file's bytes, then zeros up to its size in memory. A
-- segment without bytes in the file leaves memory as it is.
pub overlay : Segment → Image → Memory → Memory
overlay s image mem a =
    if not (s.kind == 1) || s.filesz == 0
    then mem a
    else if leb s.vaddr a && ltb a (s.vaddr + s.filesz)
    then image (s.offset + (a - s.vaddr))
    else if leb s.vaddr a && ltb a (s.vaddr + s.memsz)
    then 0
    else mem a

-- The segments of `n` program headers from number `i` on, a later one over an earlier.
pub overlays : ℕ → ℕ → Image → Memory → Memory
unfolding segment overlay
overlays zero i image mem = mem
overlays (suc n) i image mem = overlays n (i + 1) image (overlay (segment image i) image mem)

-- A segment that lies in the file of `len` bytes and in the address space.
pub fits : ℕ → Segment → Bool
fits len s =
    (not (s.kind == 1) || s.filesz == 0)
    || (leb (s.offset + s.filesz) len
        && leb (s.vaddr + s.filesz) (2 ^ 32)
        && leb (s.vaddr + s.memsz) (2 ^ 32))

unfoldable pub all_fit : ℕ → ℕ → Image → ℕ → Bool
unfolding segment fits
all_fit zero i image len = true
all_fit (suc n) i image len = fits len (segment image i) && all_fit n (i + 1) image len

copy_in_lem :
    (n dst src : ℕ) (image : Image) (mem : Memory) (a : ℕ)
    → dst + n ≤ 2 ^ 32
    → src + n ≤ 2 ^ 32
    → copy_in n dst src image mem a
      ≡ (if leb dst a && ltb a (dst + n) then image (src + (a - dst)) else mem a)
unfolding copy_in store
copy_in_lem zero dst src image mem a d s = ground arith
copy_in_lem (suc n) dst src image mem a d s =
    let wd : dst % 2 ^ 32 ≡ dst = omega arith in
    let ws : src % 2 ^ 32 ≡ src = omega arith in
    rw (wd, ws)
      (copy_in_lem n (dst + 1) (src + 1) image (store dst (image src) mem) a (omega arith)
          (omega arith)
        ∙ elim (Bool-cases (a == dst)) [
          | inl e ↦
              let at : src + (a - dst) ≡ src = ground arith in
              let below : (leb (dst + 1) a && ltb a (dst + 1 + n)) ≡ false = ground arith in
              let inside : (leb dst a && ltb a (dst + suc n)) ≡ true = ground arith in
              rw (below, inside, e, at) refl
          | inr e ↦ elim (Bool-cases (leb (dst + 1) a && ltb a (dst + 1 + n))) [
            | inl f ↦
                let at : src + 1 + (a - (dst + 1)) ≡ src + (a - dst) = ground arith in
                let inside : (leb dst a && ltb a (dst + suc n)) ≡ true = ground arith in
                rw (f, inside, at) refl
            | inr f ↦
                let outside : (leb dst a && ltb a (dst + suc n)) ≡ false = ground arith in
                rw (f, outside, e) refl
          ]
        ])

clear_lem :
    (n dst : ℕ) (mem : Memory) (a : ℕ)
    → dst + n ≤ 2 ^ 32
    → clear n dst mem a ≡ (if leb dst a && ltb a (dst + n) then 0 else mem a)
unfolding clear store
clear_lem zero dst mem a d = ground arith
clear_lem (suc n) dst mem a d =
    let wd : dst % 2 ^ 32 ≡ dst = omega arith in
    rw wd (clear_lem n (dst + 1) (store dst 0 mem) a (omega arith) ∙ ground arith)

load_segment_lem :
    (s : Segment) (image : Image) (len : ℕ) (mem : Memory) (a : ℕ)
    → len < 2 ^ 32
    → skipped s ≡ false
    → s.offset + s.filesz ≤ len
    → s.vaddr + s.filesz ≤ 2 ^ 32
    → s.vaddr + s.memsz ≤ 2 ^ 32
    → load_segment s image mem a ≡ overlay s image mem a
unfolding load_segment overlay skipped
load_segment_lem s image len mem a l k f v m =
    let copied = copy_in_lem s.filesz s.vaddr s.offset image mem a v (omega arith) in
    rw k (elim (Bool-cases (ltb s.filesz s.memsz)) [
      | inl e ↦ rw e (
          clear_lem (s.memsz - s.filesz) (s.vaddr + s.filesz)
            (copy_in s.filesz s.vaddr s.offset image mem) a (ground arith)
          ∙ ground (arith, copied))
      | inr e ↦ rw e (copied ∙ ground arith)
    ])

fits_lem :
    (len : ℕ) (s : Segment)
    → fits len s ≡ true
    → skipped s ≡ false
    → (s.offset + s.filesz ≤ len) × (s.vaddr + s.filesz ≤ 2 ^ 32) × (s.vaddr + s.memsz ≤ 2 ^ 32)
unfolding fits skipped
fits_lem len s f k =
    let inside : (leb (s.offset + s.filesz) len
          && leb (s.vaddr + s.filesz) (2 ^ 32)
          && leb (s.vaddr + s.memsz) (2 ^ 32))
        ≡ true =
      rw k at f in
    (ground arith, ground arith, ground arith)

load_loop_lem :
    (n i : ℕ) (image : Image) (len : ℕ) (mem : Memory)
    → len < 2 ^ 32
    → all_fit n i image len ≡ true
    → load_loop n i image len mem ≡ (true, overlays n i image mem)
unfolding load_loop all_fit overlays overlay skipped
load_loop_lem zero i image len mem l f = refl
load_loop_lem (suc n) i image len mem l f =
    let s = segment image i in
    let (here, later) = &&-split _ _ f in
    elim (Bool-cases (skipped s)) [
      | inl k ↦
          let passed : overlay s image mem ≡ mem = fun_ext (λ a. rw (k, overlay) refl) in
          rw k (rw passed (load_loop_lem n (i + 1) image len mem l later))
      | inr k ↦
          let (file, start, size) = fits_lem len s here k in
          let in_file : ltb len ((s.offset + s.filesz) % 2 ^ 32) ≡ false = ground arith in
          let same : load_segment s image mem ≡ overlay s image mem =
            fun_ext (λ a. load_segment_lem s image len mem a l k file start size) in
          rw (k, in_file)
            (rw same (load_loop_lem n (i + 1) image len (overlay s image mem) l later))
    ]

-- For an image of less than 2^32 bytes that elf_load accepts, and whose loadable segments lie in the
-- file and in the address space, elf_load returns the entry point of the header, and each byte of
-- memory then is that of the last segment that covers it, of those that are loadable and have bytes
-- in the file: the file's byte, and a zero behind the file's part. A loadable segment without bytes
-- in the file is passed over, and its memory is not cleared; a byte that no other segment covers is
-- what it was.
pub load_lem :
    (image : Image) (len : ℕ) (mem : Memory)
    → len < 2 ^ 32
    → accepts image len ≡ true
    → all_fit (header image).phnum 0 image len ≡ true
    → load image len mem ≡ ((header image).start, overlays (header image).phnum 0 image mem)
unfolding load
load_lem image len mem l acc f =
    rw acc (rw (load_loop_lem (header image).phnum 0 image len mem l f) refl)
