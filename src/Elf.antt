-- ===== src/Elf.antt =====
-- kernel/elf.c and elf.h: loading an ELF32 executable. The image is its bytes by their offset from
-- `data`, which is not NULL; an offset that the source computes in 32 bits wraps, and an offset
-- behind the image gives what memory holds there. elf_load writes to memory by bytes, elf_load_user
-- to the frames in the words of Paging.Machine. The image is taken not to lie where segments are
-- loaded.
pub mod User
pub mod Load
mod Tests
use vesper_os.Prelude.{
  ℕ, zero, suc, ◌+◌, ◌-◌, ◌*◌, ◌/◌, ◌%◌, ◌^◌, Bool, true, false, ◌&&◌, ◌||◌, not, Option, none,
  some, ltb, leb, ◌==◌, if◌then◌else◌,
}

abbrev pub Image : Type 0
Image = ℕ → ℕ

-- Little-endian fields at an offset.
abbrev pub half : Image → ℕ → ℕ
half image i = image i + image (i + 1) * 2 ^ 8

abbrev pub word : Image → ℕ → ℕ
word image i = image i + image (i + 1) * 2 ^ 8 + image (i + 2) * 2 ^ 16 + image (i + 3) * 2 ^ 24

-- The fields of `elf32_ehdr_t` that are used.
pub record Header : Type 0 where
  pub kind : ℕ
  pub machine : ℕ
  pub start : ℕ
  pub phoff : ℕ
  pub phentsize : ℕ
  pub phnum : ℕ

pub header : Image → Header
header image = record {
  kind = half image 16;
  machine = half image 18;
  start = word image 24;
  phoff = word image 28;
  phentsize = half image 42;
  phnum = half image 44;
}

abbrev pub header_size : ℕ
header_size = 52

abbrev pub phdr_size : ℕ
phdr_size = 32

-- The fields of `elf32_phdr_t` that are used.
pub record Segment : Type 0 where
  pub kind : ℕ
  pub offset : ℕ
  pub vaddr : ℕ
  pub filesz : ℕ
  pub memsz : ℕ

-- The program header that the loops read in round `i`.
pub segment : Image → ℕ → Segment
unfolding header
segment image i =
    let h = header image in
    let at = (h.phoff + i * h.phentsize) % 2 ^ 32 in
    record {
      kind = word image at;
      offset = word image (at + 4);
      vaddr = word image (at + 8);
      filesz = word image (at + 16);
      memsz = word image (at + 20);
    }

abbrev pub pt_load : ℕ
pt_load = 1

-- \x7F E L F, and the class, encoding, type and machine of an executable for the i386.
pub has_magic : Image → Bool
has_magic image = image 0 == 0x7F && image 1 == b'E' && image 2 == b'L' && image 3 == b'F'

pub is_i386 : Image → Bool
unfolding header
is_i386 image =
    let h = header image in image 4 == 1 && image 5 == 1 && h.kind == 2 && h.machine == 3

-- The tests before the loops, on a buffer of `len` bytes.
pub accepts : Image → ℕ → Bool
unfolding header has_magic is_i386
accepts image len =
    let h = header image in
    leb header_size len
    && has_magic image
    && is_i386 image
    && not (h.phoff == 0 || h.phnum == 0)
    && leb ((h.phoff + h.phnum * phdr_size) % 2 ^ 32) len

-- Memory by bytes.
abbrev pub Memory : Type 0
Memory = ℕ → ℕ

unfoldable pub store : ℕ → ℕ → Memory → Memory
store a v mem = λ b. if b == a then v else mem b

-- memcpy of `n` bytes from offset `src` of the image to address `dst`.
pub copy_in : ℕ → ℕ → ℕ → Image → Memory → Memory
copy_in zero dst src image mem = mem
copy_in (suc n) dst src image mem =
    copy_in n (dst + 1) (src + 1) image (store (dst % 2 ^ 32) (image (src % 2 ^ 32)) mem)

-- memset of `n` bytes to 0.
pub clear : ℕ → ℕ → Memory → Memory
clear zero dst mem = mem
clear (suc n) dst mem = clear n (dst + 1) (store (dst % 2 ^ 32) 0 mem)

-- The copy of a segment and the zeros behind it.
pub load_segment : Segment → Image → Memory → Memory
unfolding copy_in clear
load_segment s image mem =
    let copied = copy_in s.filesz s.vaddr s.offset image mem in
    if ltb s.filesz s.memsz then clear (s.memsz - s.filesz) (s.vaddr + s.filesz) copied else copied

-- `p_type != PT_LOAD`, or nothing to copy.
pub skipped : Segment → Bool
skipped s = not (s.kind == pt_load) || s.filesz == 0

-- The loop of elf_load with `n` rounds left from round `i`; false is the return of 0.
pub load_loop : ℕ → ℕ → Image → ℕ → Memory → Bool × Memory
unfolding segment skipped load_segment
load_loop zero i image len mem = (true, mem)
load_loop (suc n) i image len mem =
    let s = segment image i in
    let mem' = if skipped s then mem else load_segment s image mem in
    let rest = load_loop n (i + 1) image len mem' in
    if not (skipped s) && ltb len ((s.offset + s.filesz) % 2 ^ 32) then (false, mem) else rest

-- Whether the stores of the loop meet a test of a number of bytes and an address.
unfoldable pub hits : (ℕ → ℕ → Bool) → ℕ → ℕ → Image → ℕ → Bool
unfolding segment skipped
hits meets zero i image len = false
hits meets (suc n) i image len =
    let s = segment image i in
    let rest = hits meets n (i + 1) image len in
    let here = meets s.filesz s.vaddr || meets (s.memsz - s.filesz) (s.vaddr + s.filesz) in
    if skipped s
    then rest
    else if ltb len ((s.offset + s.filesz) % 2 ^ 32)
    then false
    else here || rest

-- elf_load: the entry point or 0, and the memory.
pub load : Image → ℕ → Memory → ℕ × Memory
unfolding header accepts load_loop
load image len mem =
    let h = header image in
    let (done, mem') = load_loop h.phnum 0 image len mem in
    if accepts image len then (if done then h.start else 0, mem') else (0, mem)
