-- ===== src/Pmm.antt =====
-- kernel/pmm.c and pmm.h: the physical frame allocator, a bitmap over 8192 frames of 4 KB.
-- `Pmm` holds the three static variables. A C index out of the bitmap never arises (frames are
-- below 8192); the model reads 0 there and writes nothing. Counters are uint32_t and wrap.
pub mod Bits
pub mod Inv
pub mod Init
pub mod Reserve
pub mod Cycle
pub mod Tests
use Prim.Native.Nat.{bit_or, bit_and}
use vesper_os.Prelude.{
  ℕ, zero, suc, ◌+◌, ◌-◌, ◌*◌, ◌/◌, ◌%◌, ◌^◌, Bool, List, get_or, set, replicate, ltb, leb, ◌==◌,
  if◌then◌else◌,
}

abbrev pub page_size : ℕ
page_size = 4096

abbrev pub max_phys : ℕ
max_phys = 33554432

abbrev pub total_frames : ℕ
total_frames = 8192

-- 1 MB, below which every frame is reserved.
abbrev pub low_memory : ℕ
low_memory = 1048576

pub record Pmm : Type 0 where
  pub bitmap : List ℕ
  pub free : ℕ
  pub total : ℕ

-- `e820_entry_t` and `boot_mmap_t`, as the bootloader leaves them at 0x0500.
pub record E820Entry : Type 0 where
  pub base : ℕ
  pub len : ℕ
  pub kind : ℕ

pub record BootMmap : Type 0 where
  pub count : ℕ
  pub entries : List E820Entry

pub set_used : ℕ → Pmm → Pmm
set_used f s = record s {
  bitmap = set s.bitmap (f / 8) (bit_or (get_or s.bitmap (f / 8) 0) (2 ^ (f % 8)));
}

pub set_free : ℕ → Pmm → Pmm
set_free f s = record s {
  bitmap = set s.bitmap (f / 8) (bit_and (get_or s.bitmap (f / 8) 0) (255 - 2 ^ (f % 8)));
}

pub is_used : ℕ → Pmm → Bool
is_used f s = get_or s.bitmap (f / 8) 0 / 2 ^ (f % 8) % 2 == 1

-- `if (pmm_free > 0) pmm_free--`
abbrev pub count_down : Pmm → Pmm
count_down s = if ltb 0 s.free then record s { free = s.free - 1 } else s

abbrev pub count_up : Pmm → Pmm
count_up s = record s { free = (s.free + 1) % 2 ^ 32 }

-- One round of the loop of pmm_reserve_range.
pub reserve_frame : ℕ → Pmm → Pmm
unfolding is_used set_used
reserve_frame f s = if is_used f s then s else count_down (set_used f s)

pub reserve_frames : ℕ → ℕ → Pmm → Pmm
reserve_frames zero f s = s
reserve_frames (suc n) f s = reserve_frames n (f + 1) (reserve_frame f s)

-- `base` and `len` are uint64_t, the two frame numbers uint32_t.
pub reserve_range : ℕ → ℕ → Pmm → Pmm
reserve_range base len s =
    let over = ltb max_phys ((base + len) % 2 ^ 64) in
    let len' = if over then max_phys - base else len in
    let start = base / page_size % 2 ^ 32 in
    let stop = (base + len' + page_size - 1) % 2 ^ 64 / page_size % 2 ^ 32 in
    let stop' = if ltb total_frames stop then total_frames else stop in
    if leb max_phys base then s else reserve_frames (stop' - start) start s

-- The loops of pmm_init that hand frames out; only the fallback counts them in pmm_total too.
pub free_frames_from : ℕ → ℕ → Pmm → Pmm
free_frames_from zero f s = s
free_frames_from (suc n) f s = free_frames_from n (f + 1) (count_up (set_free f s))

pub fallback_frames : ℕ → ℕ → Pmm → Pmm
fallback_frames zero f s = s
fallback_frames (suc n) f s =
    let s' = count_up (set_free f s) in
    fallback_frames n (f + 1) (record s' { total = (s'.total + 1) % 2 ^ 32 })

-- The first and the last frame of an entry, the last clamped.
pub start_frame : E820Entry → ℕ
start_frame e = (e.base + page_size - 1) % 2 ^ 64 / page_size % 2 ^ 32

pub end_frame : E820Entry → ℕ
end_frame e =
    let stop = (e.base + e.len) % 2 ^ 64 in
    let stop' = if ltb max_phys stop then max_phys else stop in
    let last = stop' / page_size in if ltb total_frames last then total_frames else last

pub init_entry : E820Entry → Pmm → Pmm
init_entry e s =
    let s' = free_frames_from (end_frame e - start_frame e) (start_frame e) s in
    let added = record s' {
      total = (s'.total + (end_frame e + 2 ^ 32 - start_frame e)) % 2 ^ 32;
    } in
    if e.kind == 1 then if leb max_phys e.base then s else added else s

abbrev pub no_entry : E820Entry
no_entry = record { base = 0; len = 0; kind = 0 }

pub init_entries : ℕ → ℕ → List E820Entry → Pmm → Pmm
init_entries zero i es s = s
init_entries (suc n) i es s = init_entries n (i + 1) es (init_entry (get_or es i no_entry) s)

pub all_used : Pmm
all_used = record { bitmap = replicate 1024 255; free = 0; total = 0 }

pub init : BootMmap → Pmm
unfolding all_used
init mmap =
    let s =
      fallback_frames (total_frames - low_memory / page_size) (low_memory / page_size) all_used in
    if mmap.count == 0
    then record s { total = (s.total + low_memory / page_size) % 2 ^ 32 }
    else reserve_range 0 low_memory (init_entries mmap.count 0 mmap.entries all_used)

-- The scan of pmm_alloc_frame with `n` frames left from `f`; 0 means out of memory.
pub alloc_from : ℕ → ℕ → Pmm → ℕ × Pmm
alloc_from zero f s = (0, s)
alloc_from (suc n) f s =
    let rest = alloc_from n (f + 1) s in
    if is_used f s then rest else (f * page_size % 2 ^ 32, count_down (set_used f s))

pub alloc_frame : Pmm → ℕ × Pmm
alloc_frame s = alloc_from total_frames 0 s

pub free_frame : ℕ → Pmm → Pmm
free_frame phys s =
    let f = phys / page_size in
    if leb total_frames f then s else if is_used f s then count_up (set_free f s) else s
