-- ===== src/Gdt.antt =====
-- kernel/gdt.c, gdt.h, tss.c and tss.h: the segment descriptors and the task state segment. The
-- address of the TSS is a parameter. LGDT, LTR and the reloading of the segment registers change
-- only `loaded` and `task`.
pub mod Segments
use vesper_os.Prelude.{ℕ, ◌+◌, ◌-◌, ◌*◌, ◌/◌, ◌%◌, ◌^◌, Bool, true, false, List, set}

-- `gdt_entry_t`.
pub record Entry : Type 0 where
  pub limit_low : ℕ
  pub base_low : ℕ
  pub base_mid : ℕ
  pub access : ℕ
  pub flags_limit_high : ℕ
  pub base_high : ℕ

-- The fields of `tss_t` that are not always 0.
pub record Tss : Type 0 where
  pub esp0 : ℕ
  pub ss0 : ℕ
  pub iomap_base : ℕ

pub record Gdt : Type 0 where
  pub table : List Entry
  pub loaded : Bool
  pub task : ℕ
  pub tss : Tss

-- sizeof(tss_t).
abbrev pub tss_size : ℕ
tss_size = 104

-- The two halves of the flags byte do not overlap, so `|` is a sum.
pub set_entry : ℕ → ℕ → ℕ → ℕ → ℕ → Gdt → Gdt
set_entry i base limit access flags g = record g {
  table = set g.table i (record {
    base_low = base % 2 ^ 16;
    base_mid = base / 2 ^ 16 % 2 ^ 8;
    base_high = base / 2 ^ 24 % 2 ^ 8;
    limit_low = limit % 2 ^ 16;
    flags_limit_high = limit / 2 ^ 16 % 16 + flags / 16 % 16 * 16;
    access = access;
  });
}

-- gdt_init with the TSS at address `tss_base`.
pub init : ℕ → Gdt → Gdt
init tss_base g =
    let null = set_entry 0 0 0 0 0 g in
    let kcode = set_entry 1 0 0xFFFFF 0x9A 0xCF null in
    let kdata = set_entry 2 0 0xFFFFF 0x92 0xCF kcode in
    let ucode = set_entry 3 0 0xFFFFF 0xFA 0xCF kdata in
    let udata = set_entry 4 0 0xFFFFF 0xF2 0xCF ucode in
    record (set_entry 5 tss_base (tss_size - 1) 0x89 0 udata) { loaded = true }

pub tss_init : ℕ → Gdt → Gdt
tss_init kernel_esp g = record g {
  tss = record { esp0 = kernel_esp; ss0 = 0x10; iomap_base = tss_size };
}

pub tss_flush : Gdt → Gdt
tss_flush g = record g { task = 0x28 }

pub tss_set_kernel_stack : ℕ → Gdt → Gdt
tss_set_kernel_stack esp g = record g { tss = record (g.tss) { esp0 = esp } }
