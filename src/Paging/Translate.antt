-- ===== src/Paging/Translate.antt =====
-- The translation that the page tables of kernel/paging.c stand for.
use vesper_os.Paging.{Machine, Layout, init}
use vesper_os.Prelude.{◌≡◌, refl}

-- paging_init leaves the frame allocator alone.
pub init_pmm : (l : Layout) (m : Machine) → (init l m).pmm ≡ m.pmm
unfolding init
init_pmm l m = refl
