-- ===== src/Paging/Tests.antt =====
-- The theorem on kernel/paging.c with an empty directory in frame 7 and two free frames.
use vesper_os.Prelude.{ℕ, ◌*◌, ◌≡◌, ◌<◌, refl, true, false, if◌then◌else◌, ◌==◌, ◌∙◌, arith}
use vesper_os.Paging.{Machine, alloc_user_page}
use vesper_os.Paging.Pages.{Outcome, IsDirectory, alloc_user_page_lem}
use vesper_os.Pmm.{Pmm, total_frames, is_used, free_frame, all_used}
use vesper_os.Pmm.Cycle.{free_frame_lem}
use vesper_os.Pmm.Init.{all_used_lem, all_used-IsValid}
use vesper_os.Pmm.Inv.{IsValid, free_frame-IsValid}

abbrev one_free : Pmm
one_free = free_frame (300 * 4096) all_used

one_free_lem : (g : ℕ) → is_used g one_free ≡ (if g == 300 then false else is_used g all_used)
one_free_lem =
    (free_frame_lem 300 all_used-IsValid (omega arith) (all_used_lem 300 (omega arith))).0

one_free-IsValid : IsValid one_free
one_free-IsValid = free_frame-IsValid (300 * 4096) all_used-IsValid

abbrev two_free : Pmm
two_free = free_frame (301 * 4096) one_free

two_free-IsValid : IsValid two_free
two_free-IsValid = free_frame-IsValid (301 * 4096) one_free-IsValid

others_used :
    (g : ℕ) → g < total_frames → (g == 300) ≡ false → (g == 301) ≡ false → is_used g two_free ≡ true
others_used g l a b =
    (free_frame_lem 301 one_free-IsValid (omega arith)
        (one_free_lem 301 ∙ all_used_lem 301 (omega arith))).0
      g
    ∙ rw b (one_free_lem g ∙ rw a (all_used_lem g l))

abbrev machine : Machine
machine = record { mem = λ a. 0; cr3 = 0x2000; paging_on = true; pmm = two_free; faulted = false }

machine-IsDirectory : IsDirectory 28672 0x40000000 machine
machine-IsDirectory = record {
  aligned = refl;
  in_space = omega arith;
  own = others_used 7 (omega arith) refl refl;
  null_used = others_used 0 (omega arith) refl refl;
  reachable = omega arith;
  free_reachable = λ g h l. others_used g l (ground arith) (ground arith);
  table = λ p. absurd (ground (arith, p));
  apart = λ p. absurd (ground (arith, p));
}

alloc_user_page_lem_example :
    Outcome 28672 0x40000000 machine (alloc_user_page 28672 0x40000000 machine)
alloc_user_page_lem_example =
    alloc_user_page_lem 28672 0x40000000 machine two_free-IsValid machine-IsDirectory
