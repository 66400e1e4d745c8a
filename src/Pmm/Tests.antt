-- ===== src/Pmm/Tests.antt =====
-- Runs of the frame allocator, and its theorems at inputs that meet their hypotheses.
use vesper_os.Prelude.{ℕ, zero, suc, ◌*◌, ◌≡◌, refl, ◌⊎◌, true, false, [], ◌∷◌, arith}
use vesper_os.Pmm.{
  Pmm, BootMmap, is_used, set_used, alloc_frame, alloc_from, free_frame, init, start_frame,
  end_frame, init_entry, init_entries, free_frames_from, reserve_range, reserve_frames,
  reserve_frame, set_free,
}
use vesper_os.Pmm.Inv.{IsValid, Refused, Took, alloc_frame_lem, free_frame-IsValid}
use vesper_os.Pmm.Init.{pmm_init-IsValid, AreDisjoint}
use vesper_os.Pmm.Reserve.{init-reserves}
use vesper_os.Pmm.Cycle.{free_frame_lem, free_frame-alloc_frame}

-- The BIOS gave no map.
abbrev pub no_map : BootMmap
no_map = record { count = 0; entries = [] }

pub no_map-AreDisjoint : AreDisjoint no_map
no_map-AreDisjoint j k g a b c d = elim b [ ]

-- Low memory and 1 MB to 16 MB, as QEMU reports them.
abbrev pub qemu_map : BootMmap
qemu_map = record {
  count = 2;
  entries =
      record { base = 0; len = 654336; kind = 1 }
      ∷ record { base = 1048576; len = 15728640; kind = 1 }
      ∷ [];
}

first_alloc : (alloc_frame (init qemu_map)).0 ≡ 1048576
unfolding alloc_frame alloc_from init init_entry init_entries free_frames_from reserve_range
    reserve_frames reserve_frame is_used set_used set_free start_frame end_frame
first_alloc = refl

-- The frames of the two regions are those up to 158 and those from 256 to 4095.
pub qemu_map-AreDisjoint : AreDisjoint qemu_map
unfolding start_frame end_frame
qemu_map-AreDisjoint zero (suc zero) g a b c d = absurd (omega (arith, c.3, d.2))
qemu_map-AreDisjoint zero zero g a b c d = absurd (omega arith)
qemu_map-AreDisjoint j (suc (suc k)) g a b c d = absurd (omega arith)
qemu_map-AreDisjoint (suc j) (suc zero) g a b c d = absurd (omega arith)
qemu_map-AreDisjoint (suc j) zero g a b c d = absurd (omega arith)

pmm_init-IsValid_example : IsValid (init qemu_map)
pmm_init-IsValid_example = pmm_init-IsValid qemu_map qemu_map-AreDisjoint

abbrev pub booted : Pmm
booted = init no_map

booted-IsValid : IsValid booted
booted-IsValid = pmm_init-IsValid no_map no_map-AreDisjoint

alloc_frame_lem_example :
    Refused 0 booted (alloc_frame booted) ⊎ ((k : ℕ) × Took 0 booted (alloc_frame booted) k)
alloc_frame_lem_example = alloc_frame_lem booted-IsValid

-- Frame 7 is reserved low memory; giving it back is what a buggy caller might do.
low_is_used : is_used 7 booted ≡ true
low_is_used = init-reserves no_map 7 (omega arith)

abbrev with_seven : Pmm
with_seven = free_frame (7 * 4096) booted

with_seven-IsValid : IsValid with_seven
with_seven-IsValid = free_frame-IsValid (7 * 4096) booted-IsValid

seven_is_clear : is_used 7 with_seven ≡ false
seven_is_clear = (free_frame_lem 7 booted-IsValid (omega arith) low_is_used).0 7

free_frame-alloc_frame_example :
    let (phys, t) = alloc_frame with_seven in
    ((g : ℕ) → is_used g (free_frame phys t) ≡ is_used g with_seven)
    × ((free_frame phys t).free ≡ with_seven.free)
free_frame-alloc_frame_example =
    free_frame-alloc_frame 7 with_seven-IsValid (omega arith) seven_is_clear
