-- ===== src/Pmm/Inv.antt =====
-- The invariant of kernel/pmm.c: pmm_free counts the clear bits of the bitmap.
use native.Mathlib.Decide.{ℕ_discrete}
use vesper_os.Prelude.{
  ℕ, zero, suc, ◌+◌, ◌*◌, ◌/◌, ◌≤◌, ◌<◌, ◌≡◌, refl, ap, ◌∙◌, ◌⊎◌, inl, inr, true, false, not, ltb,
  ◌==◌, if◌then◌else◌, count_below, count_below-eq, count_below-drop, count_below-le, Bool-cases,
  arith,
}
use vesper_os.Pmm.{
  Pmm, total_frames, page_size, set_used, set_free, is_used, alloc_from, alloc_frame, free_frame,
  count_down, count_up,
}
use vesper_os.Pmm.Bits.{
  IsBitmap, is_used-set_used, is_used-set_free, set_used-IsBitmap, set_free-IsBitmap,
}

-- The number of clear bits.
abbrev pub clear_bits : Pmm → ℕ
clear_bits s = count_below total_frames (λ f. not (is_used f s))

pub record IsValid (s : Pmm) : Type 0 where
  pub table : IsBitmap s
  pub counted : s.free ≡ clear_bits s

pub clear_bits-set_used :
    (f : ℕ) {s : Pmm}
    → IsBitmap s
    → f < total_frames
    → is_used f s ≡ false
    → clear_bits s ≡ suc (clear_bits (set_used f s))
clear_bits-set_used f {s} v l e =
    count_below-drop total_frames f _ _ l (rw e) (rw (is_used-set_used f f v l) (ground arith))
      (λ g k ne. ground (arith, is_used-set_used f g v l))

pub clear_bits-set_free :
    (f : ℕ) {s : Pmm}
    → IsBitmap s
    → f < total_frames
    → is_used f s ≡ true
    → clear_bits (set_free f s) ≡ suc (clear_bits s)
clear_bits-set_free f {s} v l e =
    count_below-drop total_frames f _ _ l (rw (is_used-set_free f f v l) (ground arith)) (rw e)
      (λ g k ne. ground (arith, is_used-set_free f g v l))

-- The allocator takes the lowest clear frame: what its scan from `f` returns and leaves behind.
pub record Took (f : ℕ) (s : Pmm) (out : ℕ × Pmm) (k : ℕ) : Type 0 where
  pub from : f ≤ k
  pub in_range : k < total_frames
  pub was_free : is_used k s ≡ false
  pub lowest : (g : ℕ) → f ≤ g → g < k → is_used g s ≡ true
  pub address : out.0 ≡ k * page_size
  pub marked : (g : ℕ) → is_used g out.1 ≡ (if g == k then true else is_used g s)
  pub counter : s.free ≡ suc out.1.free
  pub kept : IsValid out.1

-- What it does when every frame from `f` on is used.
pub record Refused (f : ℕ) (s : Pmm) (out : ℕ × Pmm) : Type 0 where
  pub none_free : (g : ℕ) → f ≤ g → g < total_frames → is_used g s ≡ true
  pub nothing : out.0 ≡ 0
  pub unchanged : out.1 ≡ s

-- The counters do not bear on the bitmap.
pub is_used-count_down : (g : ℕ) (s : Pmm) → is_used g (count_down s) ≡ is_used g s
unfolding is_used
is_used-count_down g s = ground arith

pub is_used-count_up : (g : ℕ) (s : Pmm) → is_used g (count_up s) ≡ is_used g s
unfolding is_used
is_used-count_up g s = refl

pub count_down-IsBitmap : {s : Pmm} → IsBitmap s → IsBitmap (count_down s)
count_down-IsBitmap {s} v = elim (Bool-cases (ltb 0 s.free)) [
  | inl e ↦ rw e (record { size = v.size; bytes = v.bytes })
  | inr e ↦ rw e v
]

clear_bits-count_down : (s : Pmm) → clear_bits (count_down s) ≡ clear_bits s
clear_bits-count_down s = count_below-eq total_frames _ _ (λ g l. ap not (is_used-count_down g s))

clear_bits-count_up : (s : Pmm) → clear_bits (count_up s) ≡ clear_bits s
clear_bits-count_up s = count_below-eq total_frames _ _ (λ g l. ap not (is_used-count_up g s))

pub free-set_used : (f : ℕ) (s : Pmm) → (set_used f s).free ≡ s.free
unfolding set_used
free-set_used f s = refl

pub free-set_free : (f : ℕ) (s : Pmm) → (set_free f s).free ≡ s.free
unfolding set_free
free-set_free f s = refl

module _ (f : ℕ) {s : Pmm} (v : IsValid s) (l : f < total_frames) where
  -- Taking a clear frame, as pmm_alloc_frame and pmm_reserve_range do.
  pub take_frame :
      is_used f s ≡ false
      → (s.free ≡ suc (count_down (set_used f s)).free) × IsValid (count_down (set_used f s))
  take_frame e =
      let room = clear_bits-set_used f v.table l e in
      let same = free-set_used f s in
      let down : s.free ≡ suc (count_down (set_used f s)).free =
        ground (arith, room, same, v.counted) in
      (
        down,
        record {
          table = count_down-IsBitmap (set_used-IsBitmap f v.table);
          counted = omega (arith, down, room, clear_bits-count_down (set_used f s), v.counted);
        },
      )

  -- Giving a used frame back, as pmm_free_frame does.
  pub give_frame :
      is_used f s ≡ true
      → ((count_up (set_free f s)).free ≡ suc s.free) × IsValid (count_up (set_free f s))
  give_frame e =
      let room = clear_bits-set_free f v.table l e in
      let same = free-set_free f s in
      let bound = count_below-le total_frames (λ g. not (is_used g (set_free f s))) in
      let up : (count_up (set_free f s)).free ≡ suc s.free =
        omega (arith, room, same, v.counted, bound) in
      (
        up,
        record {
          table = record {
            size = (set_free-IsBitmap f v.table).size;
            bytes = (set_free-IsBitmap f v.table).bytes;
          };
          counted = omega (arith, up, room, clear_bits-count_up (set_free f s), v.counted);
        },
      )

Took-here :
    (f : ℕ) {s : Pmm}
    → IsValid s
    → f < total_frames
    → is_used f s ≡ false
    → (n : ℕ) → Took f s (alloc_from (suc n) f s) f
unfolding alloc_from
Took-here f {s} v l e n =
    let taken = take_frame f v l e in
    rw (e, alloc_from)
      record {
        from = omega arith;
        in_range = l;
        was_free = e;
        lowest = λ g a b. absurd (omega arith);
        address = omega arith;
        marked = λ g. is_used-count_down g (set_used f s) ∙ is_used-set_used f g v.table l;
        counter = taken.0;
        kept = taken.1;
      }

-- One step of the scan over a used frame.
Took-later :
    {f k : ℕ} {s : Pmm} {out : ℕ × Pmm} → is_used f s ≡ true → Took (f + 1) s out k → Took f s out k
Took-later {f} e t = record {
  from = omega arith;
  in_range = t.in_range;
  was_free = t.was_free;
  lowest = λ g a b. elim (ℕ_discrete g f) [ yes q ↦ rw q e | no q ↦ t.lowest g (omega arith) b ];
  address = t.address;
  marked = t.marked;
  counter = t.counter;
  kept = t.kept;
}

Refused-later :
    {f : ℕ} {s : Pmm} {out : ℕ × Pmm} → is_used f s ≡ true → Refused (f + 1) s out → Refused f s out
Refused-later {f} e t = record {
  none_free =
      λ g a b. elim (ℕ_discrete g f) [ yes q ↦ rw q e | no q ↦ t.none_free g (omega arith) b ];
  nothing = t.nothing;
  unchanged = t.unchanged;
}

alloc_from_lem :
    (n f : ℕ) {s : Pmm}
    → IsValid s
    → n + f ≡ total_frames
    → Refused f s (alloc_from n f s) ⊎ ((k : ℕ) × Took f s (alloc_from n f s) k)
unfolding alloc_from
alloc_from_lem zero f v h =
    inl (record { none_free = λ g a b. absurd (omega arith); nothing = refl; unchanged = refl })
alloc_from_lem (suc n) f {s} v h = elim (Bool-cases (is_used f s)) [
  | inr e ↦ inr (f, Took-here f v (omega arith) e n)
  | inl e ↦ rw (e, alloc_from) (later (alloc_from_lem n (f + 1) v (omega arith)) e)
]
  where
    later :
        Refused (f + 1) s (alloc_from n (f + 1) s)
          ⊎ ((k : ℕ) × Took (f + 1) s (alloc_from n (f + 1) s) k)
        → is_used f s ≡ true
        → Refused f s (alloc_from n (f + 1) s) ⊎ ((k : ℕ) × Took f s (alloc_from n (f + 1) s) k)
    later (inl r) e = inl (Refused-later e r)
    later (inr (k, t)) e = inr (k, Took-later e t)

-- pmm_alloc_frame on a valid allocator: either every frame is used, and it returns 0 and changes
-- nothing; or it takes the lowest clear frame, returns its address, marks that frame and no other,
-- counts one free frame less and keeps the invariant.
pub alloc_frame_lem :
    {s : Pmm} → IsValid s → Refused 0 s (alloc_frame s) ⊎ ((k : ℕ) × Took 0 s (alloc_frame s) k)
unfolding alloc_frame
alloc_frame_lem v = alloc_from_lem total_frames 0 v refl

-- pmm_free_frame keeps the invariant, whatever address it is given.
pub free_frame-IsValid : (phys : ℕ) {s : Pmm} → IsValid s → IsValid (free_frame phys s)
unfolding free_frame
free_frame-IsValid phys {s} v = ground (arith, give_frame (phys / page_size) v)
