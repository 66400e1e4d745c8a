-- ===== src/Pmm/Cycle.antt =====
-- pmm_alloc_frame and pmm_free_frame together.
use vesper_os.Prelude.{
  ℕ, suc, ◌*◌, ◌/◌, ◌<◌, ◌≡◌, ◌≢◌, ◌∙◌, ◌⊎◌, inl, inr, true, false, leb, ◌==◌, if◌then◌else◌, arith,
}
use native.Mathlib.Decide.{ℕ_discrete}
use vesper_os.Pmm.{Pmm, total_frames, page_size, set_free, is_used, alloc_frame, free_frame}
use vesper_os.Pmm.Bits.{is_used-set_free}
use vesper_os.Pmm.Inv.{IsValid, Took, alloc_frame_lem, give_frame, is_used-count_up}

-- On a valid allocator, freeing the address of a used frame clears its bit, leaves every other bit,
-- and counts one more.
pub free_frame_lem :
    (f : ℕ) {s : Pmm}
    → IsValid s
    → f < total_frames
    → is_used f s ≡ true
    → ((g : ℕ) → is_used g (free_frame (f * page_size) s) ≡ (if g == f then false else is_used g s))
      × ((free_frame (f * page_size) s).free ≡ suc s.free)
unfolding free_frame
free_frame_lem f {s} v l e =
    let q : f * page_size / page_size ≡ f = omega arith in
    let t : leb total_frames f ≡ false = ground arith in
    rw (q, free_frame)
      (rw (t, e)
        (
          λ g. is_used-count_up g (set_free f s) ∙ is_used-set_free f g v.table l,
          (give_frame f v l e).0,
        ))

clear_free_frame :
    (f : ℕ) (t : Pmm) → f < total_frames → is_used f t ≡ false → free_frame (f * page_size) t ≡ t
unfolding free_frame
clear_free_frame f t l c =
    let q : f * page_size / page_size ≡ f = omega arith in
    let b : leb total_frames f ≡ false = ground arith in rw (q, free_frame) (rw (b, c))

-- The address of a frame that is clear already is left alone: a second free changes nothing.
pub free_frame_twice :
    (f : ℕ) {s : Pmm}
    → IsValid s
    → f < total_frames
    → is_used f s ≡ true
    → let t = free_frame (f * page_size) s in free_frame (f * page_size) t ≡ t
free_frame_twice f {s} v l e =
    clear_free_frame f (free_frame (f * page_size) s) l
      (ground (arith, (free_frame_lem f v l e).0 f))

-- Frames go out and come back: on a valid allocator, while some frame is clear, an allocation
-- followed by the free of what it returned restores every bit and the counter.
pub free_frame-alloc_frame :
    (k : ℕ) {s : Pmm}
    → IsValid s
    → k < total_frames
    → is_used k s ≡ false
    → let (phys, t) = alloc_frame s in
      ((g : ℕ) → is_used g (free_frame phys t) ≡ is_used g s) × ((free_frame phys t).free ≡ s.free)
free_frame-alloc_frame k {s} v l e = elim (alloc_frame_lem v) [
  | inl r ↦ absurd (ground (arith, r.none_free k))
  | inr (j, t) ↦
      let back = free_frame_lem j t.kept t.in_range (ground (arith, t.marked j)) in
      rw t.address (λ g. back.0 g ∙ restored g j t, omega (arith, back.1, t.counter))
]
  where
    restored :
        (g j : ℕ) (t : Took 0 s (alloc_frame s) j)
        → (if g == j then false else is_used g (alloc_frame s).1) ≡ is_used g s
    restored g j t = elim (ℕ_discrete g j) [
      | yes q ↦ rw q (ground (arith, t.was_free))
      | no q ↦ ground (arith, t.marked g)
    ]

-- On a valid allocator with frame 0 reserved, the second of two allocations in a row is refused or
-- returns another address than the first.
pub alloc_frame-alloc_frame :
    {s : Pmm}
    → IsValid s
    → is_used 0 s ≡ true
    → let (a, t) = alloc_frame s in let (b, u) = alloc_frame t in (b ≡ 0) ⊎ (a ≢ b)
alloc_frame-alloc_frame {s} v z = elim (alloc_frame_lem v) [
  | inl r ↦ elim (ℕ_discrete (alloc_frame (alloc_frame s).1).0 0) [
    | yes e ↦ inl e
    | no ne ↦ inr (λ e. ne (omega (arith, r.nothing)))
  ]
  | inr (j, t) ↦ elim (alloc_frame_lem t.kept) [
    | inl r ↦ inl r.nothing
    | inr (k, t') ↦ inr (λ eq.
        let same : k ≡ j = omega (arith, t.address, t'.address) in
        ground (arith, t'.was_free, t.marked k))
  ]
]
