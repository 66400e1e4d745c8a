-- ===== src/Pmm/Reserve.antt =====
-- The first megabyte after pmm_init, whatever the E820 map holds.
use vesper_os.Prelude.{
  ℕ, zero, suc, ◌+◌, ◌-◌, ◌≤◌, ◌<◌, ◌≡◌, ◌∙◌, inl, inr, true, List, get_or, ◌==◌, Bool-cases, arith,
}
use native.Mathlib.Decide.{ℕ_discrete}
use vesper_os.Pmm.{
  Pmm, BootMmap, E820Entry, total_frames, set_used, is_used, reserve_frame, reserve_frames,
  free_frames_from, init_entry, init_entries, no_entry, start_frame, end_frame, init,
}
use vesper_os.Pmm.Bits.{IsBitmap, is_used-set_used, set_used-IsBitmap, set_free-IsBitmap}
use vesper_os.Pmm.Inv.{is_used-count_down, count_down-IsBitmap}
use vesper_os.Pmm.Init.{
  all_used-IsValid, all_used_lem, reserve_range_low, fallback_frames_lem, total_is_used,
}

reserve_frame_bits :
    (f : ℕ) {s : Pmm}
    → IsBitmap s
    → f < total_frames
    → IsBitmap (reserve_frame f s)
      × (is_used f (reserve_frame f s) ≡ true)
      × ((g : ℕ) → is_used g s ≡ true → is_used g (reserve_frame f s) ≡ true)
unfolding reserve_frame
reserve_frame_bits f {s} v l = elim (Bool-cases (is_used f s)) [
  | inl e ↦ rw e (v, e, λ g u. u)
  | inr e ↦
      let law = λ (g : ℕ). is_used-count_down g (set_used f s) ∙ is_used-set_used f g v l in
      rw e (
        count_down-IsBitmap (set_used-IsBitmap f v),
        ground (arith, law f),
        λ g u. ground (arith, law g),
      )
]

reserve_frames_bits :
    (n f : ℕ) {s : Pmm}
    → IsBitmap s
    → n + f ≤ total_frames
    → ((g : ℕ) → is_used g s ≡ true → is_used g (reserve_frames n f s) ≡ true)
      × ((g : ℕ) → f ≤ g → g < n + f → is_used g (reserve_frames n f s) ≡ true)
unfolding reserve_frames
reserve_frames_bits zero f v h = (λ g u. u, λ g a b. absurd (omega arith))
reserve_frames_bits (suc n) f {s} v h =
    let one = reserve_frame_bits f v (omega arith) in
    let rest = reserve_frames_bits n (f + 1) one.0 (omega arith) in
    (
      λ g u. rest.0 g (one.2 g u),
      λ g a b. elim (ℕ_discrete g f) [
        | yes q ↦ rest.0 g (rw q one.1)
        | no q ↦ rest.1 g (omega arith) (omega arith)
      ],
    )

free_frames_from-IsBitmap : (n f : ℕ) {s : Pmm} → IsBitmap s → IsBitmap (free_frames_from n f s)
unfolding free_frames_from
free_frames_from-IsBitmap zero f v = v
free_frames_from-IsBitmap (suc n) f v =
    let w = set_free-IsBitmap f v in
    free_frames_from-IsBitmap n (f + 1) (record { size = w.size; bytes = w.bytes })

init_entry-IsBitmap : (e : E820Entry) {s : Pmm} → IsBitmap s → IsBitmap (init_entry e s)
unfolding init_entry
init_entry-IsBitmap e v =
    ground (arith, free_frames_from-IsBitmap (end_frame e - start_frame e) (start_frame e) v)

init_entries-IsBitmap :
    (n i : ℕ) (es : List E820Entry) {s : Pmm} → IsBitmap s → IsBitmap (init_entries n i es s)
unfolding init_entries
init_entries-IsBitmap zero i es v = v
init_entries-IsBitmap (suc n) i es v =
    init_entries-IsBitmap n (i + 1) es (init_entry-IsBitmap (get_or es i no_entry) v)

-- After pmm_init every frame of the first megabyte is used, for every E820 map, also one whose
-- entries overlap or claim that memory.
pub init-reserves : (m : BootMmap) (g : ℕ) → g < 256 → is_used g (init m) ≡ true
unfolding init
init-reserves m g l = elim (Bool-cases (m.count == 0)) [
  | inl e ↦
      let run =
        fallback_frames_lem 7936 256 all_used-IsValid (omega arith)
          (λ g a b. all_used_lem g (omega arith)) in
      rw (e, init) (total_is_used g _ _ ∙ run.1 g l ∙ all_used_lem g (omega arith))
  | inr e ↦
      let v = init_entries-IsBitmap m.count 0 m.entries all_used-IsValid.table in
      rw (e, init)
        (rw reserve_range_low
          ((reserve_frames_bits 256 0 v (omega arith)).1 g (omega arith) (omega arith)))
]
