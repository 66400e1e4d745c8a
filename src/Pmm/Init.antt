-- ===== src/Pmm/Init.antt =====
-- pmm_init of kernel/pmm.c: what the bitmap and the counters hold after start-up.
use native.Mathlib.Decide.{ℕ_discrete, dec_lt, dec_le}
use vesper_os.Prelude.{
  ℕ, zero, suc, ◌+◌, ◌-◌, ◌/◌, ◌%◌, ◌^◌, ◌≤◌, ◌<◌, ◌≡◌, refl, sym, ◌∙◌, ap, ◌⊎◌, inl, inr, true,
  false, not, get_or, get_or-replicate_lt, holds_below, holds_below_lem, count_below-zero,
  length-replicate, replicate, leb, ◌==◌, if◌then◌else◌, count_below-eq, Bool-cases, arith,
}
use vesper_os.Pmm.{
  Pmm, BootMmap, E820Entry, total_frames, max_phys, low_memory, set_used, set_free, is_used,
  count_up, reserve_frame, reserve_frames, reserve_range, free_frames_from, fallback_frames,
  init_entry, init_entries, no_entry, start_frame, end_frame, all_used, init,
}
use vesper_os.Pmm.Bits.{Bytes, is_used-set_used, is_used-set_free}
use vesper_os.Pmm.Inv.{IsValid, take_frame, give_frame, is_used-count_up, is_used-count_down}

-- Reserving a frame, used or not, leaves it used and every other frame as it was.
reserve_frame_lem :
    (f : ℕ) {s : Pmm}
    → IsValid s
    → f < total_frames
    → IsValid (reserve_frame f s)
      × ((g : ℕ) → is_used g (reserve_frame f s) ≡ (if g == f then true else is_used g s))
unfolding reserve_frame
reserve_frame_lem f {s} v l = elim (Bool-cases (is_used f s)) [
  | inl e ↦ rw e (v, λ g. same g e)
  | inr e ↦ rw e (
    (take_frame f v l e).1,
    λ g. is_used-count_down g (set_used f s) ∙ is_used-set_used f g v.table l,
  )
]
  where
    same : (g : ℕ) → is_used f s ≡ true → is_used g s ≡ (if g == f then true else is_used g s)
    same g e = elim (ℕ_discrete g f) [ yes q ↦ rw (q, e) (ground arith) | no q ↦ ground arith ]

reserve_frames_lem :
    (n f : ℕ) {s : Pmm}
    → IsValid s
    → n + f ≤ total_frames
    → IsValid (reserve_frames n f s)
      × ((g : ℕ) → is_used g s ≡ true → is_used g (reserve_frames n f s) ≡ true)
      × ((g : ℕ) → f ≤ g → g < n + f → is_used g (reserve_frames n f s) ≡ true)
unfolding reserve_frames
reserve_frames_lem zero f v h = (v, λ g e. e, λ g a b. absurd (omega arith))
reserve_frames_lem (suc n) f {s} v h =
    let one = reserve_frame_lem f v (omega arith) in
    let rest = reserve_frames_lem n (f + 1) one.0 (omega arith) in
    (
      rest.0,
      λ g e. rest.1 g (ground (arith, one.1 g)),
      λ g a b. elim (ℕ_discrete g f) [
        | yes q ↦ rest.1 g (ground (arith, one.1 g))
        | no q ↦ rest.2 g (omega arith) (omega arith)
      ],
    )

pub total_is_used : (g : ℕ) (s : Pmm) (t : ℕ) → is_used g (record s { total = t }) ≡ is_used g s
unfolding is_used
total_is_used g s t = refl

-- Handing out a run of used frames.
free_frames_from_lem :
    (n f : ℕ) {s : Pmm}
    → IsValid s
    → n + f ≤ total_frames
    → ((g : ℕ) → f ≤ g → g < n + f → is_used g s ≡ true)
    → IsValid (free_frames_from n f s)
      × ((g : ℕ) → (g < f) ⊎ (n + f ≤ g) → is_used g (free_frames_from n f s) ≡ is_used g s)
unfolding free_frames_from
free_frames_from_lem zero f v h u = (v, λ g o. refl)
free_frames_from_lem (suc n) f {s} v h u =
    let l : f < total_frames = omega arith in
    let one = give_frame f v l (u f (omega arith) (omega arith)) in
    let law = λ (g : ℕ). is_used-count_up g (set_free f s) ∙ is_used-set_free f g v.table l in
    let rest =
      free_frames_from_lem n (f + 1) one.1 (omega arith) (λ g a b. ground (arith, law g, u g)) in
    (rest.0, λ g o. ground (arith, rest.1 g, law g))

IsValid-total : {s : Pmm} {t : ℕ} → IsValid s → IsValid (record s { total = t })
IsValid-total {s} {t} v = record {
  table = record { size = v.table.size; bytes = v.table.bytes };
  counted = v.counted ∙ count_below-eq total_frames _ _ (λ g l. ap not (sym (total_is_used g s t)));
}

pub fallback_frames_lem :
    (n f : ℕ) {s : Pmm}
    → IsValid s
    → n + f ≤ total_frames
    → ((g : ℕ) → f ≤ g → g < n + f → is_used g s ≡ true)
    → IsValid (fallback_frames n f s)
      × ((g : ℕ) → g < f → is_used g (fallback_frames n f s) ≡ is_used g s)
unfolding fallback_frames
fallback_frames_lem zero f v h u = (v, λ g o. refl)
fallback_frames_lem (suc n) f {s} v h u =
    let l : f < total_frames = omega arith in
    let one = give_frame f v l (u f (omega arith) (omega arith)) in
    let law = λ (g : ℕ). is_used-count_up g (set_free f s) ∙ is_used-set_free f g v.table l in
    let rest : IsValid (
          fallback_frames n (f + 1)
            (record (count_up (set_free f s)) { total = ((set_free f s).total + 1) % 2 ^ 32 }))
        × ((g : ℕ)
            → g < f + 1
            → is_used g (
                fallback_frames n (f + 1) (record (count_up (set_free f s)) {
                  total = ((set_free f s).total + 1) % 2 ^ 32;
                }))
              ≡ is_used g (record (count_up (set_free f s)) {
                total = ((set_free f s).total + 1) % 2 ^ 32;
              })) =
      fallback_frames_lem n (f + 1) (IsValid-total one.1) (omega arith) (λ g a b. ground (
        arith,
        total_is_used g (count_up (set_free f s)) (((set_free f s).total + 1) % 2 ^ 32),
        law g,
        u g,
      )) in
    (
      rest.0,
      λ g o. ground (
        arith,
        rest.1 g (omega arith),
        total_is_used g (count_up (set_free f s)) (((set_free f s).total + 1) % 2 ^ 32),
        law g,
      ),
    )

Bytes-replicate : (n : ℕ) → Bytes (replicate n 255)
Bytes-replicate zero = tt
Bytes-replicate (suc n) = (omega arith, Bytes-replicate n)

ones : holds_below (λ k. 255 / 2 ^ k % 2 == 1) 8 ≡ true
unfolding holds_below
ones = refl

pub all_used_lem : (g : ℕ) → g < total_frames → is_used g all_used ≡ true
unfolding is_used all_used
all_used_lem g l =
    rw (get_or-replicate_lt {A = ℕ} 1024 (g / 8) 255 0 (omega arith))
      (holds_below_lem (λ k. 255 / 2 ^ k % 2 == 1) {i = g % 8} 8 (omega arith) ones)

pub all_used-IsValid : IsValid all_used
unfolding all_used
all_used-IsValid = record {
  table = record { size = length-replicate {A = ℕ} 1024 255; bytes = Bytes-replicate 1024 };
  counted = sym (count_below-zero total_frames _ (λ g l. ap not (all_used_lem g l)));
}

free_range_lem :
    (a b : ℕ) {s : Pmm}
    → IsValid s
    → b ≤ total_frames
    → ((g : ℕ) → a ≤ g → g < b → is_used g s ≡ true)
    → IsValid (free_frames_from (b - a) a s)
      × ((g : ℕ) → (g < a) ⊎ (b ≤ g) → is_used g (free_frames_from (b - a) a s) ≡ is_used g s)
unfolding free_frames_from
free_range_lem a b {s} v h u = elim (dec_le a b) [
  | yes le ↦
      let run = free_frames_from_lem (b - a) a v (omega arith) (λ g l r. u g l (omega arith)) in
      (run.0, λ g o. run.1 g (omega arith))
  | no gt ↦ let e : b - a ≡ 0 = omega arith in rw (e, free_frames_from) (v, λ g o. refl)
]

end_frame-le : (e : E820Entry) → end_frame e ≤ total_frames
unfolding end_frame
end_frame-le e = ground arith

-- Frame `g` lies in the range that pmm_init frees for the entry.
abbrev pub Covers : E820Entry → ℕ → Type 0
Covers e g = (e.kind ≡ 1) × (e.base < max_phys) × (start_frame e ≤ g) × (g < end_frame e)

init_entry_lem :
    (e : E820Entry) {s : Pmm}
    → IsValid s
    → ((g : ℕ) → Covers e g → is_used g s ≡ true)
    → IsValid (init_entry e s) × ((g : ℕ) → ¬ Covers e g → is_used g (init_entry e s) ≡ is_used g s)
unfolding init_entry
init_entry_lem e {s} v u = elim (ℕ_discrete e.kind 1) [
  | no q ↦ let t : (e.kind == 1) ≡ false = ground arith in rw (t, init_entry) (v, λ g c. refl)
  | yes k ↦ elim (dec_lt e.base max_phys) [
    | no q ↦
        let t : (e.kind == 1) ≡ true = ground arith in
        let t' : leb max_phys e.base ≡ true = ground arith in
        rw (t, t', init_entry) (v, λ g c. refl)
    | yes b ↦
        let t : (e.kind == 1) ≡ true = ground arith in
        let t' : leb max_phys e.base ≡ false = ground arith in
        let run =
          free_range_lem (start_frame e) (end_frame e) v (end_frame-le e)
            (λ g l r. u g (k, b, l, r)) in
        rw (t, t', init_entry)
          (IsValid-total run.0, λ g c. total_is_used g _ _ ∙ run.1 g (outside g k b c))
  ]
]
  where
    outside :
        (g : ℕ)
        → e.kind ≡ 1
        → e.base < max_phys
        → ¬ Covers e g
        → (g < start_frame e) ⊎ (end_frame e ≤ g)
    outside g k b c = elim (dec_lt g (start_frame e)) [
      | yes l ↦ inl l
      | no l ↦ elim (dec_lt g (end_frame e)) [
        | yes r ↦ absurd (c (k, b, omega arith, r))
        | no r ↦ inr (omega arith)
      ]
    ]

-- The entry that the loop of pmm_init reads in round `j`.
abbrev pub nth_entry : BootMmap → ℕ → E820Entry
nth_entry m j = get_or m.entries j no_entry

-- No two of the entries that the loop reads free a common frame.
abbrev pub AreDisjoint : BootMmap → Type 0
AreDisjoint m =
    (j k g : ℕ) → j < k → k < m.count → Covers (nth_entry m j) g → ¬ Covers (nth_entry m k) g

init_entries_lem :
    (m : BootMmap)
    → AreDisjoint m
    → (n i : ℕ) {s : Pmm} → IsValid s
    → n + i ≤ m.count
    → ((j g : ℕ) → i ≤ j → j < m.count → Covers (nth_entry m j) g → is_used g s ≡ true)
    → IsValid (init_entries n i m.entries s)
unfolding init_entries
init_entries_lem m d zero i v h u = v
init_entries_lem m d (suc n) i {s} v h u =
    let one = init_entry_lem (nth_entry m i) v (λ g c. u i g (omega arith) (omega arith) c) in
    init_entries_lem m d n (i + 1) one.0 (omega arith)
      (λ j g a b c. one.1 g (λ c'. d i j g (omega arith) b c' c) ∙ u j g (omega arith) b c)

pub reserve_range_low : (s : Pmm) → reserve_range 0 low_memory s ≡ reserve_frames 256 0 s
unfolding reserve_range
reserve_range_low s = refl

-- After pmm_init the counter pmm_free is the number of clear bits: without an E820 map always, and
-- with one if no two of its entries free a common frame.
pub pmm_init-IsValid : (m : BootMmap) → AreDisjoint m → IsValid (init m)
unfolding init
pmm_init-IsValid m d = elim (Bool-cases (m.count == 0)) [
  | inl e ↦
      let run =
        fallback_frames_lem 7936 256 all_used-IsValid (omega arith)
          (λ g a b. all_used_lem g (omega arith)) in
      rw (e, init) (IsValid-total run.0)
  | inr e ↦
      let run =
        reserve_frames_lem 256 0
          (init_entries_lem m d m.count 0 all_used-IsValid (omega arith)
            (λ j g a b c. all_used_lem g (omega (arith, end_frame-le (nth_entry m j)))))
          (omega arith) in
      rw (e, init) (rw reserve_range_low run.0)
]
