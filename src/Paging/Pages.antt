-- ===== src/Paging/Pages.antt =====
-- paging_alloc_user_pages of kernel/paging.c, one page at a time, against the translation phys_of_virt.
use native.Mathlib.Decide.{dec_lt}
use vesper_os.Prelude.{
  ℕ, ◌+◌, ◌*◌, ◌/◌, ◌%◌, ◌^◌, ◌<◌, ◌≤◌, ◌≡◌, ◌≢◌, refl, sym, ap, ◌∙◌, ◌⊎◌, inl, inr, Bool, true,
  false, ◌==◌, Bool-cases, subst, leb, ◌&&◌, ◌||◌, arith,
}
use vesper_os.Pmm
use vesper_os.Pmm.{Pmm, total_frames, is_used}
use vesper_os.Pmm.Inv.{IsValid, Took, alloc_frame_lem}
use vesper_os.Paging.{
  Machine, store, present, touch, outside, frame_of, pdi, pti, entry, ensure_table, map_frame,
  alloc_user_page, phys_of_virt, clear_words,
}

-- The first 8 MB are mapped to themselves, so the kernel reaches only the frames below this one.
abbrev pub mapped_frames : ℕ
mapped_frames = 2048

-- The page got a frame that was free and is mapped for the kernel, through a page table that is.
pub record Mapped (pd virt : ℕ) (m m' : Machine) : Type 0 where
  pub frame : ℕ
  pub was_free : is_used frame m.pmm ≡ false
  pub now_used : is_used frame m'.pmm ≡ true
  pub reachable : frame < mapped_frames
  pub table : frame_of (m'.mem (entry pd (pdi virt))) < mapped_frames * 4096
  pub mapped : phys_of_virt pd virt m' ≡ frame * 4096
  pub kept : IsValid m'.pmm
  pub no_fault : m'.faulted ≡ m.faulted

pub IsFull : Machine → Type 0
IsFull m = (g : ℕ) → g < total_frames → is_used g m.pmm ≡ true

-- A directory in a frame of its own, for the lookup of `virt`. It, its page table for the address
-- and every free frame are in the first 8 MB.
pub record IsDirectory (pd virt : ℕ) (m : Machine) : Type 0 where
  pub aligned : pd % 4096 ≡ 0
  pub in_space : virt < 2 ^ 32
  pub own : is_used (pd / 4096) m.pmm ≡ true
  pub null_used : is_used 0 m.pmm ≡ true
  pub reachable : pd < mapped_frames * 4096
  pub free_reachable : (g : ℕ) → mapped_frames ≤ g → g < total_frames → is_used g m.pmm ≡ true
  pub table :
      present (m.mem (entry pd (pdi virt))) ≡ true
      → frame_of (m.mem (entry pd (pdi virt))) < mapped_frames * 4096
  pub apart :
      present (m.mem (entry pd (pdi virt))) ≡ true → frame_of (m.mem (entry pd (pdi virt))) ≢ pd

differ : {f k : ℕ} (s : Pmm) → is_used f s ≡ true → is_used k s ≡ false → k ≢ f
differ {f} {k} s u n z =
    let same : is_used k s ≡ is_used f s = ap (λ x. is_used x s) z in ground arith

-- Either no frame is left and the code fails, or it succeeds and the page is mapped.
abbrev pub Outcome : (pd virt : ℕ) → Machine → Bool × Machine → Type 0
Outcome pd virt m out =
    ((out.0 ≡ false) × IsFull out.1 × (out.1.faulted ≡ m.faulted))
    ⊎ ((out.0 ≡ true) × Mapped pd virt m out.1)

-- An access below 8 MB does not fault.
inside : (f p : Bool) (a : ℕ) → a < mapped_frames * 4096 → (f || (p && leb 0x800000 a)) ≡ f
inside f p a l = let low : leb 0x800000 a ≡ false = ground arith in rw low (ground arith)

entries-apart :
    (pd e virt : ℕ)
    → pd % 4096 ≡ 0
    → virt < 2 ^ 32
    → frame_of e ≢ pd
    → (entry pd (pdi virt) == entry (frame_of e) (pti virt)) ≡ false
entries-apart pd e virt a l ne = ground arith

-- The machine in which the page `virt` of `pd` has the frame `k`, and the allocator is `pmm`.
abbrev with_page : (pd virt k : ℕ) → Pmm → Machine → Machine
with_page pd virt k pmm m = record m {
  mem =
      store (entry (frame_of (m.mem (entry pd (pdi virt)))) (pti virt)) (k * 4096 / 8 * 8 + 7)
        m.mem;
  pmm = pmm;
}

phys_of_virt-with_page :
    (pd virt k : ℕ) (pmm : Pmm) (m : Machine)
    → (entry pd (pdi virt) == entry (frame_of (m.mem (entry pd (pdi virt)))) (pti virt)) ≡ false
    → present (m.mem (entry pd (pdi virt))) ≡ true
    → phys_of_virt pd virt (with_page pd virt k pmm m) ≡ k * 4096
unfolding phys_of_virt store
phys_of_virt-with_page pd virt k pmm m ne p = rw (ne, p) (ground arith)

map_frame-took :
    (pd virt k : ℕ) (m : Machine)
    → (Pmm.alloc_frame m.pmm).0 ≡ k * 4096
    → k ≢ 0
    → frame_of (m.mem (entry pd (pdi virt))) < mapped_frames * 4096
    → map_frame pd virt m ≡ (true, with_page pd virt k (Pmm.alloc_frame m.pmm).1 m)
unfolding map_frame
map_frame-took pd virt k m e ne b =
    let z : (k * 4096 == 0) ≡ false = ground arith in
    rw (e, z)
      (ap (λ f. (true, record (with_page pd virt k (Pmm.alloc_frame m.pmm).1 m) { faulted = f }))
        (inside m.faulted m.paging_on (entry (frame_of (m.mem (entry pd (pdi virt)))) (pti virt))
          (omega (arith, b))))

map_frame-refused :
    (pd virt : ℕ) (m : Machine)
    → (Pmm.alloc_frame m.pmm).0 ≡ 0
    → map_frame pd virt m ≡ (false, record m { pmm = (Pmm.alloc_frame m.pmm).1 })
unfolding map_frame
map_frame-refused pd virt m e = rw e refl

Took-reachable :
    {s : Pmm} {out : ℕ × Pmm} (k : ℕ)
    → Took 0 s out k
    → ((g : ℕ) → mapped_frames ≤ g → g < total_frames → is_used g s ≡ true)
    → k < mapped_frames
Took-reachable {s} k t r = elim (dec_lt k mapped_frames) [
  | yes l ↦ l
  | no l ↦
      let used : is_used k s ≡ true = r k (omega arith) t.in_range in
      absurd (ground (arith, t.was_free, used))
]

map_frame_lem :
    (pd virt : ℕ) (m : Machine)
    → IsValid m.pmm
    → is_used 0 m.pmm ≡ true
    → (entry pd (pdi virt) == entry (frame_of (m.mem (entry pd (pdi virt)))) (pti virt)) ≡ false
    → present (m.mem (entry pd (pdi virt))) ≡ true
    → ((g : ℕ) → mapped_frames ≤ g → g < total_frames → is_used g m.pmm ≡ true)
    → frame_of (m.mem (entry pd (pdi virt))) < mapped_frames * 4096
    → Outcome pd virt m (map_frame pd virt m)
unfolding IsFull store
map_frame_lem pd virt m v u ne p r b = elim (alloc_frame_lem v) [
  | inl r ↦
      let e = map_frame-refused pd virt m r.nothing in
      inl (
        ap (λ x. x.0) e,
        (λ g l. rw (e, r.unchanged) (r.none_free g (omega arith) l)),
        ap (λ x. x.1.faulted) e,
      )
  | inr (k, t) ↦
      let e = map_frame-took pd virt k m t.address (differ m.pmm u t.was_free) b in
      let mapped : Mapped pd virt m (with_page pd virt k (Pmm.alloc_frame m.pmm).1 m) = record {
        frame = k;
        was_free = t.was_free;
        now_used = t.marked k ∙ ground arith;
        reachable = Took-reachable k t r;
        table = rw ne b;
        mapped = phys_of_virt-with_page pd virt k (Pmm.alloc_frame m.pmm).1 m ne p;
        kept = t.kept;
        no_fault = refl;
      } in
      inr (ap (λ x. x.0) e, subst (Mapped pd virt m) (sym (ap (λ x. x.1) e)) mapped)
]

-- The machine in which `pd` has an empty page table in the frame `k` for `virt`.
abbrev with_table : (pd virt k : ℕ) → Pmm → Machine → Machine
with_table pd virt k pmm m = record m {
  mem = store (entry pd (pdi virt)) (k * 4096 / 8 * 8 + 7) (clear_words 1024 (k * 4096) m.mem);
  pmm = pmm;
}

ensure_table-took :
    (pd virt k : ℕ) (m : Machine)
    → present (m.mem (entry pd (pdi virt))) ≡ false
    → (Pmm.alloc_frame m.pmm).0 ≡ k * 4096
    → k ≢ 0
    → pd % 4096 ≡ 0
    → virt < 2 ^ 32
    → pd < mapped_frames * 4096
    → k < mapped_frames
    → ensure_table pd virt m ≡ (true, with_table pd virt k (Pmm.alloc_frame m.pmm).1 m)
unfolding ensure_table
ensure_table-took pd virt k m p e ne a w b c =
    let z : (k * 4096 == 0) ≡ false = ground arith in
    let m1 = with_table pd virt k (Pmm.alloc_frame m.pmm).1 m in
    rw (p, e, z)
      (ap (λ f. (true, record m1 { faulted = f || outside (entry pd (pdi virt)) m }))
          (inside m.faulted m.paging_on (k * 4096) (omega arith))
        ∙ ap (λ f. (true, record m1 { faulted = f }))
            (inside m.faulted m.paging_on (entry pd (pdi virt)) (omega (arith, a, w, b))))

ensure_table-refused :
    (pd virt : ℕ) (m : Machine)
    → present (m.mem (entry pd (pdi virt))) ≡ false
    → (Pmm.alloc_frame m.pmm).0 ≡ 0
    → ensure_table pd virt m ≡ (false, record m { pmm = (Pmm.alloc_frame m.pmm).1 })
unfolding ensure_table
ensure_table-refused pd virt m p e = rw (p, e) refl

ensure_table-present :
    (pd virt : ℕ) (m : Machine)
    → present (m.mem (entry pd (pdi virt))) ≡ true
    → ensure_table pd virt m ≡ (true, m)
unfolding ensure_table
ensure_table-present pd virt m p = rw p refl

touch_lem : (a : ℕ) (m : Machine) → a < mapped_frames * 4096 → touch a m ≡ m
touch_lem a m l = ap (λ f. record m { faulted = f }) (inside m.faulted m.paging_on a l)

alloc_user_page-linked :
    (pd virt : ℕ) (m m1 : Machine)
    → pd < mapped_frames * 4096
    → ensure_table pd virt m ≡ (true, m1)
    → alloc_user_page pd virt m ≡ map_frame pd virt m1
unfolding alloc_user_page
alloc_user_page-linked pd virt m m1 b e = rw (touch_lem pd m b, alloc_user_page) (rw e refl)

alloc_user_page-refused :
    (pd virt : ℕ) (m m1 : Machine)
    → pd < mapped_frames * 4096
    → ensure_table pd virt m ≡ (false, m1)
    → alloc_user_page pd virt m ≡ (false, m1)
unfolding alloc_user_page
alloc_user_page-refused pd virt m m1 b e = rw (touch_lem pd m b, alloc_user_page) (rw e refl)

-- The new page table is not the directory, and the page is then mapped in it.
map_frame-with_table :
    (pd virt k : ℕ) (m : Machine)
    → IsDirectory pd virt m
    → Took 0 m.pmm (Pmm.alloc_frame m.pmm) k
    → Outcome pd virt m (map_frame pd virt (with_table pd virt k (Pmm.alloc_frame m.pmm).1 m))
unfolding store
map_frame-with_table pd virt k m d t =
    let m1 = with_table pd virt k (Pmm.alloc_frame m.pmm).1 m in
    let ne : k ≢ pd / 4096 = differ m.pmm d.own t.was_free in
    let pde : m1.mem (entry pd (pdi virt)) ≡ k * 4096 / 8 * 8 + 7 = ground arith in
    let frame : frame_of (m1.mem (entry pd (pdi virt))) ≡ k * 4096 = ground arith in
    let a : frame_of (m1.mem (entry pd (pdi virt))) ≢ pd = λ z. ground (arith, d.aligned) in
    elim (map_frame_lem pd virt m1 t.kept (t.marked 0 ∙ ground (arith, d.null_used))
      (entries-apart pd (m1.mem (entry pd (pdi virt))) virt d.aligned d.in_space a)
      (ap (λ x. present x) pde ∙ ground arith)
      (λ g h l. t.marked g ∙ ground (arith, d.free_reachable g h l))
      (let low : k < mapped_frames = Took-reachable k t d.free_reachable in
        omega (arith, frame, low))) [
          | inl x ↦ inl x
          | inr (e, y) ↦ inr (
            e,
            record {
              frame = y.frame;
              reachable = y.reachable;
              table = y.table;
              was_free = ground (arith, t.marked y.frame, y.was_free);
              now_used = y.now_used;
              mapped = y.mapped;
              kept = y.kept;
              no_fault = y.no_fault;
            },
          )
        ]

-- With a valid frame allocator that has frame 0 in use and gives out no frame above the first 8 MB,
-- which are mapped to themselves, for a directory in a frame of its own and an address of 32 bits
-- whose page table is not the directory itself, both in the first 8 MB: a page of
-- paging_alloc_user_pages fails only when it leaves no frame free, and otherwise phys_of_virt finds
-- for the page a frame that was free and is now in use, it and the page table it is found in are in
-- the first 8 MB, and the allocator is still valid. Neither way does an access fault.
pub alloc_user_page_lem :
    (pd virt : ℕ) (m : Machine)
    → IsValid m.pmm
    → IsDirectory pd virt m
    → Outcome pd virt m (alloc_user_page pd virt m)
unfolding IsFull
alloc_user_page_lem pd virt m v d = elim (Bool-cases (present (m.mem (entry pd (pdi virt))))) [
  | inl p ↦
      subst (Outcome pd virt m)
        (sym (alloc_user_page-linked pd virt m m d.reachable (ensure_table-present pd virt m p)))
        (map_frame_lem pd virt m v d.null_used
          (entries-apart pd (m.mem (entry pd (pdi virt))) virt d.aligned d.in_space (d.apart p)) p
          d.free_reachable (d.table p))
  | inr p ↦ elim (alloc_frame_lem v) [
    | inl r ↦
        let e =
          alloc_user_page-refused pd virt m _ d.reachable
            (ensure_table-refused pd virt m p r.nothing) in
        inl (
          ap (λ x. x.0) e,
          (λ g l. rw (e, r.unchanged) (r.none_free g (omega arith) l)),
          ap (λ x. x.1.faulted) e,
        )
    | inr (k, t) ↦
        let ne = differ m.pmm d.null_used t.was_free in
        subst (Outcome pd virt m)
          (sym (
            alloc_user_page-linked pd virt m _ d.reachable (
              ensure_table-took pd virt k m p t.address ne d.aligned d.in_space d.reachable
                (Took-reachable k t d.free_reachable))))
          (map_frame-with_table pd virt k m d t)
  ]
]
