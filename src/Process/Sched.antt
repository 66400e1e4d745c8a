-- ===== src/Process/Sched.antt =====
-- The round-robin scheduler of kernel/process.c: sched_next and process_yield.
use native.Mathlib.Decide.{ℕ_discrete}
use vesper_os.Prelude.{
  ℕ, zero, suc, ◌+◌, ◌%◌, ◌≤◌, ◌<◌, ◌≡◌, ◌≢◌, refl, sym, ap, ◌∙◌, ◌⊎◌, inl, inr, true, false, ◌&&◌,
  none, some, List, length, length-set, get_or, get_or-set_self, get_or-set_ne, set, ◌==◌,
  if◌then◌else◌, Bool-cases, arith,
}
use vesper_os.Process.{
  Kernel, Proc, ProcState, ready, running, state_code, has, proc, blank, set_state, max_processes,
  next_ready, or_idle, preempt, sched_from,
}

-- The table of processes after a write to slot `i`.
pub get_or-set :
    (ps : List Proc) (i j : ℕ) (p : Proc)
    → i < length ps
    → get_or (set ps i p) j blank ≡ (if j == i then p else get_or ps j blank)
get_or-set ps i j p h = elim (ℕ_discrete i j) [
  | yes e ↦ rw (← e) (ground (arith, get_or-set_self ps i p blank))
  | no ne ↦ ground (arith, get_or-set_ne ps i j p blank ne)
]

-- The table has 16 slots, current_process points into it, and no other process is running.
pub record IsValid (k : Kernel) : Type 0 where
  pub slots : length k.procs ≡ max_processes
  pub in_table : (i : ℕ) → k.current ≡ some i → i < max_processes
  pub one_runs : (i : ℕ) → i < max_processes → (proc k i).state ≡ running → k.current ≡ some i

same_code : (a b : ProcState) → state_code a ≡ state_code b → a ≡ b
same_code a b h = ground arith

pub has→state : (st : ProcState) (p : Proc) → has st p ≡ true → p.state ≡ st
has→state st p h = same_code p.state st (ground arith)

pub state→has : (st : ProcState) (p : Proc) → p.state ≡ st → has st p ≡ true
state→has st p h = rw h (ground arith)

-- What the loop of sched_next finds in the rounds from `i` on.
pub record Found (i stop curr : ℕ) (ps : List Proc) (idx d : ℕ) : Type 0 where
  pub from : i ≤ d
  pub upto : d < stop
  pub place : idx ≡ (curr + d) % max_processes
  pub is_ready : has ready (get_or ps idx blank) ≡ true
  pub nearest :
      (e : ℕ) → i ≤ e → e < d → has ready (get_or ps ((curr + e) % max_processes) blank) ≡ false

next_ready_lem :
    (n i curr : ℕ) (ps : List Proc)
    → ((next_ready n i curr ps ≡ none)
        × ((e : ℕ)
            → i ≤ e
            → e < n + i
            → has ready (get_or ps ((curr + e) % max_processes) blank) ≡ false))
      ⊎ ((idx : ℕ) × (d : ℕ) × (next_ready n i curr ps ≡ some idx) × Found i (n + i) curr ps idx d)
unfolding next_ready
next_ready_lem zero i curr ps = inl (refl, λ e a b. absurd (omega arith))
next_ready_lem (suc n) i curr ps =
    elim (Bool-cases (has ready (get_or ps ((curr + i) % max_processes) blank))) [
      | inl r ↦ inr (
        (curr + i) % max_processes,
        i,
        rw r,
        record {
          from = omega arith;
          upto = omega arith;
          place = refl;
          is_ready = r;
          nearest = λ e a b. absurd (omega arith);
        },
      )
      | inr r ↦ rw (r, next_ready) (later r (next_ready_lem n (i + 1) curr ps))
    ]
  where
    here :
        (e : ℕ)
        → has ready (get_or ps ((curr + i) % max_processes) blank) ≡ false
        → ((e : ℕ)
            → i + 1 ≤ e
            → e < n + (i + 1)
            → has ready (get_or ps ((curr + e) % max_processes) blank) ≡ false)
        → i ≤ e
        → e < suc n + i
        → has ready (get_or ps ((curr + e) % max_processes) blank) ≡ false
    here e r h a b = elim (ℕ_discrete e i) [
      | yes q ↦ rw q r
      | no q ↦ h e (omega arith) (omega arith)
    ]

    later :
        has ready (get_or ps ((curr + i) % max_processes) blank) ≡ false
        → ((next_ready n (i + 1) curr ps ≡ none)
            × ((e : ℕ)
                → i + 1 ≤ e
                → e < n + (i + 1)
                → has ready (get_or ps ((curr + e) % max_processes) blank) ≡ false))
          ⊎ ((idx : ℕ) × (d : ℕ) × (next_ready n (i + 1) curr ps ≡ some idx)
              × Found (i + 1) (n + (i + 1)) curr ps idx d)
        → ((next_ready n (i + 1) curr ps ≡ none)
            × ((e : ℕ)
                → i ≤ e
                → e < suc n + i
                → has ready (get_or ps ((curr + e) % max_processes) blank) ≡ false))
          ⊎ ((idx : ℕ) × (d : ℕ) × (next_ready n (i + 1) curr ps ≡ some idx)
              × Found i (suc n + i) curr ps idx d)
    later r (inl (e, h)) = inl (e, λ g a b. here g r h a b)
    later r (inr (idx, d, e, f)) = inr (
      idx,
      d,
      e,
      record {
        from = omega (arith, f.from);
        upto = omega (arith, f.upto);
        place = f.place;
        is_ready = f.is_ready;
        nearest =
            λ g a b. elim (ℕ_discrete g i) [ yes q ↦ rw q r | no q ↦ f.nearest g (omega arith) b ];
      },
    )

-- The table after the running process gave way: its slot is ready if it was running.
module _ (k : Kernel) (curr : ℕ) (v : IsValid k) (l : curr < max_processes) where
  pub preempt_state :
      (j : ℕ)
      → (proc (preempt curr k) j).state
        ≡ (if j == curr && has running (proc k curr) then ready else (proc k j).state)
  unfolding preempt
  preempt_state j =
      ground (arith, get_or-set k.procs curr j (record (proc k curr) { state = ready }), v.slots)

  length-preempt : length (preempt curr k).procs ≡ max_processes
  unfolding preempt
  length-preempt =
      ground (arith, v.slots, length-set k.procs curr (record (proc k curr) { state = ready }))

  current-preempt : (preempt curr k).current ≡ k.current
  unfolding preempt
  current-preempt = ground arith

-- What sched_next does for the process in slot `curr`: it makes slot `i` running, the caller ready
-- if it was running, and changes no other state. Slot `i` is the nearest ready one after the
-- caller in the order of the table, or slot 0 if none is ready.
pub record Scheduled (k : Kernel) (curr i : ℕ) (k' : Kernel) : Type 0 where
  pub slots : length k'.procs ≡ max_processes
  pub in_table : i < max_processes
  pub runs : (proc k' i).state ≡ running
  pub others :
      (j : ℕ)
      → j ≢ i
      → (proc k' j).state
        ≡ (if j == curr && has running (proc k curr) then ready else (proc k j).state)
  pub turn :
      ((d : ℕ) × Found 1 17 curr (preempt curr k).procs i d)
      ⊎ ((i ≡ 0)
          × ((e : ℕ)
              → 1 ≤ e
              → e < 17
              → has ready (proc (preempt curr k) ((curr + e) % max_processes)) ≡ false))

pub set_state-Scheduled :
    (k : Kernel) (curr i : ℕ)
    → IsValid k
    → curr < max_processes
    → i < max_processes
    → ((d : ℕ) × Found 1 17 curr (preempt curr k).procs i d)
      ⊎ ((i ≡ 0)
          × ((e : ℕ)
              → 1 ≤ e
              → e < 17
              → has ready (proc (preempt curr k) ((curr + e) % max_processes)) ≡ false))
    → Scheduled k curr i (set_state i running (preempt curr k))
set_state-Scheduled k curr i v l li t =
    let q = preempt curr k in
    let p = record (proc q i) { state = running } in
    let room : i < length q.procs = omega (arith, length-preempt k curr v l) in
    record {
      slots = length-set q.procs i p ∙ length-preempt k curr v l;
      in_table = li;
      runs = ap (λ r. r.state) (get_or-set_self q.procs i p blank room);
      others = λ j ne.
          ap (λ r. r.state) (get_or-set_ne q.procs i j p blank (λ e. ne (sym e)))
          ∙ preempt_state k curr v l j;
      turn = t;
    }

-- sched_next for the current process of a valid table.
pub sched_from_lem :
    (k : Kernel) (curr : ℕ)
    → IsValid k
    → curr < max_processes
    → Scheduled k curr (sched_from (some curr) k).0 (sched_from (some curr) k).1
unfolding sched_from
sched_from_lem k curr v l = go (next_ready_lem max_processes 1 curr (preempt curr k).procs)
  where
    go :
        ((next_ready max_processes 1 curr (preempt curr k).procs ≡ none)
            × ((e : ℕ)
                → 1 ≤ e
                → e < 17
                → has ready (proc (preempt curr k) ((curr + e) % max_processes)) ≡ false))
          ⊎ ((idx : ℕ) × (d : ℕ) × (next_ready max_processes 1 curr (preempt curr k).procs
                ≡ some idx)
              × Found 1 17 curr (preempt curr k).procs idx d)
        → Scheduled k curr (or_idle (next_ready max_processes 1 curr (preempt curr k).procs)) (
            set_state
              (or_idle (next_ready max_processes 1 curr (preempt curr k).procs))
              running
              (preempt curr k))
    go (inl (e, h)) = rw e (set_state-Scheduled k curr 0 v l (omega arith) (inr (refl, h)))
    go (inr (idx, d, e, f)) =
        rw e (set_state-Scheduled k curr idx v l (omega (arith, f.place)) (inl (d, f)))
