-- ===== src/Process/Steps.antt =====
-- The operations of kernel/process.c as steps, and what every history of them keeps.
use native.Mathlib.Decide.{ℕ_discrete}
use vesper_os.Prelude.{
  ℕ, ◌<◌, ◌≡◌, ◌≢◌, refl, sym, ap, ◌∙◌, inl, inr, Option, none, some, List, length, length-set,
  length-map, get_or-map, get_or, get_or-set_self, get_or-set_ne, set, if◌then◌else◌, Bool-cases,
  arith,
}
use vesper_os.Process.{
  Kernel, Proc, Link, ProcState, unused, ready, running, blocked, has, proc, blank, max_processes,
  find_slot, alloc_slot, create, create_user, kill, killable, bury_current, exit, block_current,
  block, wake, wake_proc, wake_all_blocked, yield, sched_next, sched_from, save_esp, or_idle,
  runnable,
}
use vesper_os.Process.Sched.{IsValid, sched_from_lem, has→state}
use vesper_os.Process.Turns.{
  yield_lem, sched_from-OneRuns, save_esp-IsValid, save_esp_state, procs-before_switch,
}
use vesper_os.Process.Slots.{Finds, find_slot_lem}

-- What an operation other than a switch does to the table: current_process stays, the table keeps
-- its length, no slot starts to run and no slot becomes unused.
pub record Keeps (k k' : Kernel) : Type 0 where
  pub current : k'.current ≡ k.current
  pub slots : length k'.procs ≡ length k.procs
  pub no_start : (i : ℕ) → (proc k' i).state ≡ running → (proc k i).state ≡ running
  pub no_release : (i : ℕ) → (proc k' i).state ≡ unused → (proc k i).state ≡ unused

pub Keeps-IsValid : {k k' : Kernel} → Keeps k k' → IsValid k → IsValid k'
Keeps-IsValid h v = record {
  slots = h.slots ∙ v.slots;
  in_table = λ i e. v.in_table i (sym h.current ∙ e);
  one_runs = λ i l r. h.current ∙ v.one_runs i l (h.no_start i r);
}

Keeps-refl : (k : Kernel) → Keeps k k
Keeps-refl k = record { current = refl; slots = refl; no_start = λ i r. r; no_release = λ i r. r }

-- Writing slot `i` with a state that is neither running nor unused.
Keeps-put :
    {k k' : Kernel} (i : ℕ) (p : Proc)
    → k'.procs ≡ set k.procs i p
    → k'.current ≡ k.current
    → i < length k.procs
    → p.state ≢ running
    → p.state ≢ unused
    → Keeps k k'
Keeps-put {k} {k'} i p e c l nr nu = record {
  current = c;
  slots = ap length e ∙ length-set k.procs i p;
  no_start = λ j r. old running nr j (ap (λ ps. (get_or ps j blank).state) (sym e) ∙ r);
  no_release = λ j r. old unused nu j (ap (λ ps. (get_or ps j blank).state) (sym e) ∙ r);
}
  where
    old :
        (st : ProcState)
        → p.state ≢ st
        → (j : ℕ) → (get_or (set k.procs i p) j blank).state ≡ st
        → (proc k j).state ≡ st
    old st n j r = elim (ℕ_discrete j i) [
      | yes q ↦ absurd (n (rw (q, get_or-set_self k.procs i p blank l) at r))
      | no q ↦ ap (λ x. x.state) (sym (get_or-set_ne k.procs i j p blank (λ x. q (sym x)))) ∙ r
    ]

pub create-Keeps :
    (link : Link) (name : List ℕ) (fn : ℕ) (k : Kernel) → Keeps k (create link name fn k).1
unfolding create alloc_slot
create-Keeps link name fn k =
    go (find_slot (has unused) 0 k.procs) (find_slot_lem (has unused) k.procs) refl
  where
    go :
        (o : Option ℕ)
        → Finds (has unused) k.procs o
        → alloc_slot k ≡ o
        → Keeps k (create link name fn k).1
    go none f e = rw (e, create) (Keeps-refl k)
    go (some i) f e = rw (e, create) (Keeps-put i _ refl refl f.0 (λ x. cc) (λ x. cc))

create_user-Keeps :
    (link : Link) (name : List ℕ) (eip esp pd : ℕ) (k : Kernel)
    → Keeps k (create_user link name eip esp pd k).1
unfolding create_user alloc_slot
create_user-Keeps link name eip esp pd k =
    go (find_slot (has unused) 0 k.procs) (find_slot_lem (has unused) k.procs) refl
  where
    go :
        (o : Option ℕ)
        → Finds (has unused) k.procs o
        → alloc_slot k ≡ o
        → Keeps k (create_user link name eip esp pd k).1
    go none f e = rw (e, create_user) (Keeps-refl k)
    go (some i) f e = rw (e, create_user) (Keeps-put i _ refl refl f.0 (λ x. cc) (λ x. cc))

kill-Keeps : (pid : ℕ) (k : Kernel) → Keeps k (kill pid k).1
unfolding kill
kill-Keeps pid k =
    go (find_slot (killable pid) 0 k.procs) (find_slot_lem (killable pid) k.procs) refl
  where
    go :
        (o : Option ℕ)
        → Finds (killable pid) k.procs o
        → find_slot (killable pid) 0 k.procs ≡ o
        → Keeps k (kill pid k).1
    go none f e = rw (e, kill) (Keeps-refl k)
    go (some i) f e = rw (e, kill) (Keeps-put i _ refl refl f.0 (λ x. cc) (λ x. cc))

bury_current-Keeps :
    (o : Option ℕ) (k : Kernel)
    → ((i : ℕ) → o ≡ some i → i < length k.procs)
    → Keeps k (bury_current o k)
unfolding bury_current
bury_current-Keeps none k h = Keeps-refl k
bury_current-Keeps (some i) k h = Keeps-put i _ refl refl (h i refl) (λ x. cc) (λ x. cc)

block_current-Keeps :
    (o : Option ℕ) (k : Kernel)
    → ((i : ℕ) → o ≡ some i → i < length k.procs)
    → Keeps k (block_current o k)
unfolding block_current
block_current-Keeps none k h = Keeps-refl k
block_current-Keeps (some i) k h = Keeps-put i _ refl refl (h i refl) (λ x. cc) (λ x. cc)

wake-Keeps : (i : ℕ) (k : Kernel) → i < length k.procs → Keeps k (wake i k)
unfolding wake
wake-Keeps i k l = elim (Bool-cases (has blocked (proc k i))) [
  | inl e ↦ rw (e, wake) (Keeps-put i _ refl refl l (λ x. cc) (λ x. cc))
  | inr e ↦ rw (e, wake) (Keeps-refl k)
]

wake_state : (p : Proc) → (wake_proc p).state ≡ (if has blocked p then ready else p.state)
wake_state p = ground arith

wake_all_state :
    (k : Kernel) (i : ℕ)
    → (proc (wake_all_blocked k) i).state
      ≡ (if has blocked (proc k i) then ready else (proc k i).state)
unfolding wake_all_blocked
wake_all_state k i =
    ap (λ p. p.state) (get_or-map k.procs wake_proc i blank) ∙ wake_state (proc k i)

wake_all-Keeps : (k : Kernel) → Keeps k (wake_all_blocked k)
wake_all-Keeps k = record {
  current = unfold wake_all_blocked in refl;
  slots = unfold wake_all_blocked in length-map k.procs wake_proc;
  no_start = λ i r. ground (arith, wake_all_state k i);
  no_release = λ i r. ground (arith, wake_all_state k i);
}

sched_from-no_release :
    (o : Option ℕ) {k : Kernel}
    → IsValid k
    → k.current ≡ o
    → (j : ℕ) → (proc (sched_from o k).1 j).state ≡ unused
    → (proc k j).state ≡ unused
unfolding sched_from
sched_from-no_release none {k} v c j r =
    let i = or_idle (find_slot runnable 0 k.procs) in
    elim (ℕ_discrete j i) [
      | yes e ↦
          let runs = (sched_from-OneRuns none v c).runs in
          let r' : (proc (sched_from none k).1 (sched_from none k).0).state ≡ unused = rw e at r in
          ground arith
      | no ne ↦ ap (λ p. p.state) (sym (get_or-set_ne k.procs i j _ blank (λ e. ne (sym e)))) ∙ r
    ]
sched_from-no_release (some curr) {k} v c j r =
    let s = sched_from_lem k curr v (v.in_table curr c) in
    elim (ℕ_discrete j (sched_from (some curr) k).0) [
      | yes e ↦ ground (arith, s.runs)
      | no ne ↦ ground (arith, s.others j ne)
    ]

-- A switch starts one slot, and releases none.
yield-no_release :
    (link : Link) (esp : ℕ) (k : Kernel)
    → IsValid k
    → (j : ℕ) → (proc (yield link esp k).1 j).state ≡ unused
    → (proc k j).state ≡ unused
unfolding yield sched_next
yield-no_release link esp k v j r =
    let t = save_esp k.current esp k in
    let k' = record (sched_from t.current t).1 { current = some (sched_from t.current t).0 } in
    let r' : (proc (sched_from t.current t).1 j).state ≡ unused =
      ap (λ ps. (get_or ps j blank).state) (sym (procs-before_switch link _ k')) ∙ r in
    sym (save_esp_state esp k v.slots k.current v.in_table j)
    ∙ sched_from-no_release t.current (save_esp-IsValid esp v) refl j r'

-- One call into process.c.
pub data Step (link : Link) : Kernel → Kernel → Type 0 where
  creates : (k : Kernel) (name : List ℕ) (fn : ℕ) → Step link k (create link name fn k).1
  creates_user :
      (k : Kernel) (name : List ℕ) (eip esp pd : ℕ)
      → Step link k (create_user link name eip esp pd k).1
  yields : (k : Kernel) (esp : ℕ) → Step link k (yield link esp k).1
  exits : (k : Kernel) (esp : ℕ) → Step link k (exit link esp k).1
  kills : (k : Kernel) (pid : ℕ) → Step link k (kill pid k).1
  blocks : (k : Kernel) (esp : ℕ) → Step link k (block link esp k).1
  wakes : (k : Kernel) (i : ℕ) → i < max_processes → Step link k (wake i k)
  wakes_all : (k : Kernel) → Step link k (wake_all_blocked k)

pub data Reach (link : Link) (k : Kernel) : Kernel → Type 0 where
  here : Reach link k k
  next : {t u : Kernel} → Reach link k t → Step link t u → Reach link k u

-- What one step keeps.
record StepKeeps (k k' : Kernel) : Type 0 where
  valid : IsValid k'
  no_release : (i : ℕ) → (proc k' i).state ≡ unused → (proc k i).state ≡ unused

plain : {k k' : Kernel} → IsValid k → Keeps k k' → StepKeeps k k'
plain v h = record { valid = Keeps-IsValid h v; no_release = h.no_release }

switches :
    (link : Link) (esp : ℕ) {k k' : Kernel}
    → IsValid k
    → Keeps k k'
    → StepKeeps k (yield link esp k').1
switches link esp {k} {k'} v h =
    let w = Keeps-IsValid h v in
    record {
      valid = (yield_lem link esp w).1;
      no_release = λ i r. h.no_release i (yield-no_release link esp k' w i r);
    }

Step-keeps : {link : Link} {k k' : Kernel} → Step link k k' → IsValid k → StepKeeps k k'
unfolding exit block
Step-keeps {link} (creates k name fn) v = plain v (create-Keeps link name fn k)
Step-keeps {link} (creates_user k name eip esp pd) v =
    plain v (create_user-Keeps link name eip esp pd k)
Step-keeps {link} (yields k esp) v = switches link esp v (Keeps-refl k)
Step-keeps {link} (exits k esp) v =
    switches link esp v
      (bury_current-Keeps k.current k (λ i e. omega (arith, v.in_table i e, v.slots)))
Step-keeps (kills k pid) v = plain v (kill-Keeps pid k)
Step-keeps {link} (blocks k esp) v =
    switches link esp v
      (block_current-Keeps k.current k (λ i e. omega (arith, v.in_table i e, v.slots)))
Step-keeps (wakes k i l) v = plain v (wake-Keeps i k (omega (arith, v.slots)))
Step-keeps (wakes_all k) v = plain v (wake_all-Keeps k)

-- A history of calls that starts from a valid table ends in a valid one: it has 16 slots, the
-- current process is one of them, and no other slot is running.
pub Reach-IsValid : {link : Link} {k k' : Kernel} → Reach link k k' → IsValid k → IsValid k'
Reach-IsValid here v = v
Reach-IsValid (next r s) v = (Step-keeps s (Reach-IsValid r v)).valid

-- No history gives a slot back: a slot that is unused at its end was unused at its start. The
-- slots of processes that exited or were killed are never used again.
pub Reach-no_release :
    {link : Link} {k k' : Kernel} (i : ℕ)
    → IsValid k
    → Reach link k k'
    → (proc k' i).state ≡ unused
    → (proc k i).state ≡ unused
Reach-no_release i v here r = r
Reach-no_release i v (next h s) r =
    Reach-no_release i v h ((Step-keeps s (Reach-IsValid h v)).no_release i r)

-- From a valid table without an unused slot, process_create returns NULL and changes nothing after
-- every history of calls, those that end processes included.
pub create_exhausted :
    {link : Link} {k k' : Kernel} (name : List ℕ) (fn : ℕ)
    → IsValid k
    → ((i : ℕ) → i < max_processes → (proc k i).state ≢ unused)
    → Reach link k k'
    → create link name fn k' ≡ (none, k')
unfolding alloc_slot create
create_exhausted {link} {k} {k'} name fn v full r =
    create_full (find_slot (has unused) 0 k'.procs) (find_slot_lem (has unused) k'.procs) refl
  where
    create_full :
        (o : Option ℕ)
        → Finds (has unused) k'.procs o
        → alloc_slot k' ≡ o
        → create link name fn k' ≡ (none, k')
    create_full none f e = rw (e, create) refl
    create_full (some i) f e = absurd (
        full i (omega (arith, f.0, (Reach-IsValid r v).slots))
          (Reach-no_release i v r (has→state unused (proc k' i) f.1)))
