-- ===== src/Process/Tests.antt =====
-- Runs of the scheduler, and its theorems at inputs that meet their hypotheses.
use vesper_os.Prelude.{
  ℕ, zero, suc, ◌≤◌, ◌<◌, ◌≡◌, ◌≢◌, refl, ◌⊎◌, true, false, none, some, [], ◌∷◌, length, replicate,
  get_or, ltb, take, arith,
}
use vesper_os.Prelude.Int.{pos, negsuc}
use vesper_os.Paging.{Machine}
use vesper_os.Process.{
  Kernel, Proc, Link, unused, ready, running, has, proc, blank, max_processes, create, kill,
  killable, init, alloc_slot, find_slot,
}
use vesper_os.Process.Sched.{IsValid}
use vesper_os.Process.Fair.{yields, yields_reach}
use vesper_os.Process.Steps.{Reach, here, next, kills, Reach-IsValid, create_exhausted}
use vesper_os.Process.Life.{Created, create_lem, Killed, kill_lem}

abbrev pub no_machine : Machine
no_machine = record {
  mem = λ a. 0;
  cr3 = 0x20000;
  paging_on = true;
  faulted = false;
  pmm = record { bitmap = []; free = 0; total = 0 };
}

abbrev pub link : Link
link = record {
  layout = record { page_directory = 0x20000; page_tables = 0x21000 };
  process_table = 0x30000;
  user_mode_enter = 0x1500;
  idle_process_fn = 0x1400;
  reserved = λ a. ltb a 0x100000;
}

abbrev pub power_on : Kernel
power_on = record {
  procs = replicate 16 blank;
  current = none;
  next_pid = 0;
  esp0 = 0x90000;
  machine = no_machine;
}

abbrev pub booted : Kernel
booted = init link power_on

create_lem_example :
    ((create link (b'a' ∷ []) 0x5000 booted ≡ (none, booted))
      × ((j : ℕ) → j < length booted.procs → has unused (proc booted j) ≡ false))
    ⊎ ((i : ℕ) × ((create link (b'a' ∷ []) 0x5000 booted).0 ≡ some i)
        × Created link (b'a' ∷ []) 0x5000 booted i (create link (b'a' ∷ []) 0x5000 booted).1)
create_lem_example = create_lem link (b'a' ∷ []) 0x5000 booted

kill_lem_example :
    ((kill 1 booted ≡ (negsuc 0, booted))
      × ((j : ℕ) → j < length booted.procs → killable 1 (proc booted j) ≡ false))
    ⊎ ((i : ℕ) × ((kill 1 booted).0 ≡ pos 0) × Killed 1 booted i (kill 1 booted).1)
kill_lem_example = kill_lem 1 booted

-- The idle process is slot 0, with PID 1; `kill 1` ends it.
kill_idle : (kill 1 booted).0 ≡ pos 0
unfolding kill find_slot init create alloc_slot
kill_idle = refl

-- A full table: slot 3 runs, all others are ready.
abbrev busy : Proc
busy = record blank { state = ready; pid = 7 }

abbrev pub crowd : Kernel
crowd = record power_on {
  procs = busy ∷ busy ∷ busy ∷ record busy { state = running } ∷ replicate 12 busy;
  current = some 3;
}

ne_running :
    (n i : ℕ) (p : Proc) → p.state ≢ running → (get_or (replicate n p) i blank).state ≢ running
ne_running zero i p h e = cc
ne_running (suc n) zero p h e = h e
ne_running (suc n) (suc i) p h e = ne_running n i p h e

all_busy : (n i : ℕ) → i < n → (get_or (replicate n busy) i blank).state ≢ unused
all_busy zero i l e = elim l [ ]
all_busy (suc n) zero l e = cc
all_busy (suc n) (suc i) l e = all_busy n i (omega arith) e

pub crowd-IsValid : IsValid crowd
crowd-IsValid = record {
  slots = refl;
  in_table = λ i e. ground arith;
  one_runs = λ i l r. only i r;
}
  where
    only : (i : ℕ) → (proc crowd i).state ≡ running → crowd.current ≡ some i
    only zero r = cc
    only (suc zero) r = cc
    only (suc (suc zero)) r = cc
    only (suc (suc (suc zero))) r = refl
    only (suc (suc (suc (suc i)))) r = absurd (ne_running 12 i busy (λ e. cc) r)

yields_reach_example :
    (m : ℕ) × (m ≤ 15) × ((yields link (take m (replicate 15 0x8000)) crowd).current ≡ some 2)
yields_reach_example =
    yields_reach link 15 (replicate 15 0x8000) 3 2 crowd-IsValid refl (omega arith) (omega arith)
      refl (omega arith) (omega arith)

one_step : Reach link crowd (kill 7 crowd).1
one_step = next here (kills crowd 7)

Reach-IsValid_example : IsValid (kill 7 crowd).1
Reach-IsValid_example = Reach-IsValid one_step crowd-IsValid

crowd_full : (i : ℕ) → i < max_processes → (proc crowd i).state ≢ unused
crowd_full zero l e = cc
crowd_full (suc zero) l e = cc
crowd_full (suc (suc zero)) l e = cc
crowd_full (suc (suc (suc zero))) l e = cc
crowd_full (suc (suc (suc (suc i)))) l e = all_busy 12 i (omega arith) e

create_exhausted_example :
    create link (b'a' ∷ []) 0x5000 (kill 7 crowd).1 ≡ (none, (kill 7 crowd).1)
create_exhausted_example = create_exhausted (b'a' ∷ []) 0x5000 crowd-IsValid crowd_full one_step

power_on-IsValid : IsValid power_on
power_on-IsValid = record {
  slots = refl;
  in_table = λ i e. absurd (cc);
  one_runs = λ i l r. absurd (ne_running 16 i blank (λ e. cc) r);
}
