-- ===== src/Process/Turns.antt =====
-- process_yield and the turns of the processes.
use native.Mathlib.Decide.{ℕ_discrete}
use vesper_os.Prelude.{
  ℕ, ◌+◌, ◌<◌, ◌≡◌, refl, sym, ap, ◌∙◌, inl, inr, Bool, false, ◌&&◌, Option, none, some, List, [],
  ◌∷◌, length, length-set, get_or, get_or-set_self, get_or-set_ne, ◌==◌, if◌then◌else◌, Bool-cases,
  arith,
}
use vesper_os.Process.{
  Kernel, Proc, Link, ready, running, has, proc, blank, max_processes, find_slot, or_idle,
  sched_next, sched_from, runnable, yield, save_esp, before_switch,
}
use vesper_os.Process.Sched.{IsValid, sched_from_lem, get_or-set, state→has}

pub procs-before_switch :
    (link : Link) (i : ℕ) (k : Kernel) → (before_switch link i k).procs ≡ k.procs
unfolding before_switch
procs-before_switch link i k = ground arith

pub current-before_switch :
    (link : Link) (i : ℕ) (k : Kernel) → (before_switch link i k).current ≡ k.current
unfolding before_switch
current-before_switch link i k = ground arith

-- Saving the stack pointer of the caller changes no state.
module _ (esp : ℕ) (k : Kernel) (slots : length k.procs ≡ max_processes) where
  pub save_esp_state :
      (o : Option ℕ)
      → ((i : ℕ) → o ≡ some i → i < max_processes)
      → (j : ℕ) → (proc (save_esp o esp k) j).state ≡ (proc k j).state
  unfolding save_esp
  save_esp_state none h j = refl
  save_esp_state (some curr) h j =
      let p = record (proc k curr) { esp = esp } in
      ground (arith, h curr refl, slots, get_or-set k.procs curr j p)

  save_esp_slots : (o : Option ℕ) → length (save_esp o esp k).procs ≡ max_processes
  unfolding save_esp
  save_esp_slots none = slots
  save_esp_slots (some curr) = length-set k.procs curr _ ∙ slots

  pub save_esp_current : (o : Option ℕ) → (save_esp o esp k).current ≡ k.current
  unfolding save_esp
  save_esp_current none = refl
  save_esp_current (some curr) = refl

pub save_esp-IsValid : (esp : ℕ) {k : Kernel} → IsValid k → IsValid (save_esp k.current esp k)
save_esp-IsValid esp {k} v =
    let same = save_esp_current esp k v.slots k.current in
    record {
      slots = save_esp_slots esp k v.slots k.current;
      in_table = λ i e. v.in_table i (sym same ∙ e);
      one_runs = λ i l r.
          same ∙ v.one_runs i l (sym (save_esp_state esp k v.slots k.current v.in_table i) ∙ r);
    }

-- What matters of a switch: one slot runs, and it is the one that is returned.
pub record OneRuns (i : ℕ) (k : Kernel) : Type 0 where
  pub slots : length k.procs ≡ max_processes
  pub in_table : i < max_processes
  pub runs : (proc k i).state ≡ running
  pub alone : (j : ℕ) → j < max_processes → (proc k j).state ≡ running → j ≡ i

find_slot_lt :
    (test : Proc → Bool) (i : ℕ) (ps : List Proc)
    → 0 < i + length ps
    → or_idle (find_slot test i ps) < i + length ps
unfolding find_slot
find_slot_lt test i [] h = h
find_slot_lt test i (p ∷ ps) h = ground (arith, find_slot_lt test (i + 1) ps)

-- Two slots that claim to run beside the caller are one.
module _ {k : Kernel} (v : IsValid k) (curr : ℕ) (c : k.current ≡ some curr) where
  not_both :
      (j : ℕ)
      → j < max_processes
      → (if j == curr && has running (proc k curr) then ready else (proc k j).state) ≡ running
      → ⊥
  not_both j l r = elim (Bool-cases (j == curr && has running (proc k curr))) [
    | inl b ↦ clash (rw b at r)
    | inr b ↦ mine (rw b at r) b
  ]
    where
      clash : ready ≡ running → ⊥
      clash e = cc

      mine : (proc k j).state ≡ running → (j == curr && has running (proc k curr)) ≡ false → ⊥
      mine e b =
          let here : some j ≡ some curr = sym (v.one_runs j l e) ∙ c in
          let q : j ≡ curr = cc in ground (arith, state→has running (proc k curr) (rw (← q) e))

pub sched_from-OneRuns :
    (o : Option ℕ) {k : Kernel}
    → IsValid k
    → k.current ≡ o
    → OneRuns (sched_from o k).0 (sched_from o k).1
unfolding sched_from
sched_from-OneRuns none {k} v c =
    let i = or_idle (find_slot runnable 0 k.procs) in
    let room : i < length k.procs =
      omega (arith, find_slot_lt runnable 0 k.procs (omega (arith, v.slots)), v.slots) in
    let p = record (proc k i) { state = running } in
    record {
      slots = length-set k.procs i p ∙ v.slots;
      in_table = omega (arith, room, v.slots);
      runs = ap (λ r. r.state) (get_or-set_self k.procs i p blank room);
      alone = λ j l r. elim (ℕ_discrete j i) [
        | yes e ↦ e
        | no ne ↦
            let old : (proc k j).state ≡ running =
              ap (λ r. r.state) (sym (get_or-set_ne k.procs i j p blank (λ e. ne (sym e)))) ∙ r in
            let clash : none ≡ some j = sym c ∙ v.one_runs j l old in cc
      ];
    }
sched_from-OneRuns (some curr) {k} v c =
    let s = sched_from_lem k curr v (v.in_table curr c) in
    record {
      slots = s.slots;
      in_table = s.in_table;
      runs = s.runs;
      alone = λ j l r. elim (ℕ_discrete j (sched_from (some curr) k).0) [
        | yes e ↦ e
        | no ne ↦ absurd (not_both v curr c j l (sym (s.others j ne) ∙ r))
      ];
    }

-- After process_yield on a valid table the table is valid, some process is current, and it is
-- running.
pub yield_lem :
    (link : Link) (esp : ℕ) {k : Kernel}
    → IsValid k
    → let k' = (yield link esp k).1 in
      (i : ℕ) × IsValid k' × (k'.current ≡ some i) × ((proc k' i).state ≡ running)
unfolding yield sched_next
yield_lem link esp {k} v =
    let saved = save_esp-IsValid esp v in
    let t = save_esp k.current esp k in
    let run = sched_from-OneRuns t.current saved refl in
    let i = (sched_from t.current t).0 in
    let k' = record (sched_from t.current t).1 { current = some i } in
    let procs = procs-before_switch link i k' in
    let cur = current-before_switch link i k' in
    (
      i,
      record {
        slots = rw procs run.slots;
        in_table = λ j e.
            let both : some i ≡ some j = sym cur ∙ e in
            let same : i ≡ j = cc in omega (arith, same, run.in_table);
        one_runs = λ j l r.
            let old : (get_or k'.procs j blank).state ≡ running =
              ap (λ ps. (get_or ps j blank).state) (sym procs) ∙ r in
            cur ∙ ap some (sym (run.alone j l old));
      },
      cur,
      rw procs run.runs,
    )
