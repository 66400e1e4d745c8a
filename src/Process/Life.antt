-- ===== src/Process/Life.antt =====
-- The start and the end of one process: process_init, process_create and process_kill.
use vesper_os.Prelude.{
  ℕ, ◌+◌, ◌*◌, ◌%◌, ◌^◌, ◌<◌, ◌≡◌, ◌≢◌, refl, sym, ap, ◌∙◌, ◌⊎◌, inl, inr, false, Option,
  Option-cases, none, some, List, [], ◌∷◌, map, length, length-map, get_or-map, get_or,
  get_or-set_self, get_or-set_ne, set, ◌==◌, if◌then◌else◌, arith, take,
}
use vesper_os.Prelude.Int.{pos, negsuc}
use vesper_os.Strings.Compare.{text, text-set-strncpy}
use vesper_os.Paging
use vesper_os.Paging.{Machine}
use vesper_os.Process.{
  Kernel, Proc, Link, unused, ready, running, zombie, has, proc, blank, max_processes, find_slot,
  alloc_slot, create, build_initial_kstack, kstack_top, kill, killable, init, reset_slot, idle_name,
}
use vesper_os.Process.Sched.{IsValid, has→state}
use vesper_os.Process.Slots.{Finds, find_slot_lem}
use vesper_os.Process.Steps.{Keeps-IsValid, create-Keeps}

-- process_create took slot `i`.
pub record Created (link : Link) (name : List ℕ) (fn : ℕ) (k : Kernel) (i : ℕ) (k' : Kernel)
    : Type 0 where
  pub in_table : i < length k.procs
  pub was_unused : (proc k i).state ≡ unused
  pub lowest : (j : ℕ) → j < i → has unused (proc k j) ≡ false
  pub is_ready : (proc k' i).state ≡ ready
  pub pid : (proc k' i).pid ≡ (k.next_pid + 1) % 2 ^ 32
  pub next_pid : k'.next_pid ≡ (k.next_pid + 1) % 2 ^ 32
  pub own_directory : (proc k' i).pd_phys ≡ 0
  pub esp : (proc k' i).esp + 4 * length (proc k' i).kstack ≡ link.process_table + 8252 * (i + 1)
  pub entry : (proc k' i).kstack ≡ 0 ∷ 0 ∷ 0 ∷ 0 ∷ fn ∷ []
  pub named : length (proc k i).name ≡ 32 → text (proc k' i).name ≡ take 31 (text name)
  pub others : (j : ℕ) → j ≢ i → proc k' j ≡ proc k j
  pub same_current : k'.current ≡ k.current

-- process_create either finds no unused slot, returns NULL and changes nothing; or it takes the
-- lowest one for a ready process under the next PID, whose name is the given text cut at 31
-- bytes and whose ESP points at four zeros and the given function as the return address, the last words
-- of the slot; and changes no other slot.
pub create_lem :
    (link : Link) (name : List ℕ) (fn : ℕ) (k : Kernel)
    → ((create link name fn k ≡ (none, k))
        × ((j : ℕ) → j < length k.procs → has unused (proc k j) ≡ false))
      ⊎ ((i : ℕ) × ((create link name fn k).0 ≡ some i)
          × Created link name fn k i (create link name fn k).1)
unfolding create alloc_slot build_initial_kstack kstack_top
create_lem link name fn k =
    go (find_slot (has unused) 0 k.procs) (find_slot_lem (has unused) k.procs) refl
  where
    go :
        (o : Option ℕ)
        → Finds (has unused) k.procs o
        → alloc_slot k ≡ o
        → ((create link name fn k ≡ (none, k))
            × ((j : ℕ) → j < length k.procs → has unused (proc k j) ≡ false))
          ⊎ ((i : ℕ) × ((create link name fn k).0 ≡ some i)
              × Created link name fn k i (create link name fn k).1)
    go none f e = rw (e, create) (inl (refl, f))
    go (some i) (l, u, low) e =
        let at : (p : Proc) → get_or (set k.procs i p) i blank ≡ p =
          λ p. get_or-set_self k.procs i p blank l in
        rw (e, create)
          (inr (
            i,
            refl,
            record {
              in_table = l;
              was_unused = has→state unused (proc k i) u;
              lowest = low;
              is_ready = ap (λ p. p.state) (at _);
              pid = ap (λ p. p.pid) (at _);
              next_pid = refl;
              own_directory = ap (λ p. p.pd_phys) (at _);
              esp = ap (λ p. p.esp + 4 * length p.kstack) (at _) ∙ omega arith;
              entry = ap (λ p. p.kstack) (at _);
              named =
                  λ h. ap (λ p. text p.name) (at _) ∙ text-set-strncpy (proc k i).name name 31 h;
              others = λ j ne. get_or-set_ne k.procs i j _ blank (λ x. ne (sym x));
              same_current = refl;
            },
          ))

-- process_kill ended the process in slot `i`.
pub record Killed (pid : ℕ) (k : Kernel) (i : ℕ) (k' : Kernel) : Type 0 where
  pub in_table : i < length k.procs
  pub target : (proc k i).pid ≡ pid
  pub was_used : (proc k i).state ≢ unused
  pub was_alive : (proc k i).state ≢ zombie
  pub is_zombie : (proc k' i).state ≡ zombie
  pub no_directory : (proc k' i).pd_phys ≡ 0
  pub freed : k'.machine ≡ (
      if (proc k i).pd_phys == 0 then k.machine else Paging.destroy_pd (proc k i).pd_phys k.machine)
  pub others : (j : ℕ) → j ≢ i → proc k' j ≡ proc k j
  pub same_current : k'.current ≡ k.current

-- process_kill either finds no live process with the PID, returns -1 and changes nothing; or it
-- returns 0, makes one live process with that PID a zombie, destroys its page directory if it has
-- one, and changes no other slot.
pub kill_lem :
    (pid : ℕ) (k : Kernel)
    → ((kill pid k ≡ (negsuc 0, k))
        × ((j : ℕ) → j < length k.procs → killable pid (proc k j) ≡ false))
      ⊎ ((i : ℕ) × ((kill pid k).0 ≡ pos 0) × Killed pid k i (kill pid k).1)
unfolding kill
kill_lem pid k = go (find_slot (killable pid) 0 k.procs) (find_slot_lem (killable pid) k.procs) refl
  where
    go :
        (o : Option ℕ)
        → Finds (killable pid) k.procs o
        → find_slot (killable pid) 0 k.procs ≡ o
        → ((kill pid k ≡ (negsuc 0, k))
            × ((j : ℕ) → j < length k.procs → killable pid (proc k j) ≡ false))
          ⊎ ((i : ℕ) × ((kill pid k).0 ≡ pos 0) × Killed pid k i (kill pid k).1)
    go none f e = rw (e, kill) (inl (refl, f))
    go (some i) (l, u, low) e =
        let at : (p : Proc) → get_or (set k.procs i p) i blank ≡ p =
          λ p. get_or-set_self k.procs i p blank l in
        rw (e, kill)
          (inr (
            i,
            refl,
            record {
              in_table = l;
              target = ground (arith, u);
              was_used = λ x. ground (arith, u);
              was_alive = λ x. ground (arith, u);
              is_zombie = ap (λ p. p.state) (at _);
              no_directory = ap (λ p. p.pd_phys) (at _);
              freed = refl;
              others = λ j ne. get_or-set_ne k.procs i j _ blank (λ x. ne (sym x));
              same_current = refl;
            },
          ))

-- process_init of a table of 16 slots, before any process runs, leaves it valid.
pub process_init-IsValid :
    (link : Link) (k : Kernel)
    → length k.procs ≡ max_processes
    → k.current ≡ none
    → IsValid (init link k)
unfolding init
process_init-IsValid link k slots idle =
    Keeps-IsValid (create-Keeps link idle_name link.idle_process_fn _) record {
      slots = length-map k.procs reset_slot ∙ slots;
      in_table = λ i e. let clash : none ≡ some i = sym idle ∙ e in absurd (cc);
      one_runs = λ i l r. absurd (stopped i r);
    }
  where
    stopped : (i : ℕ) → (get_or (map reset_slot k.procs) i blank).state ≡ running → ⊥
    stopped i r =
        let e : unused ≡ running =
          sym (ap (λ p. p.state) (get_or-map k.procs reset_slot i blank)) ∙ r in
        cc

-- process_init leaves the machine alone.
pub process_init_machine : (link : Link) (k : Kernel) → (init link k).machine ≡ k.machine
unfolding init create alloc_slot
process_init_machine link k =
    let k' = record k { procs = map reset_slot k.procs; next_pid = 0 } in
    elim (Option-cases (alloc_slot k')) [
      | inl e ↦ rw (e, init, create) refl
      | inr (i, e) ↦ rw (e, init, create) refl
    ]
