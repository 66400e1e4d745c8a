-- ===== src/Process/Fair.antt =====
-- No ready process waits forever: the turns of process_yield go round the table.
use native.Mathlib.Decide.{ℕ_discrete, dec_lt}
use vesper_os.Prelude.{
  ℕ, zero, suc, ◌+◌, ◌-◌, ◌%◌, ◌≤◌, ◌<◌, ◌≡◌, ◌≢◌, sym, ap, ◌∙◌, ◌⊎◌, inl, inr, true, false, Option,
  some, List, [], ◌∷◌, length, take, arith,
}
use vesper_os.Process.{
  Kernel, Link, ready, has, proc, max_processes, preempt, sched_next, sched_from, yield, save_esp,
  before_switch,
}
use vesper_os.Process.Sched.{IsValid, Scheduled, Found, sched_from_lem, preempt_state, state→has}
use vesper_os.Process.Turns.{
  yield_lem, save_esp-IsValid, save_esp_state, save_esp_current, procs-before_switch,
  current-before_switch,
}

-- A run in which every process that gets the CPU yields, on the stack pointers listed.
pub yields : Link → List ℕ → Kernel → Kernel
yields link [] k = k
yields link (esp ∷ esps) k = yields link esps (yield link esp k).1

-- How far slot `p` is from slot `c` in the order of the table.
abbrev pub distance : ℕ → ℕ → ℕ
distance c p = (p + 16 - c) % 16

-- What one yield of the process in slot `c` does for the ready process in slot `p`.
record Nearer (c p : ℕ) (k' : Kernel) (i : ℕ) : Type 0 where
  valid : IsValid k'
  current : k'.current ≡ some i
  turn : (i ≡ p) ⊎ (((proc k' p).state ≡ ready) × (distance i p < distance c p) × (i ≢ p))

sched_nearer :
    (k : Kernel) (c p : ℕ)
    → IsValid k
    → c < 16
    → p < 16
    → p ≢ c
    → (proc k p).state ≡ ready
    → let (i, k') = sched_from (some c) k in
      (i ≡ p) ⊎ (((proc k' p).state ≡ ready) × (distance i p < distance c p) × (i ≢ p))
sched_nearer k c p v lc lp ne r =
    let s = sched_from_lem k c v lc in
    elim (ℕ_discrete (sched_from (some c) k).0 p) [
      | yes e ↦ inl e
      | no o ↦ inr (stays s o, closer s s.turn o, o)
    ]
  where
    waits : (proc (preempt c k) p).state ≡ ready
    waits = preempt_state k c v lc p ∙ ground arith

    seen : has ready (proc (preempt c k) ((c + distance c p) % 16)) ≡ true
    seen =
        let q : (c + distance c p) % 16 ≡ p = omega arith in
        rw q (state→has ready (proc (preempt c k) p) waits)

    stays :
        Scheduled k c (sched_from (some c) k).0 (sched_from (some c) k).1
        → (sched_from (some c) k).0 ≢ p
        → (proc (sched_from (some c) k).1 p).state ≡ ready
    stays s o = s.others p (λ e. o (sym e)) ∙ ground arith

    closer :
        Scheduled k c (sched_from (some c) k).0 (sched_from (some c) k).1
        → ((d : ℕ) × Found 1 17 c (preempt c k).procs (sched_from (some c) k).0 d)
          ⊎ (((sched_from (some c) k).0 ≡ 0)
              × ((e : ℕ)
                  → 1 ≤ e
                  → e < 17
                  → has ready (proc (preempt c k) ((c + e) % max_processes)) ≡ false))
        → (sched_from (some c) k).0 ≢ p
        → distance (sched_from (some c) k).0 p < distance c p
    closer s (inr (z, h)) o =
        let dark = h (distance c p) (omega arith) (omega arith) in
        let clash : true ≡ false = sym seen ∙ dark in absurd (cc)
    closer s (inl (d, f)) o = elim (dec_lt (distance c p) d) [
      | yes l ↦
          let dark = f.nearest (distance c p) (omega arith) l in
          let clash : true ≡ false = sym seen ∙ dark in absurd (cc)
      | no l ↦ elim (ℕ_discrete d (distance c p)) [
        | yes e ↦ absurd (o (f.place ∙ omega (arith, e)))
        | no ne' ↦ omega (arith, f.place, f.from, l, ne')
      ]
    ]

-- The switch itself does not touch the table.
settle :
    (link : Link) (i c p : ℕ) (k : Kernel)
    → ((i ≡ p) ⊎ (((proc k p).state ≡ ready) × (distance i p < distance c p) × (i ≢ p)))
    → let k' = before_switch link i (record k { current = some i }) in
      ((j : ℕ) × (k'.current ≡ some j)
        × ((j ≡ p) ⊎ (((proc k' p).state ≡ ready) × (distance j p < distance c p) × (j ≢ p))))
settle link i c p k (inl e) = (i, current-before_switch link i _, inl e)
settle link i c p k (inr (r, d, ne)) =
    let procs = procs-before_switch link i (record k { current = some i }) in
    (i, current-before_switch link i _, inr (rw procs r, d, ne))

sched_nearer_at :
    (o : Option ℕ) (k : Kernel) (c p : ℕ)
    → o ≡ some c
    → IsValid k
    → c < 16
    → p < 16
    → p ≢ c
    → (proc k p).state ≡ ready
    → let (i, k') = sched_from o k in
      (i ≡ p) ⊎ (((proc k' p).state ≡ ready) × (distance i p < distance c p) × (i ≢ p))
sched_nearer_at o k c p e v lc lp ne r = rw e (sched_nearer k c p v lc lp ne r)

yield_nearer :
    (link : Link) (esp c p : ℕ) {k : Kernel}
    → IsValid k
    → k.current ≡ some c
    → p < 16
    → p ≢ c
    → (proc k p).state ≡ ready
    → let k' = (yield link esp k).1 in
      ((i : ℕ) × (k'.current ≡ some i)
        × ((i ≡ p) ⊎ (((proc k' p).state ≡ ready) × (distance i p < distance c p) × (i ≢ p))))
unfolding yield sched_next
yield_nearer link esp c p {k} v cur l ne r =
    let t = save_esp k.current esp k in
    settle link (sched_from t.current t).0 c p (sched_from t.current t).1 (
      sched_nearer_at t.current t c p (save_esp_current esp k v.slots k.current ∙ cur)
        (save_esp-IsValid esp v) (v.in_table c cur) l ne
        (save_esp_state esp k v.slots k.current v.in_table p ∙ r))

-- Starvation freedom: on a valid table with a current process, a ready process in another slot,
-- `n` places or fewer after the current one in round-robin order, is the current process after at
-- most `n` calls of process_yield, whatever stack pointers they save.
pub yields_reach :
    (link : Link) (n : ℕ) (esps : List ℕ) (c p : ℕ) {k : Kernel}
    → IsValid k
    → k.current ≡ some c
    → p < 16
    → p ≢ c
    → (proc k p).state ≡ ready
    → distance c p ≤ n
    → n ≤ length esps
    → (m : ℕ) × (m ≤ n) × ((yields link (take m esps) k).current ≡ some p)
unfolding yields
yields_reach link zero esps c p v cur l ne r d h = absurd (ne (omega (arith, v.in_table c cur)))
yields_reach link (suc n) [] c p v cur l ne r d h = absurd (omega arith)
yields_reach link (suc n) (esp ∷ esps) c p {k} v cur l ne r d h =
    let (w, w', wc, wr) = yield_lem link esp v in
    let (i, ci, t) = yield_nearer link esp c p v cur l ne r in
    elim t [
      | inl e ↦ (1, omega arith, ci ∙ ap some e)
      | inr (r', d', ne') ↦
          let (m, lm, q) =
            yields_reach link n esps i p w' ci l (λ e. ne' (sym e)) r' (omega arith)
              (omega arith) in
          (suc m, omega arith, q)
    ]
