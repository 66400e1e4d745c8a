-- ===== src/Idt/Gates.antt =====
-- What idt_init of kernel/idt.c and syscall_init of kernel/syscall.c put into the table.
use vesper_os.Prelude.{
  ℕ, zero, suc, ◌+◌, ◌-◌, ◌*◌, ◌/◌, ◌%◌, ◌^◌, ◌<◌, ◌≤◌, ◌≡◌, ◌≢◌, refl, sym, subst, ◌∙◌, ◌⊎◌, inl,
  inr, true, ◌&&◌, length, length-set, get_or, get_or-set_self, get_or-set_ne, ltb, leb, ◌==◌,
  if◌then◌else◌, Bool-cases, arith,
}
use native.Mathlib.Decide.{ℕ_discrete}
use vesper_os.Idt.{
  Gate, Idt, Stubs, no_gate, interrupt_gate, syscall_gate, set_gate, set_gates, init, syscall_init,
}

-- The address that the processor enters through a gate, its privilege level and its selector.
abbrev pub handler_of : Gate → ℕ
handler_of g = g.offset_high * 2 ^ 16 + g.offset_low

abbrev pub level_of : Gate → ℕ
level_of g = g.type_attr / 32 % 4

abbrev pub gate : Idt → ℕ → Gate
gate idt v = get_or idt.table v no_gate

-- A gate that enters `handler` in the kernel's code segment from level `level` on.
pub record Enters (g : Gate) (handler level : ℕ) : Type 0 where
  pub enters : handler_of g ≡ handler
  pub ring : level_of g ≡ level
  pub selector : g.selector ≡ 8
  pub present : g.type_attr / 128 % 2 ≡ 1
  pub reserved : g.reserved ≡ 0

length-set_gate :
    (v h sel attr : ℕ) (idt : Idt) → length (set_gate v h sel attr idt).table ≡ length idt.table
unfolding set_gate
length-set_gate v h sel attr idt = length-set idt.table (v % 2 ^ 8) _

set_gate-Enters :
    (v h attr level : ℕ) (idt : Idt)
    → v < 256
    → h < 2 ^ 32
    → length idt.table ≡ 256
    → attr / 32 % 4 ≡ level
    → attr / 128 % 2 ≡ 1
    → Enters (gate (set_gate v h 8 attr idt) v) h level
unfolding set_gate
set_gate-Enters v h attr level idt l lh n lev p =
    let q : v % 2 ^ 8 ≡ v = omega arith in
    rw q (
      rw
        (get_or-set_self idt.table v
          (record {
            offset_low = h % 2 ^ 16;
            selector = 8;
            reserved = 0;
            type_attr = attr;
            offset_high = h / 2 ^ 16 % 2 ^ 16;
          })
          no_gate (omega (arith, n)))
        (record {
          enters = omega arith;
          ring = lev;
          selector = refl;
          present = p;
          reserved = refl;
        }))

set_gate_others :
    (v w h sel attr : ℕ) (idt : Idt)
    → v < 256
    → v ≢ w
    → gate (set_gate v h sel attr idt) w ≡ gate idt w
unfolding set_gate
set_gate_others v w h sel attr idt l ne =
    let q : v % 2 ^ 8 ≡ v = omega arith in rw q (get_or-set_ne idt.table v w _ no_gate ne)

length-set_gates :
    (n first i : ℕ) (stub : ℕ → ℕ) (idt : Idt)
    → length (set_gates n first i stub idt).table ≡ length idt.table
unfolding set_gates
length-set_gates zero first i stub idt = refl
length-set_gates (suc n) first i stub idt =
    length-set_gates n first (i + 1) stub _
    ∙ length-set_gate (first + i) (stub i) 8 interrupt_gate idt

set_gates_others :
    (n first i w : ℕ) (stub : ℕ → ℕ) (idt : Idt)
    → first + i + n ≤ 256
    → (w < first + i) ⊎ (first + i + n ≤ w)
    → gate (set_gates n first i stub idt) w ≡ gate idt w
unfolding set_gates
set_gates_others zero first i w stub idt l o = refl
set_gates_others (suc n) first i w stub idt l o =
    set_gates_others n first (i + 1) w stub _ (omega arith) (ground arith)
    ∙ set_gate_others (first + i) w (stub i) 8 interrupt_gate idt (omega arith) (ground arith)

set_gates-Enters :
    (n first i k : ℕ) (stub : ℕ → ℕ) (idt : Idt)
    → first + i + n ≤ 256
    → ((j : ℕ) → stub j < 2 ^ 32)
    → length idt.table ≡ 256
    → i ≤ k
    → k < i + n
    → Enters (gate (set_gates n first i stub idt) (first + k)) (stub k) 0
unfolding set_gates
set_gates-Enters zero first i k stub idt l b len lo hi = absurd (omega arith)
set_gates-Enters (suc n) first i k stub idt l b len lo hi =
    let next = set_gate (first + i) (stub i) 8 interrupt_gate idt in
    let len' : length next.table ≡ 256 =
      length-set_gate (first + i) (stub i) 8 interrupt_gate idt ∙ len in
    elim (ℕ_discrete k i) [
      | yes e ↦ rw e (
          subst (λ g. Enters g (stub i) 0)
            (sym (
              set_gates_others n first (i + 1) (first + i) stub next (omega arith)
                (inl (omega arith))))
            (set_gate-Enters (first + i) (stub i) interrupt_gate 0 idt (omega arith) (b i) len refl
              refl))
      | no ne ↦
          set_gates-Enters n first (i + 1) k stub next (omega arith) b len' (omega (arith, ne))
            (omega arith)
    ]

-- The gates after both functions, by groups of vectors.
init_gates :
    (stubs : Stubs) (idt : Idt)
    → ((n : ℕ) → stubs.isr n < 2 ^ 32)
    → ((n : ℕ) → stubs.irq n < 2 ^ 32)
    → stubs.syscall < 2 ^ 32
    → length idt.table ≡ 256
    → let t = syscall_init stubs (init stubs idt) in
      ((v : ℕ) → v < 20 → Enters (gate t v) (stubs.isr v) 0)
      × ((n : ℕ) → n < 16 → Enters (gate t (32 + n)) (stubs.irq n) 0)
      × Enters (gate t 128) stubs.syscall 3
      × ((v : ℕ) → 20 ≤ v → (v < 32) ⊎ (48 ≤ v) → v ≢ 128 → gate t v ≡ gate idt v)
unfolding init syscall_init
init_gates stubs idt bi bq bs len =
    let a = set_gates 20 0 0 stubs.isr idt in
    let b = set_gates 16 32 0 stubs.irq a in
    let c = record b { loaded = true } in
    let la : length a.table ≡ 256 = length-set_gates 20 0 0 stubs.isr idt ∙ len in
    let lb : length b.table ≡ 256 = length-set_gates 16 32 0 stubs.irq a ∙ la in
    (
      λ v l.
          subst (λ g. Enters g (stubs.isr v) 0)
            (sym (
              set_gate_others 128 v stubs.syscall 8 syscall_gate c (omega arith) (omega arith)
              ∙ set_gates_others 16 32 0 v stubs.irq a (omega arith) (inl (omega arith))))
            (subst (λ w. Enters (gate a w) (stubs.isr v) 0) (omega arith)
              (set_gates-Enters 20 0 0 v stubs.isr idt (omega arith) bi len (omega arith)
                (omega arith))),
      λ n l.
          subst (λ g. Enters g (stubs.irq n) 0)
            (sym (
              set_gate_others 128 (32 + n) stubs.syscall 8 syscall_gate c (omega arith)
                (omega arith)))
            (set_gates-Enters 16 32 0 n stubs.irq a (omega arith) bq la (omega arith)
              (omega arith)),
      set_gate-Enters 128 stubs.syscall syscall_gate 3 c (omega arith) bs lb refl refl,
      λ v l o ne.
          set_gate_others 128 v stubs.syscall 8 syscall_gate c (omega arith) (λ e. ne (sym e))
          ∙ set_gates_others 16 32 0 v stubs.irq a (omega arith) (ground (arith, o))
          ∙ set_gates_others 20 0 0 v stubs.isr idt (omega arith) (inr (omega arith)),
    )

-- What the gate of vector `v` is to be, where `t` is the table and `before` the one that it was.
abbrev pub Serves : Stubs → Idt → Idt → ℕ → Type 0
Serves stubs before t v =
    if ltb v 20
    then Enters (gate t v) (stubs.isr v) 0
    else if leb 32 v && ltb v 48
    then Enters (gate t v) (stubs.irq (v - 32)) 0
    else if v == 128
    then Enters (gate t v) stubs.syscall 3
    else gate t v ≡ gate before v

-- From a table of 256 gates, with stubs at 32-bit addresses, idt_init and then syscall_init give
-- exception v < 20 the gate of its stub and IRQ n < 16 the gate 32 + n, both for ring 0 only; vector
-- 128 enters the system calls from ring 3; and no other gate changes.
pub init-Serves :
    (stubs : Stubs) (idt : Idt) (v : ℕ)
    → ((n : ℕ) → stubs.isr n < 2 ^ 32)
    → ((n : ℕ) → stubs.irq n < 2 ^ 32)
    → stubs.syscall < 2 ^ 32
    → length idt.table ≡ 256
    → Serves stubs idt (syscall_init stubs (init stubs idt)) v
init-Serves stubs idt v bi bq bs len =
    let t = syscall_init stubs (init stubs idt) in
    let (exceptions, irqs, call, others) = init_gates stubs idt bi bq bs len in
    elim (Bool-cases (ltb v 20)) [
      | inl e ↦ rw e (exceptions v (ground arith))
      | inr e ↦ rw e (elim (Bool-cases (leb 32 v && ltb v 48)) [
        | inl f ↦ rw f (
            subst (λ w. Enters (gate t w) (stubs.irq (v - 32)) 0) (ground arith)
              (irqs (v - 32) (ground arith)))
        | inr f ↦ rw f (elim (Bool-cases (v == 128)) [
          | inl g ↦ let q : v ≡ 128 = ground arith in rw (g, q) call
          | inr g ↦ rw g (others v (ground arith) (ground arith) (ground arith))
        ])
      ])
    ]
