-- ===== src/Timer/Slice.antt =====
-- The time slice of kernel/timer.c: one tick in five gives the processor to another process.
use vesper_os.Prelude.{
  ℕ, zero, suc, ◌+◌, ◌%◌, ◌^◌, ◌<◌, ◌≡◌, ◌≢◌, refl, ap, ◌∙◌, some, true, false, ◌==◌, arith,
}
use vesper_os.Pic
use vesper_os.Port.{Ports}
use vesper_os.Process
use vesper_os.Process.{Link}
use vesper_os.Timer.{Timer, bump, yield_current, sched_slice, irq_handler}

module _ (ports : Ports) (link : Link) (esp : ℕ) where
  -- Ticks one after the other.
  unfoldable pub run : ℕ → Timer ports → Timer ports
  run zero t = t
  run (suc n) t = run n (irq_handler ports link esp t)

  handler_quiet :
      (t : Timer ports)
      → (t.ticks + 1) % 5 ≢ 0
      → t.ticks + 1 < 2 ^ 32
      → irq_handler ports link esp t ≡ record t { ticks = t.ticks + 1 }
  unfolding irq_handler
  handler_quiet t q l =
      let e : bump t.ticks ≡ t.ticks + 1 = omega arith in
      let z : ((t.ticks + 1) % sched_slice == 0) ≡ false = ground (arith, q) in
      rw (e, irq_handler) (rw z refl)

  handler_slice :
      (t : Timer ports) (i : ℕ)
      → t.kernel.current ≡ some i
      → (t.ticks + 1) % 5 ≡ 0
      → t.ticks + 1 < 2 ^ 32
      → irq_handler ports link esp t ≡ record {
        ticks = t.ticks + 1;
        kernel = (Process.yield link esp t.kernel).1;
        device = ports.outb 0x20 0x20 t.device;
      }
  unfolding irq_handler yield_current Pic.send_eoi
  handler_slice t i c q l =
      let e : bump t.ticks ≡ t.ticks + 1 = omega arith in
      let z : ((t.ticks + 1) % sched_slice == 0) ≡ true = ground (arith, q) in
      rw (e, irq_handler) (rw z (rw (c, yield_current) refl))

  run_last : (n : ℕ) (t : Timer ports) → run (suc n) t ≡ irq_handler ports link esp (run n t)
  unfolding run
  run_last zero t = refl
  run_last (suc n) t = run_last n (irq_handler ports link esp t)

  -- After the end of a slice, up to four ticks only count.
  run_quiet :
      (n : ℕ) (t : Timer ports)
      → t.ticks % 5 ≡ 0
      → t.ticks + 5 < 2 ^ 32
      → n < 5
      → run n t ≡ record t { ticks = t.ticks + n }
  unfolding run
  run_quiet zero t z l h = ap (λ x. record t { ticks = x }) (omega arith)
  run_quiet (suc n) t z l h =
      run_last n t
      ∙ ap (irq_handler ports link esp) (run_quiet n t z l (omega arith))
      ∙ handler_quiet (record t { ticks = t.ticks + n }) (omega (arith, z, h)) (omega (arith, l, h))
      ∙ ap (λ x. record t { ticks = x }) (omega arith)

-- From a tick count that is a multiple of five, and 2^32 - 6 at most, with a current process, up to
-- four timer interrupts only count; the fifth also sends the end of interrupt to the first
-- controller and calls process_yield.
pub run_slice :
    (ports : Ports) (link : Link) (esp : ℕ) (t : Timer ports) (i : ℕ)
    → t.kernel.current ≡ some i
    → t.ticks % 5 ≡ 0
    → t.ticks + 5 < 2 ^ 32
    → ((n : ℕ) → n < 5 → run ports link esp n t ≡ record t { ticks = t.ticks + n })
      × (run ports link esp 5 t ≡ record {
        ticks = t.ticks + 5;
        kernel = (Process.yield link esp t.kernel).1;
        device = ports.outb 0x20 0x20 t.device;
      })
run_slice ports link esp t i c z l =
    let after : Timer ports = record t { ticks = t.ticks + 4 } in
    (
      λ n h. run_quiet ports link esp n t z l h,
      run_last ports link esp 4 t
          ∙ ap (irq_handler ports link esp) (run_quiet ports link esp 4 t z l (omega arith))
          ∙ handler_slice ports link esp after i c (omega (arith, z)) (omega (arith, l))
          ∙ ap
              (λ x. record {
                ticks = x;
                kernel = (Process.yield link esp t.kernel).1;
                device = ports.outb 0x20 0x20 t.device;
              })
              (omega arith),
    )
