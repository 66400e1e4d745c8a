-- ===== src/Timer/Wait.antt =====
-- How long timer_sleep_ms of kernel/timer.c waits.
use vesper_os.Prelude.{
  ℕ, zero, suc, ◌+◌, ◌-◌, ◌*◌, ◌/◌, ◌^◌, ◌≤◌, ◌<◌, ◌≡◌, ap, ◌∙◌, inl, inr, some, ltb, Bool-cases,
  arith,
}
use vesper_os.Timer.{bump, target, wait_loop, sleep_ms}

wait_loop_lem :
    (n until ticks : ℕ)
    → until < 2 ^ 32
    → until - ticks < n
    → wait_loop n until ticks ≡ some (until - ticks)
unfolding wait_loop
wait_loop_lem zero until ticks h l = absurd (omega arith)
wait_loop_lem (suc n) until ticks h l = elim (Bool-cases (ltb ticks until)) [
  | inl e ↦
      let q : bump ticks ≡ ticks + 1 = ground arith in
      let rest = wait_loop_lem n until (ticks + 1) h (ground arith) in
      rw e (rw q (rw rest (ap some (ground arith))))
  | inr e ↦ rw e (ap some (ground arith))
]

-- Where neither the product nor the target overflows 32 bits, timer_sleep_ms ends after as many
-- ticks as ms / 10 rounded up, whenever it has that many rounds and one more.
pub sleep_ms_lem :
    (rounds ms ticks : ℕ)
    → ms * 100 + 999 < 2 ^ 32
    → ticks + (ms + 9) / 10 < 2 ^ 32
    → (ms + 9) / 10 < rounds
    → sleep_ms rounds ms ticks ≡ some ((ms + 9) / 10)
unfolding sleep_ms
sleep_ms_lem rounds ms ticks p t r =
    let q : target ms ticks ≡ ticks + (ms + 9) / 10 = omega arith in
    rw q
      (wait_loop_lem rounds (ticks + (ms + 9) / 10) ticks t (omega arith) ∙ ap some (omega arith))

-- Where the target goes past 2^32 - 1, timer_sleep_ms of at most 42 million milliseconds does not
-- wait at all.
pub sleep_ms_wraps :
    (rounds ms ticks : ℕ)
    → ms * 100 + 999 < 2 ^ 32
    → ticks < 2 ^ 32
    → 2 ^ 32 ≤ ticks + (ms + 9) / 10
    → sleep_ms (suc rounds) ms ticks ≡ some 0
unfolding sleep_ms
sleep_ms_wraps rounds ms ticks p t o =
    wait_loop_lem (suc rounds) (target ms ticks) ticks (omega arith) (omega arith)
    ∙ ap some (omega arith)
