-- ===== src/Prelude/Count.antt =====
-- Counting the indices of a table that pass a test.
use Prim.Native.Nat.{ℕ, zero, suc, ◌+◌, ◌≤◌, ◌<◌}
use mathlib.Core.Path.{◌≡◌, refl}
use mathlib.Core.Logic.{◌≢◌}
use mathlib.Core.Bool.{Bool, true, false}
use native.Mathlib.Omega.{arith}
use native.Mathlib.Decide.{ℕ_discrete}
use vesper_os.Prelude.Tests.{if◌then◌else◌}

pub count_below : ℕ → (ℕ → Bool) → ℕ
count_below zero p = 0
count_below (suc n) p = (if p n then 1 else 0) + count_below n p

pub count_below-le : (n : ℕ) (p : ℕ → Bool) → count_below n p ≤ n
unfolding count_below
count_below-le zero p = omega arith
count_below-le (suc n) p = ground (arith, count_below-le n p)

pub count_below-eq :
    (n : ℕ) (p q : ℕ → Bool) → ((g : ℕ) → g < n → p g ≡ q g) → count_below n p ≡ count_below n q
unfolding count_below
count_below-eq zero p q h = refl
count_below-eq (suc n) p q h =
    ground (arith, h n (omega arith), count_below-eq n p q (λ g l. h g (omega arith)))

-- Two tests that differ at one index only.
pub count_below-drop :
    (n f : ℕ) (p q : ℕ → Bool)
    → f < n
    → p f ≡ true
    → q f ≡ false
    → ((g : ℕ) → g < n → g ≢ f → p g ≡ q g)
    → count_below n p ≡ suc (count_below n q)
unfolding count_below
count_below-drop zero f p q l a b h = elim l [ ]
count_below-drop (suc n) f p q l a b h = elim (ℕ_discrete f n) [
  | yes e ↦
      let same : count_below n p ≡ count_below n q =
        count_below-eq n p q (λ g k. h g (omega arith) (omega arith)) in
      rw (← e, a, b, e) (omega (arith, same))
  | no ne ↦
      rw (h n (omega arith) (λ x. ne (omega arith)))
        (omega (arith, count_below-drop n f p q (omega arith) a b (λ g k m. h g (omega arith) m)))
]

pub count_below-zero :
    (n : ℕ) (p : ℕ → Bool) → ((g : ℕ) → g < n → p g ≡ false) → count_below n p ≡ 0
unfolding count_below
count_below-zero zero p h = refl
count_below-zero (suc n) p h =
    ground (arith, h n (omega arith), count_below-zero n p (λ g l. h g (omega arith)))
