-- ===== src/Prelude/Ring.antt =====
-- A ring buffer's entries as a list: `n` entries from index `h` on, going round at `size`.
use Prim.Native.Nat.{ℕ, zero, suc, ◌+◌, ◌<◌}
use mathlib.Core.Path.{◌≡◌, refl, ap}
use mathlib.Core.List.{List, [], ◌∷◌, ◌++◌}
use native.Mathlib.Omega.{arith}
use vesper_os.Prelude.Tests.{◌==◌, if◌then◌else◌}
use vesper_os.Prelude.Lists.{length, get_or, set, get_or-set_self, get_or-set_ne}
use mathlib.Core.Logic.{◌⊎◌}

-- The index after `h`.
abbrev pub step : ℕ → ℕ → ℕ
step size h = if h + 1 == size then 0 else h + 1

abbrev pub window : ℕ → List ℕ → ℕ → ℕ → List ℕ
window size buf h zero = []
window size buf h (suc n) = get_or buf h 0 ∷ window size buf (step size h) n

pub length-window : (size : ℕ) (buf : List ℕ) (h n : ℕ) → length (window size buf h n) ≡ n
length-window size buf h zero = refl
length-window size buf h (suc n) = ap suc (length-window size buf (step size h) n)

-- Writing right behind a window that does not fill the ring extends it by that entry.
pub window-set :
    (size : ℕ) (buf : List ℕ) (x n h i : ℕ)
    → length buf ≡ size
    → h < size
    → n < size
    → i < size
    → (h + n ≡ i) ⊎ (h + n ≡ i + size)
    → window size (set buf i x) h (suc n) ≡ window size buf h n ++ (x ∷ [])
window-set size buf x zero h i s lh ln li e =
    let q : i ≡ h = ground arith in
    rw q (ap (λ y. y ∷ []) (get_or-set_self buf h x 0 (omega (arith, s))))
window-set size buf x (suc n) h i s lh ln li e =
    let first = get_or-set_ne buf i h x 0 (ground arith) in
    let rest =
      window-set size buf x n (step size h) i s (ground arith) (omega arith) li (ground arith) in
    rw first (ap (λ r. get_or buf h 0 ∷ r) rest)
