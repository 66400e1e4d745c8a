-- ===== src/Prelude/Bits.antt =====
-- The bits of a byte, and what setting and clearing one of them does.
use Prim.Native.Nat.{ℕ, ◌-◌, ◌/◌, ◌%◌, ◌^◌, ◌<◌, bit_or, bit_and}
use mathlib.Core.Path.{◌≡◌, refl}
use mathlib.Core.Bool.{Bool, true, ◌&&◌}
use vesper_os.Prelude.Tests.{
  ltb, ◌==◌, if◌then◌else◌, holds_below, holds_below_lem, ==_iff, ltb→lt, &&-split,
}

abbrev pub bit : ℕ → ℕ → ℕ
bit b k = b / 2 ^ k % 2

-- What the two updates do to each bit of a byte, over all bytes and bit numbers.
or_cell : ℕ → ℕ → ℕ → Bool
or_cell b k j = bit (bit_or b (2 ^ k)) j == (if j == k then 1 else bit b j)

or_row : ℕ → ℕ → Bool
or_row b k = ltb (bit_or b (2 ^ k)) 256 && holds_below (or_cell b k) 8

or_table : holds_below (λ b. holds_below (or_row b) 8) 256 ≡ true
unfolding holds_below or_row or_cell
or_table = refl

and_cell : ℕ → ℕ → ℕ → Bool
and_cell b k j = bit (bit_and b (255 - 2 ^ k)) j == (if j == k then 0 else bit b j)

and_row : ℕ → ℕ → Bool
and_row b k = ltb (bit_and b (255 - 2 ^ k)) 256 && holds_below (and_cell b k) 8

and_table : holds_below (λ b. holds_below (and_row b) 8) 256 ≡ true
unfolding holds_below and_row and_cell
and_table = refl

pub or_bits :
    (b k j : ℕ)
    → b < 256
    → k < 8
    → j < 8
    → (bit_or b (2 ^ k) < 256) × (bit (bit_or b (2 ^ k)) j ≡ (if j == k then 1 else bit b j))
unfolding or_row or_cell
or_bits b k j hb hk hj =
    let column : or_row b k ≡ true =
      holds_below_lem (or_row b) 8 hk
        (holds_below_lem (λ b. holds_below (or_row b) 8) 256 hb or_table) in
    let parts = &&-split _ _ column in
    (ltb→lt _ _ parts.0, (==_iff _ _).0 (holds_below_lem (or_cell b k) 8 hj parts.1))

pub and_bits :
    (b k j : ℕ)
    → b < 256
    → k < 8
    → j < 8
    → (bit_and b (255 - 2 ^ k) < 256)
      × (bit (bit_and b (255 - 2 ^ k)) j ≡ (if j == k then 0 else bit b j))
unfolding and_row and_cell
and_bits b k j hb hk hj =
    let column : and_row b k ≡ true =
      holds_below_lem (and_row b) 8 hk
        (holds_below_lem (λ b. holds_below (and_row b) 8) 256 hb and_table) in
    let parts = &&-split _ _ column in
    (ltb→lt _ _ parts.0, (==_iff _ _).0 (holds_below_lem (and_cell b k) 8 hj parts.1))
