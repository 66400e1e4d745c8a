-- ===== src/Pmm/Bits.antt =====
-- The bit helpers of kernel/pmm.c as updates of a table of 8192 Booleans.
use Prim.Native.Nat.{bit_or, bit_and}
use vesper_os.Prelude.Bits.{or_bits, and_bits}
use vesper_os.Prelude.{
  ℕ, zero, suc, ◌-◌, ◌/◌, ◌%◌, ◌^◌, ◌<◌, ◌≡◌, ◌∙◌, true, false, List, [], ◌∷◌, length, length-set,
  get_or, get_or-set_self, get_or-set_ne, set, ◌==◌, if◌then◌else◌, arith,
}
use native.Mathlib.Decide.{ℕ_discrete}
use vesper_os.Pmm.{Pmm, total_frames, set_used, set_free, is_used}

-- Every byte of the bitmap is a uint8_t.
abbrev pub Bytes : List ℕ → Type 0
Bytes [] = Unit {0}
Bytes (b ∷ bs) = (b < 256) × Bytes bs

get_or-Bytes : (bs : List ℕ) (i : ℕ) → Bytes bs → get_or bs i 0 < 256
get_or-Bytes [] i h = omega arith
get_or-Bytes (b ∷ bs) zero h = h.0
get_or-Bytes (b ∷ bs) (suc i) h = get_or-Bytes bs i h.1

set-Bytes : (bs : List ℕ) (i b : ℕ) → Bytes bs → b < 256 → Bytes (set bs i b)
set-Bytes [] i b h l = tt
set-Bytes (x ∷ bs) zero b h l = (l, h.1)
set-Bytes (x ∷ bs) (suc i) b h l = (h.0, set-Bytes bs i b h.1 l)

-- The shape of pmm_bitmap.
pub record IsBitmap (s : Pmm) : Type 0 where
  pub size : length s.bitmap ≡ 1024
  pub bytes : Bytes s.bitmap

-- Writing one byte of the bitmap changes the frames of that byte only.
write_byte :
    (bs : List ℕ) (i v g : ℕ)
    → length bs ≡ 1024
    → i < 1024
    → get_or (set bs i v) (g / 8) 0 ≡ (if g / 8 == i then v else get_or bs (g / 8) 0)
write_byte bs i v g h l = elim (ℕ_discrete i (g / 8)) [
  | yes e ↦ ground (arith, get_or-set_self bs i v 0)
  | no ne ↦ ground (arith, get_or-set_ne bs i (g / 8) v 0 ne)
]

-- pmm_set_used marks its frame used and leaves every other frame as it was.
pub is_used-set_used :
    (f g : ℕ) {s : Pmm}
    → IsBitmap s
    → f < total_frames
    → is_used g (set_used f s) ≡ (if g == f then true else is_used g s)
unfolding is_used set_used
is_used-set_used f g {s} v l = ground (
  arith,
  write_byte s.bitmap (f / 8) (bit_or (get_or s.bitmap (f / 8) 0) (2 ^ (f % 8))) g v.size,
  or_bits (get_or s.bitmap (f / 8) 0) (f % 8) (g % 8) (get_or-Bytes s.bitmap (f / 8) v.bytes),
)

pub is_used-set_free :
    (f g : ℕ) {s : Pmm}
    → IsBitmap s
    → f < total_frames
    → is_used g (set_free f s) ≡ (if g == f then false else is_used g s)
unfolding is_used set_free
is_used-set_free f g {s} v l = ground (
  arith,
  write_byte s.bitmap (f / 8) (bit_and (get_or s.bitmap (f / 8) 0) (255 - 2 ^ (f % 8))) g v.size,
  and_bits (get_or s.bitmap (f / 8) 0) (f % 8) (g % 8) (get_or-Bytes s.bitmap (f / 8) v.bytes),
)

pub set_used-IsBitmap : (f : ℕ) {s : Pmm} → IsBitmap s → IsBitmap (set_used f s)
unfolding set_used
set_used-IsBitmap f {s} v = record {
  size = length-set s.bitmap (f / 8) _ ∙ v.size;
  bytes =
      set-Bytes s.bitmap (f / 8) _ v.bytes
        (or_bits _ (f % 8) 0 (get_or-Bytes s.bitmap (f / 8) v.bytes) (omega arith) (omega arith)).0;
}

pub set_free-IsBitmap : (f : ℕ) {s : Pmm} → IsBitmap s → IsBitmap (set_free f s)
unfolding set_free
set_free-IsBitmap f {s} v = record {
  size = length-set s.bitmap (f / 8) _ ∙ v.size;
  bytes =
      set-Bytes s.bitmap (f / 8) _ v.bytes
        (and_bits _ (f % 8) 0 (get_or-Bytes s.bitmap (f / 8) v.bytes) (omega arith)
          (omega arith)).0;
}
