-- ===== src/Pic/Masks.antt =====
-- The interrupt masks that kernel/pic.c reads and writes, as a set of 16 lines.
use Prim.Native.Nat.{bit_or, bit_and}
use vesper_os.Prelude.{
  ℕ, ◌-◌, ◌^◌, ◌<◌, ◌≤◌, ◌≡◌, refl, ap, ◌∙◌, inl, inr, Bool, true, false, ◌&&◌, ltb, leb, ◌==◌,
  if◌then◌else◌, Bool-cases, arith,
}
use vesper_os.Prelude.Bits.{bit, or_bits, and_bits}
use vesper_os.Port.{Ports}
use vesper_os.Pic.{pic1_data, pic2_data, unmask_cascade, unmask_irq, mask_irq}

-- The mask registers of two controllers that are initialised: reading a data port gives the mask and
-- changes nothing, and writing it sets that mask and leaves the other.
pub record Masks (ports : Ports) : Type 0 where
  pub mask1 : ports.Device → ℕ
  pub mask2 : ports.Device → ℕ
  pub read1 : (d : ports.Device) → ports.inb pic1_data d ≡ (mask1 d, d)
  pub read2 : (d : ports.Device) → ports.inb pic2_data d ≡ (mask2 d, d)
  pub write1 : (v : ℕ) (d : ports.Device) → mask1 (ports.outb pic1_data v d) ≡ v
  pub keep1 : (v : ℕ) (d : ports.Device) → mask2 (ports.outb pic1_data v d) ≡ mask2 d
  pub write2 : (v : ℕ) (d : ports.Device) → mask2 (ports.outb pic2_data v d) ≡ v
  pub keep2 : (v : ℕ) (d : ports.Device) → mask1 (ports.outb pic2_data v d) ≡ mask1 d

-- Whether one of the 16 lines is masked.
abbrev pub masked : (ports : Ports) → Masks ports → ℕ → ports.Device → Bool
masked ports m j d =
    bit (if ltb j 8 then m.mask1 d else m.mask2 d) (if ltb j 8 then j else j - 8) == 1

module _ (ports : Ports) (m : Masks ports) where
  -- What the two masks are after each operation.
  mask_low :
      (irq : ℕ) (d : ports.Device)
      → irq < 8
      → (m.mask1 (mask_irq ports irq d) ≡ bit_or (m.mask1 d) (2 ^ irq))
        × (m.mask2 (mask_irq ports irq d) ≡ m.mask2 d)
  unfolding mask_irq
  mask_low irq d l =
      let t : ltb irq 8 ≡ true = ground arith in
      rw (t, mask_irq) (rw (m.read1 d) (m.write1 _ d, m.keep1 _ d))

  mask_high :
      (irq : ℕ) (d : ports.Device)
      → 8 ≤ irq
      → (m.mask1 (mask_irq ports irq d) ≡ m.mask1 d)
        × (m.mask2 (mask_irq ports irq d) ≡ bit_or (m.mask2 d) (2 ^ (irq - 8)))
  unfolding mask_irq
  mask_high irq d l =
      let t : ltb irq 8 ≡ false = ground arith in
      rw (t, mask_irq) (rw (m.read2 d) (m.keep2 _ d, m.write2 _ d))

  unmask_low :
      (irq : ℕ) (d : ports.Device)
      → irq < 8
      → (m.mask1 (unmask_irq ports irq d) ≡ bit_and (m.mask1 d) (255 - 2 ^ irq))
        × (m.mask2 (unmask_irq ports irq d) ≡ m.mask2 d)
  unfolding unmask_irq
  unmask_low irq d l =
      let t : ltb irq 8 ≡ true = ground arith in
      rw (t, unmask_irq) (rw (m.read1 d) (m.write1 _ d, m.keep1 _ d))

  cascade :
      (d : ports.Device)
      → unmask_cascade ports d ≡ ports.outb pic1_data (bit_and (m.mask1 d) (255 - 2 ^ 2)) d
  unfolding unmask_cascade
  cascade d = rw (m.read1 d, unmask_cascade) refl

  unmask_high :
      (irq : ℕ) (d : ports.Device)
      → 8 ≤ irq
      → (m.mask1 (unmask_irq ports irq d) ≡ bit_and (m.mask1 d) (255 - 2 ^ 2))
        × (m.mask2 (unmask_irq ports irq d) ≡ bit_and (m.mask2 d) (255 - 2 ^ (irq - 8)))
  unfolding unmask_irq
  unmask_high irq d l =
      let t : ltb irq 8 ≡ false = ground arith in
      let d1 = ports.outb pic1_data (bit_and (m.mask1 d) (255 - 2 ^ 2)) d in
      rw (t, unmask_irq)
        (rw (cascade d) (
          rw (m.read2 d1) (
            m.keep2 _ d1 ∙ m.write1 _ d,
            m.write2 _ d1 ∙ ap (λ v. bit_and v (255 - 2 ^ (irq - 8))) (m.keep1 _ d),
          )))

-- pic_mask_irq masks its line and changes no other, where the masks are bytes.
pub mask_irq_lem :
    (ports : Ports) (m : Masks ports) (irq j : ℕ) (d : ports.Device)
    → irq < 16
    → j < 16
    → m.mask1 d < 256
    → m.mask2 d < 256
    → masked ports m j (mask_irq ports irq d) ≡ (if j == irq then true else masked ports m j d)
mask_irq_lem ports m irq j d li lj b1 b2 = elim (Bool-cases (ltb irq 8)) [
  | inl e ↦ elim (Bool-cases (ltb j 8)) [
    | inl f ↦
        let q = or_bits (m.mask1 d) irq j b1 (ground arith) (ground arith) in
        rw f (rw (mask_low ports m irq d (ground arith)).0 (ground (arith, q.1)))
    | inr f ↦ rw f (rw (mask_low ports m irq d (ground arith)).1 (ground arith))
  ]
  | inr e ↦ elim (Bool-cases (ltb j 8)) [
    | inl f ↦ rw f (rw (mask_high ports m irq d (ground arith)).0 (ground arith))
    | inr f ↦
        let q = or_bits (m.mask2 d) (irq - 8) (j - 8) b2 (ground arith) (ground arith) in
        rw f (rw (mask_high ports m irq d (ground arith)).1 (ground (arith, q.1)))
  ]
]

-- pic_unmask_irq, where the masks are bytes, unmasks its line, and for a line of the second
-- controller also line 2, by which that one is connected; it changes no other line.
pub unmask_irq_lem :
    (ports : Ports) (m : Masks ports) (irq j : ℕ) (d : ports.Device)
    → irq < 16
    → j < 16
    → m.mask1 d < 256
    → m.mask2 d < 256
    → masked ports m j (unmask_irq ports irq d)
      ≡ (if j == irq then false else if leb 8 irq && j == 2 then false else masked ports m j d)
unmask_irq_lem ports m irq j d li lj b1 b2 = elim (Bool-cases (ltb irq 8)) [
  | inl e ↦ elim (Bool-cases (ltb j 8)) [
    | inl f ↦
        let q = and_bits (m.mask1 d) irq j b1 (ground arith) (ground arith) in
        rw f (rw (unmask_low ports m irq d (ground arith)).0 (ground (arith, q.1)))
    | inr f ↦ rw f (rw (unmask_low ports m irq d (ground arith)).1 (ground arith))
  ]
  | inr e ↦ elim (Bool-cases (ltb j 8)) [
    | inl f ↦
        let q = and_bits (m.mask1 d) 2 j b1 (omega arith) (ground arith) in
        rw f (rw (unmask_high ports m irq d (ground arith)).0 (ground (arith, q.1)))
    | inr f ↦
        let q = and_bits (m.mask2 d) (irq - 8) (j - 8) b2 (ground arith) (ground arith) in
        rw f (rw (unmask_high ports m irq d (ground arith)).1 (ground (arith, q.1)))
  ]
]
