-- ===== src/Gdt/Segments.antt =====
-- What the processor reads from the descriptors of kernel/gdt.c.
use vesper_os.Prelude.{
  ℕ, ◌+◌, ◌*◌, ◌/◌, ◌%◌, ◌^◌, ◌<◌, ◌≡◌, ◌≢◌, refl, length, get_or, get_or-set_self, get_or-set_ne,
  arith,
}
use vesper_os.Gdt.{Entry, Gdt, set_entry}

abbrev pub no_entry : Entry
no_entry = record {
  limit_low = 0;
  base_low = 0;
  base_mid = 0;
  access = 0;
  flags_limit_high = 0;
  base_high = 0;
}

abbrev pub descriptor : Gdt → ℕ → Entry
descriptor g i = get_or g.table i no_entry

abbrev pub base_of : Entry → ℕ
base_of e = e.base_high * 2 ^ 24 + e.base_mid * 2 ^ 16 + e.base_low

abbrev pub limit_of : Entry → ℕ
limit_of e = e.flags_limit_high % 16 * 2 ^ 16 + e.limit_low

abbrev pub flags_of : Entry → ℕ
flags_of e = e.flags_limit_high / 16

-- A descriptor with a base, a limit, an access byte and flags.
pub record Describes (e : Entry) (base limit access flags : ℕ) : Type 0 where
  pub base_is : base_of e ≡ base
  pub limit_is : limit_of e ≡ limit
  pub access_is : e.access ≡ access
  pub flags_is : flags_of e ≡ flags

-- gdt_set_entry of a slot of the table, a 32-bit base, a 20-bit limit and a byte of flags makes a
-- descriptor that the processor reads as that base, limit and access, and as the upper half of the
-- flags; the other slots stay.
pub set_entry-Describes :
    (i base limit access flags : ℕ) (g : Gdt)
    → i < length g.table
    → base < 2 ^ 32
    → limit < 2 ^ 20
    → flags < 2 ^ 8
    → Describes
        (descriptor (set_entry i base limit access flags g) i)
        base
        limit
        access
        (flags / 16)
      × ((j : ℕ) → i ≢ j → descriptor (set_entry i base limit access flags g) j ≡ descriptor g j)
unfolding set_entry
set_entry-Describes i base limit access flags g l lb ll lf =
    let e : Entry = record {
      base_low = base % 2 ^ 16;
      base_mid = base / 2 ^ 16 % 2 ^ 8;
      base_high = base / 2 ^ 24 % 2 ^ 8;
      limit_low = limit % 2 ^ 16;
      flags_limit_high = limit / 2 ^ 16 % 16 + flags / 16 % 16 * 16;
      access = access;
    } in
    (
      rw (get_or-set_self g.table i e no_entry l) (record {
        base_is = omega arith;
        limit_is = omega arith;
        access_is = refl;
        flags_is = omega arith;
      }),
      λ j ne. get_or-set_ne g.table i j e no_entry ne,
    )
