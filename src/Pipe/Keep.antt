-- ===== src/Pipe/Keep.antt =====
-- Every operation of kernel/pipe.c keeps the table of pipes valid, for any id.
use vesper_os.Prelude.{
  zero, suc, get_or, replicate, ℕ, ◌<◌, ◌≤◌, ◌≡◌, refl, sym, subst, ◌⊎◌, inl, inr, Bool, false,
  none, some, List, [], ltb, ◌==◌, if◌then◌else◌, Bool-cases, arith,
}
use vesper_os.Prelude.Int.{ℤ, pos, negsuc}
use vesper_os.Process
use vesper_os.Process.{Kernel}
use vesper_os.Pipe.{
  init, zero_pipe, Pipes, pipe, max_pipes, valid_id, write_loop, write, read, read_wait, consume,
  ReadOutcome, failed, got, waiting, alloc,
}
use vesper_os.Pipe.Transfer.{IsTable, write_lem, consume_lem}
use vesper_os.Pipe.Close.{alloc_lem, zero_pipe-IsRing}
use vesper_os.Pipe.Ring.{IsRing}

valid_id-cases : (i : ℕ) → i < max_pipes → valid_id (pos i) ≡ some i
unfolding valid_id
valid_id-cases i l = ground arith

invalid_id : (i : ℕ) → max_pipes ≤ i → valid_id (pos i) ≡ none
unfolding valid_id
invalid_id i l = ground arith

-- The outcome of a read leaves a valid table, if it leaves one.
abbrev pub Leaves : ReadOutcome → Type 0
Leaves failed = Unit {0}
Leaves (got bytes ps) = IsTable ps
Leaves waiting = Unit {0}

pub alloc-IsTable : {ps : Pipes} → IsTable ps → IsTable (alloc ps).1
alloc-IsTable {ps} v = elim (alloc_lem v) [ inl (e, h) ↦ rw e v | inr (i, e, a) ↦ a.table ]

pub write-IsTable :
    (id : ℤ) (src : List ℕ) {ps : Pipes} (k : Kernel) → IsTable ps → IsTable (write id src ps k).1
unfolding write valid_id
write-IsTable (negsuc n) src {ps} k v = v
write-IsTable (pos i) src {ps} k v = elim (Bool-cases (ltb i max_pipes)) [
  | inr e ↦ rw (invalid_id i (ground arith), write) v
  | inl e ↦ elim (Bool-cases (pipe ps i).opened) [
    | inl o ↦ (write_lem i src k v (ground arith) o).table
    | inr o ↦ rw (valid_id-cases i (ground arith), write) (rw o v)
  ]
]

consume-Leaves : (i len : ℕ) {ps : Pipes} → IsTable ps → i < max_pipes → Leaves (consume i len ps)
consume-Leaves i len {ps} v l = let (bytes, ps', e, done) = consume_lem i len v l in rw e done.table

wait-Leaves :
    (i len : ℕ) (scheduler : Bool) {ps : Pipes}
    → IsTable ps
    → i < max_pipes
    → Leaves (read_wait i len scheduler ps [])
unfolding read_wait
wait-Leaves i len scheduler {ps} v l = elim (Bool-cases ((pipe ps i).count == 0)) [
  | inr f ↦ rw (f, read_wait) (consume-Leaves i len v l)
  | inl f ↦
      rw (f, read_wait)
        (elim (Bool-cases (pipe ps i).opened) [
          | inr o ↦ rw o _
          | inl o ↦ rw o (elim (Bool-cases scheduler) [ inl a ↦ rw a _ | inr a ↦ rw a _ ])
        ])
]

pub read-Leaves :
    (id : ℤ) (len : ℕ) (scheduler : Bool) {ps : Pipes}
    → IsTable ps
    → Leaves (read id len scheduler ps [])
unfolding read valid_id
read-Leaves (negsuc n) len scheduler {ps} v = _
read-Leaves (pos i) len scheduler {ps} v = elim (Bool-cases (ltb i max_pipes)) [
  | inr e ↦ rw (invalid_id i (ground arith), read) _
  | inl e ↦
      let waits = wait-Leaves i len scheduler v (ground arith) in
      rw (valid_id-cases i (ground arith), read)
        (elim (Bool-cases (pipe ps i).opened) [
          | inl o ↦
              subst (λ (b : Bool). Leaves (if b then read_wait i len scheduler ps [] else failed))
                (sym o) waits
          | inr o ↦
              subst (λ (b : Bool). Leaves (if b then read_wait i len scheduler ps [] else failed))
                (sym o) _
        ])
]

-- pipe_write leaves the kernel alone or wakes the blocked processes.
pub write_kernel :
    (id : ℤ) (src : List ℕ) (ps : Pipes) (k : Kernel)
    → ((write id src ps k).2 ≡ k) ⊎ ((write id src ps k).2 ≡ Process.wake_all_blocked k)
unfolding write valid_id
write_kernel (negsuc n) src ps k = inl refl
write_kernel (pos i) src ps k = elim (Bool-cases (ltb i max_pipes)) [
  | inr e ↦ rw (invalid_id i (ground arith), write) (inl refl)
  | inl e ↦
      rw (valid_id-cases i (ground arith), write)
        (elim (Bool-cases (pipe ps i).opened) [
          | inr o ↦ rw o (inl refl)
          | inl o ↦ rw o (elim (Bool-cases (ltb 0 (write_loop src 0 (pipe ps i)).0)) [
            | inl w ↦ inr (rw w refl)
            | inr w ↦ inl (rw w refl)
          ])
        ])
]

pub init-IsTable : IsTable init
unfolding init
init-IsTable = record { slots = refl; rings = λ i l. ring 8 i }
  where
    ring : (n i : ℕ) → IsRing (get_or (replicate n zero_pipe) i zero_pipe)
    ring zero i = zero_pipe-IsRing false
    ring (suc n) zero = zero_pipe-IsRing false
    ring (suc n) (suc i) = ring n i
