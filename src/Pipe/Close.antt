-- ===== src/Pipe/Close.antt =====
-- pipe_alloc and pipe_close of kernel/pipe.c, and readers that block across them.
use native.Mathlib.Decide.{dec_lt}
use vesper_os.Prelude.{
  ℕ, zero, suc, ◌+◌, ◌<◌, ◌≡◌, ◌≢◌, refl, sym, ap, ◌∙◌, ◌⊎◌, inl, inr, Bool, true, false, Option,
  none, some, List, [], ◌∷◌, length, length-replicate, get_or-set_self, get_or-set_ne, Bool-cases,
  arith,
}
use vesper_os.Prelude.Int.{pos, negsuc}
use vesper_os.Process.{Kernel}
use vesper_os.Pipe.{
  Pipes, pipe, zero_pipe, max_pipes, free_slot, alloc, write, read, read_wait, close, failed,
  waiting,
}
use vesper_os.Pipe.Ring.{IsRing}
use vesper_os.Pipe.Transfer.{IsTable, valid_id_pos, set-IsTable}

pub zero_pipe-IsRing : (o : Bool) → IsRing (record zero_pipe { opened = o })
zero_pipe-IsRing o = record {
  storage = length-replicate {A = ℕ} 256 0;
  head_in = omega arith;
  count_in = omega arith;
  tail_at = refl;
}

-- The first pipe that is not open, or none.
abbrev Frees : Pipes → Option ℕ → Type 0
Frees ps none = (j : ℕ) → j < length ps → (pipe ps j).opened ≡ true
Frees ps (some i) =
    (i < length ps) × ((pipe ps i).opened ≡ false) × ((j : ℕ) → j < i → (pipe ps j).opened ≡ true)

free_slot_at :
    (i : ℕ) (ps : Pipes)
    → ((free_slot i ps ≡ none) × Frees ps none)
      ⊎ ((j : ℕ) × (free_slot i ps ≡ some (i + j)) × Frees ps (some j))
unfolding free_slot
free_slot_at i [] = inl (refl, λ j l. elim l [ ])
free_slot_at i (p ∷ ps) = elim (Bool-cases p.opened) [
  | inr e ↦ inr (0, rw e (ap some (omega arith)), (omega arith, e, λ j l. elim l [ ]))
  | inl e ↦ later e (free_slot_at (i + 1) ps)
]
  where
    cons_all :
        p.opened ≡ true
        → (n : ℕ) → ((j : ℕ) → j < n → (pipe ps j).opened ≡ true)
        → (j : ℕ) → j < suc n
        → (pipe (p ∷ ps) j).opened ≡ true
    cons_all e n h zero l = e
    cons_all e n h (suc j) l = h j (omega arith)

    later :
        p.opened ≡ true
        → ((free_slot (i + 1) ps ≡ none) × Frees ps none)
          ⊎ ((j : ℕ) × (free_slot (i + 1) ps ≡ some (i + 1 + j)) × Frees ps (some j))
        → ((free_slot i (p ∷ ps) ≡ none) × Frees (p ∷ ps) none)
          ⊎ ((j : ℕ) × (free_slot i (p ∷ ps) ≡ some (i + j)) × Frees (p ∷ ps) (some j))
    later e (inl (q, h)) = inl (rw e q, cons_all e (length ps) h)
    later e (inr (j, q, (l, o, h))) =
        inr (suc j, rw e (q ∙ ap some (omega arith)), (omega arith, o, cons_all e j h))

-- pipe_alloc gave out pipe `i`.
pub record Allocated (ps : Pipes) (i : ℕ) (ps' : Pipes) : Type 0 where
  pub in_table : i < max_pipes
  pub was_closed : (pipe ps i).opened ≡ false
  pub lowest : (j : ℕ) → j < i → (pipe ps j).opened ≡ true
  pub fresh : pipe ps' i ≡ record zero_pipe { opened = true }
  pub others : (j : ℕ) → j ≢ i → pipe ps' j ≡ pipe ps j
  pub table : IsTable ps'

-- pipe_alloc on a valid table either finds all eight pipes open, returns -1 and changes nothing; or
-- it returns the number of the first closed pipe, makes that one open and empty, and keeps the
-- others.
pub alloc_lem :
    {ps : Pipes}
    → IsTable ps
    → ((alloc ps ≡ (negsuc 0, ps)) × ((j : ℕ) → j < max_pipes → (pipe ps j).opened ≡ true))
      ⊎ ((i : ℕ) × ((alloc ps).0 ≡ pos i) × Allocated ps i (alloc ps).1)
unfolding alloc
alloc_lem {ps} v = elim (free_slot_at 0 ps) [
  | inl (e, h) ↦ rw (e, alloc) (inl (refl, λ j l. h j (omega (arith, v.slots))))
  | inr (i, e, (l, o, h)) ↦
      let q : 0 + i ≡ i = omega arith in
      rw (e, alloc)
        (rw q (
          inr (
            i,
            refl,
            record {
              in_table = omega (arith, v.slots);
              was_closed = o;
              lowest = h;
              fresh = get_or-set_self ps i _ zero_pipe l;
              others = λ j ne. get_or-set_ne ps i j _ zero_pipe (λ x. ne (sym x));
              table = set-IsTable ps i _ (omega (arith, v.slots)) v (zero_pipe-IsRing true);
            },
          )))
]

-- A round of the waiting loop on an empty pipe that is open, and one on a closed one.
read_wait_empty :
    (i len : ℕ) (ps woken : Pipes) (later : List Pipes)
    → (pipe ps i).count ≡ 0
    → (pipe ps i).opened ≡ true
    → read_wait i len true ps (woken ∷ later) ≡ read_wait i len true woken later
unfolding read_wait
read_wait_empty i len ps woken later z o = ground arith

read_wait_open :
    (i len : ℕ) (ps : Pipes)
    → (pipe ps i).count ≡ 0
    → (pipe ps i).opened ≡ true
    → read_wait i len true ps [] ≡ waiting
unfolding read_wait
read_wait_open i len ps z o = ground arith

read_wait_closed :
    (i len : ℕ) (ps : Pipes) (wakes : List Pipes)
    → (pipe ps i).count ≡ 0
    → (pipe ps i).opened ≡ false
    → read_wait i len true ps wakes ≡ failed
unfolding read_wait
read_wait_closed i len ps [] z o = ground arith
read_wait_closed i len ps (woken ∷ later) z o = ground arith

module _ (i : ℕ) {ps : Pipes} (k : Kernel) (v : IsTable ps) (l : i < max_pipes) where
  opened-close : (pipe (close (pos i) ps k).0 i).opened ≡ false
  unfolding close
  opened-close =
      rw (valid_id_pos i l, close)
        (ap (λ p. p.opened) (get_or-set_self ps i _ zero_pipe (omega (arith, v.slots))))

  count-close : (pipe (close (pos i) ps k).0 i).count ≡ (pipe ps i).count
  unfolding close
  count-close =
      rw (valid_id_pos i l, close)
        (ap (λ p. p.count) (get_or-set_self ps i _ zero_pipe (omega (arith, v.slots))))

  -- After pipe_close of a pipe of a valid table both pipe_read and pipe_write of the pipe fail and
  -- change nothing, also when bytes were left in it.
  pub close_refuses :
      (len : ℕ) (scheduler : Bool) (wakes : List Pipes) (src : List ℕ)
      → let (ps', k') = close (pos i) ps k in
        (read (pos i) len scheduler ps' wakes ≡ failed)
        × (write (pos i) src ps' k' ≡ (negsuc 0, ps', k'))
  unfolding read write
  close_refuses len scheduler wakes src = (
    rw (valid_id_pos i l, read) (rw opened-close refl),
    rw (valid_id_pos i l, write) (rw opened-close refl),
  )

  -- A reader that blocks on an empty open pipe of a valid table and is woken by its pipe_close gets -1.
  pub close_wakes_reader :
      (len : ℕ) (later : List Pipes)
      → (pipe ps i).opened ≡ true
      → (pipe ps i).count ≡ 0
      → read (pos i) len true ps ((close (pos i) ps k).0 ∷ later) ≡ failed
  unfolding read
  close_wakes_reader len later o z =
      rw (valid_id_pos i l, read)
        (rw o (
          rw (read_wait_empty i len ps _ later z o)
            (read_wait_closed i len _ later (count-close ∙ z) opened-close)))

  IsTable-close : IsTable (close (pos i) ps k).0
  unfolding close
  IsTable-close =
      let r = v.rings i l in
      rw (valid_id_pos i l, close)
        (set-IsTable ps i _ l v (record {
          storage = r.storage;
          head_in = r.head_in;
          count_in = r.count_in;
          tail_at = r.tail_at;
        }))

  others-close : (j : ℕ) → j ≢ i → pipe (close (pos i) ps k).0 j ≡ pipe ps j
  unfolding close
  others-close j ne =
      rw (valid_id_pos i l, close) (get_or-set_ne ps i j _ zero_pipe (λ x. ne (sym x)))

  -- On a valid table, a reader blocked on an empty open pipe does not get -1 if the pipe is given
  -- out again before it runs: woken by a pipe_close that a pipe_alloc of the same slot follows, it
  -- goes on waiting, on a pipe that belongs to somebody else. (The slot is the one given out if
  -- those below it are open.)
  pub close-alloc_keeps_waiting :
      (len : ℕ)
      → (pipe ps i).opened ≡ true
      → (pipe ps i).count ≡ 0
      → ((j : ℕ) → j < i → (pipe ps j).opened ≡ true)
      → read (pos i) len true ps ((alloc (close (pos i) ps k).0).1 ∷ []) ≡ waiting
  unfolding read
  close-alloc_keeps_waiting len o z below = elim (alloc_lem IsTable-close) [
    | inl (e, full) ↦ let clash : true ≡ false = sym (full i l) ∙ opened-close in absurd (cc)
    | inr (i', e, a) ↦
        let same : i' ≡ i = reused i' a.was_closed a.lowest in
        let fresh = ap (λ n. pipe (alloc (close (pos i) ps k).0).1 n) (sym same) ∙ a.fresh in
        rw (valid_id_pos i l, read)
          (rw o (
            read_wait_empty i len ps _ [] z o
            ∙ read_wait_open i len _ (ap (λ p. p.count) fresh) (ap (λ p. p.opened) fresh)))
  ]
    where
      reused :
          (i' : ℕ)
          → (pipe (close (pos i) ps k).0 i').opened ≡ false
          → ((j : ℕ) → j < i' → (pipe (close (pos i) ps k).0 j).opened ≡ true)
          → i' ≡ i
      reused i' c low = elim (dec_lt i' i) [
        | yes lt ↦
            let still = ap (λ p. p.opened) (others-close i' (omega arith)) ∙ below i' lt in
            let clash : true ≡ false = sym still ∙ c in absurd (cc)
        | no ge ↦ elim (dec_lt i i') [
          | yes gt ↦ let clash : true ≡ false = sym (low i gt) ∙ opened-close in absurd (cc)
          | no le ↦ omega arith
        ]
      ]
