-- ===== src/Pipe/Transfer.antt =====
-- pipe_write and pipe_read of kernel/pipe.c on the table of pipes.
use native.Mathlib.Decide.{ℕ_discrete}
use vesper_os.Prelude.{
  ℕ, ◌-◌, ◌≤◌, ◌<◌, min, ◌≡◌, ◌≢◌, refl, sym, ap, ◌∙◌, Bool, true, false, some, List, [], ◌∷◌, ◌++◌,
  length, length-set, get_or-set_self, get_or-set_ne, set, take, drop, take_all, drop_all, ltb,
  ◌==◌, if◌then◌else◌, Bool-cases, inl, inr, arith,
}
use vesper_os.Prelude.Int.{ℤ, pos}
use vesper_os.Process
use vesper_os.Process.{Kernel}
use vesper_os.Pipe.{
  Pipe, Pipes, pipe, zero_pipe, pipe_buf_size, max_pipes, valid_id, write_loop, read_loop, write,
  read, read_wait, consume, got,
}
use vesper_os.Pipe.Ring.{IsRing, contents, length-contents, write_loop_lem, read_loop_lem}

-- The table has eight pipes, each a ring.
pub record IsTable (ps : Pipes) : Type 0 where
  pub slots : length ps ≡ max_pipes
  pub rings : (i : ℕ) → i < max_pipes → IsRing (pipe ps i)

pub valid_id_pos : (i : ℕ) → i < max_pipes → valid_id (pos i) ≡ some i
unfolding valid_id
valid_id_pos i l = ground arith

pub set-IsTable :
    (ps : Pipes) (i : ℕ) (p : Pipe) → i < max_pipes → IsTable ps → IsRing p → IsTable (set ps i p)
set-IsTable ps i p l v r = record {
  slots = length-set ps i p ∙ v.slots;
  rings = λ j h. elim (ℕ_discrete j i) [
    | yes e ↦ rw (e, get_or-set_self ps i p zero_pipe (omega (arith, v.slots))) r
    | no ne ↦ rw (get_or-set_ne ps i j p zero_pipe (λ e. ne (sym e))) (v.rings j h)
  ];
}

-- What pipe_write to the open pipe `i` returns and changes.
pub record WriteDone (i : ℕ) (src : List ℕ) (ps : Pipes) (k : Kernel) (out : ℤ × Pipes × Kernel)
    : Type 0 where
  pub written : out.0 ≡ pos (min (length src) (pipe_buf_size - (pipe ps i).count))
  pub table : IsTable out.1
  pub bytes :
      contents (pipe out.1 i) ≡ contents (pipe ps i) ++ take (pipe_buf_size - (pipe ps i).count) src
  pub opened : (pipe out.1 i).opened ≡ true
  pub others : (j : ℕ) → j ≢ i → pipe out.1 j ≡ pipe ps j
  pub wakes : out.2 ≡ (
      if ltb 0 (min (length src) (pipe_buf_size - (pipe ps i).count))
      then Process.wake_all_blocked k
      else k)

-- pipe_write to an open pipe of a valid table appends the longest prefix of the data that fits,
-- returns its length, leaves the other pipes, and wakes the blocked processes exactly if it wrote
-- something.
pub write_lem :
    (i : ℕ) (src : List ℕ) {ps : Pipes} (k : Kernel)
    → IsTable ps
    → i < max_pipes
    → (pipe ps i).opened ≡ true
    → WriteDone i src ps k (write (pos i) src ps k)
unfolding write
write_lem i src {ps} k v l o =
    let w = write_loop_lem src 0 (v.rings i l) in
    let out = write_loop src 0 (pipe ps i) in
    let at = get_or-set_self ps i out.1 zero_pipe (omega (arith, v.slots)) in
    let n : out.0 ≡ min (length src) (pipe_buf_size - (pipe ps i).count) = omega (arith, w.count) in
    rw (valid_id_pos i l, write)
      (rw o record {
        written = ap pos n;
        table = set-IsTable ps i out.1 l v w.ring;
        bytes = rw at w.bytes;
        opened = rw at (w.opened ∙ o);
        others = λ j ne. get_or-set_ne ps i j out.1 zero_pipe (λ e. ne (sym e));
        wakes = rw n refl;
      })

-- What pipe_read of `len` bytes from pipe `i` gives out and leaves.
pub record ReadDone (i len : ℕ) (ps : Pipes) (bytes : List ℕ) (ps' : Pipes) : Type 0 where
  pub table : IsTable ps'
  pub prefix : bytes ≡ take len (contents (pipe ps i))
  pub rest : contents (pipe ps' i) ≡ drop len (contents (pipe ps i))
  pub opened : (pipe ps' i).opened ≡ (pipe ps i).opened
  pub others : (j : ℕ) → j ≢ i → pipe ps' j ≡ pipe ps j

pub consume_lem :
    (i len : ℕ) {ps : Pipes}
    → IsTable ps
    → i < max_pipes
    → (bytes : List ℕ) × (ps' : Pipes) × (consume i len ps ≡ got bytes ps')
      × ReadDone i len ps bytes ps'
unfolding consume
consume_lem i len {ps} v l = elim (Bool-cases (ltb len (pipe ps i).count)) [
  | inl e ↦ rw (e, consume) (done len (ground arith) refl refl)
  | inr e ↦
      let c = length-contents (pipe ps i) in
      let h : length (contents (pipe ps i)) ≤ len = ground (arith, c) in
      let h' : length (contents (pipe ps i)) ≤ (pipe ps i).count = omega (arith, c) in
      rw (e, consume)
        (done (pipe ps i).count (omega arith) (take_all _ _ h' ∙ sym (take_all _ _ h))
          (drop_all _ _ h' ∙ sym (drop_all _ _ h)))
]
  where
    done :
        (n : ℕ)
        → n ≤ (pipe ps i).count
        → take n (contents (pipe ps i)) ≡ take len (contents (pipe ps i))
        → drop n (contents (pipe ps i)) ≡ drop len (contents (pipe ps i))
        → (bytes : List ℕ) × (ps' : Pipes) × (got
              (read_loop n (pipe ps i)).0
              (set ps i (read_loop n (pipe ps i)).1)
            ≡ got bytes ps')
          × ReadDone i len ps bytes ps'
    done n h t d =
        let r = read_loop_lem n (v.rings i l) h in
        let out = read_loop n (pipe ps i) in
        let at = get_or-set_self ps i out.1 zero_pipe (omega (arith, v.slots)) in
        (
          out.0,
          set ps i out.1,
          refl,
          record {
            table = set-IsTable ps i out.1 l v r.ring;
            prefix = r.bytes ∙ t;
            rest = rw at (r.rest ∙ d);
            opened = rw at r.opened;
            others = λ j ne. get_or-set_ne ps i j out.1 zero_pipe (λ e. ne (sym e));
          },
        )

pub read_wait_full :
    (i len : ℕ) (scheduler : Bool) (ps : Pipes) (wakes : List Pipes)
    → ((pipe ps i).count == 0) ≡ false
    → read_wait i len scheduler ps wakes ≡ consume i len ps
unfolding read_wait
read_wait_full i len scheduler ps [] full = rw full refl
read_wait_full i len scheduler ps (woken ∷ later) full = rw full refl

-- pipe_read of an open pipe of a valid table that holds something does not block: it gives out the
-- oldest bytes, as many as are asked for and there, and leaves the rest and the other pipes.
pub read_lem :
    (i len : ℕ) (scheduler : Bool) {ps : Pipes} (wakes : List Pipes)
    → IsTable ps
    → i < max_pipes
    → (pipe ps i).opened ≡ true
    → (pipe ps i).count ≢ 0
    → (bytes : List ℕ) × (ps' : Pipes) × (read (pos i) len scheduler ps wakes ≡ got bytes ps')
      × ReadDone i len ps bytes ps'
unfolding read
read_lem i len scheduler {ps} wakes v l o ne =
    let full : ((pipe ps i).count == 0) ≡ false = ground arith in
    rw (valid_id_pos i l, read)
      (rw o (rw (read_wait_full i len scheduler ps wakes full) (consume_lem i len v l)))

-- A round trip: on a valid table, what is written into an empty open pipe, if it is something and
-- fits, is what the next read of
-- that length gives out, and the pipe is empty again.
pub read-write :
    (i : ℕ) (src : List ℕ) (scheduler : Bool) {ps : Pipes} (k : Kernel) (wakes : List Pipes)
    → IsTable ps
    → i < max_pipes
    → (pipe ps i).opened ≡ true
    → (pipe ps i).count ≡ 0
    → 0 < length src
    → length src ≤ pipe_buf_size
    → (ps' : Pipes) × (read (pos i) (length src) scheduler (write (pos i) src ps k).1 wakes
        ≡ got src ps')
      × (contents (pipe ps' i) ≡ [])
read-write i src scheduler {ps} k wakes v l o z nonempty fits =
    let w = write_lem i src k v l o in
    let ps1 = (write (pos i) src ps k).1 in
    let empty : contents (pipe ps i) ≡ [] = rw z refl in
    let all : take (pipe_buf_size - (pipe ps i).count) src ≡ src = take_all _ src (omega arith) in
    let held : contents (pipe ps1 i) ≡ src = w.bytes ∙ rw (empty, all) refl in
    let count : (pipe ps1 i).count ≡ length src =
      sym (length-contents (pipe ps1 i)) ∙ ap length held in
    let (bytes, ps', e, r) =
      read_lem i (length src) scheduler wakes w.table l w.opened (omega (arith, count)) in
    let same : bytes ≡ src = r.prefix ∙ rw held (take_all (length src) src (omega arith)) in
    (ps', e ∙ ap (λ b. got b ps') same, r.rest ∙ rw held (drop_all (length src) src (omega arith)))
