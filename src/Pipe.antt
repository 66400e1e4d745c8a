-- ===== src/Pipe.antt =====
-- kernel/pipe.c and pipe.h: the table of eight ring-buffer pipes. `id` is an int. pipe_read blocks
-- in process_block; what other processes make of the table until it returns is a list of tables,
-- one for each time that it is woken, and `waiting` is the outcome when the list ends.
-- process_wake_all_blocked, which writers and pipe_close call, acts on the kernel's table.
pub mod Ring
pub mod Transfer
pub mod Close
pub mod Keep
pub mod Tests
use vesper_os.Prelude.{
  ℕ, zero, suc, ◌+◌, ◌-◌, ◌*◌, ◌/◌, ◌%◌, ◌<◌, Bool, true, false, ◌&&◌, ◌||◌, not, Option, none,
  some, List, [], ◌∷◌, length, get_or, set, replicate, ltb, leb, ◌==◌, if◌then◌else◌,
}
use vesper_os.Prelude.Int.{ℤ, pos, negsuc}
use vesper_os.Process
use vesper_os.Process.{Kernel}

abbrev pub pipe_buf_size : ℕ
pipe_buf_size = 256

abbrev pub max_pipes : ℕ
max_pipes = 8

-- `pipe_t`; `opened` is its field `open`.
pub record Pipe : Type 0 where
  pub buf : List ℕ
  pub head : ℕ
  pub tail : ℕ
  pub count : ℕ
  pub opened : Bool

abbrev pub zero_pipe : Pipe
zero_pipe = record { buf = replicate 256 0; head = 0; tail = 0; count = 0; opened = false }

abbrev pub Pipes : Type 0
Pipes = List Pipe

abbrev pub pipe : Pipes → ℕ → Pipe
pipe ps i = get_or ps i zero_pipe

pub init : Pipes
init = replicate 8 zero_pipe

-- The id that the test at the head of each function lets through.
pub valid_id : ℤ → Option ℕ
valid_id (pos i) = if ltb i max_pipes then some i else none
valid_id (negsuc i) = none

-- The first slot from number `i` on that is not open.
pub free_slot : ℕ → Pipes → Option ℕ
free_slot i [] = none
free_slot i (p ∷ ps) = let rest = free_slot (i + 1) ps in if p.opened then rest else some i

pub alloc : Pipes → ℤ × Pipes
alloc ps = elim (free_slot 0 ps) [
  | none ↦ (negsuc 0, ps)
  | some i ↦ (pos i, set ps i (record zero_pipe { opened = true }))
]

-- A round of the loop of pipe_write, and the loop over the bytes of the caller's buffer.
pub push_byte : ℕ → Pipe → Pipe
push_byte byte p = record p {
  buf = set p.buf p.tail byte;
  tail = (p.tail + 1) % pipe_buf_size;
  count = p.count + 1;
}

pub write_loop : List ℕ → ℕ → Pipe → ℕ × Pipe
write_loop [] written p = (written, p)
write_loop (x ∷ src) written p =
    let rest = write_loop src (written + 1) (push_byte x p) in
    if ltb p.count pipe_buf_size then rest else (written, p)

-- pipe_write of the bytes `src`: its result, the table, and the kernel.
pub write : ℤ → List ℕ → Pipes → Kernel → ℤ × Pipes × Kernel
write id src ps k = elim (valid_id id) [
  | none ↦ (negsuc 0, ps, k)
  | some i ↦
      let (written, p) = write_loop src 0 (pipe ps i) in
      let k' = if ltb 0 written then Process.wake_all_blocked k else k in
      if (pipe ps i).opened then (pos written, set ps i p, k') else (negsuc 0, ps, k)
]

-- A round of the copying loop of pipe_read, and the loop for `n` bytes.
pub pop_byte : Pipe → ℕ × Pipe
pop_byte p =
    (get_or p.buf p.head 0, record p { head = (p.head + 1) % pipe_buf_size; count = p.count - 1 })

pub read_loop : ℕ → Pipe → List ℕ × Pipe
read_loop zero p = ([], p)
read_loop (suc n) p =
    let (byte, p') = pop_byte p in let (bytes, p'') = read_loop n p' in (byte ∷ bytes, p'')

pub data ReadOutcome : Type 0 where
  failed : ReadOutcome
  got : List ℕ → Pipes → ReadOutcome
  waiting : ReadOutcome

-- `to_read = (len < count) ? len : count`, and the copy.
pub consume : ℕ → ℕ → Pipes → ReadOutcome
consume i len ps =
    let p = pipe ps i in
    let (bytes, p') = read_loop (if ltb len p.count then len else p.count) p in
    got bytes (set ps i p')

-- The loop of pipe_read from the table `ps`; `scheduler` is whether current_process is set.
pub read_wait : ℕ → ℕ → Bool → Pipes → List Pipes → ReadOutcome
read_wait i len scheduler ps [] =
    let p = pipe ps i in
    if p.count == 0
    then if p.opened then if scheduler then waiting else failed else failed
    else consume i len ps
read_wait i len scheduler ps (woken ∷ later) =
    let p = pipe ps i in
    let rest = read_wait i len scheduler woken later in
    if p.count == 0
    then if p.opened then if scheduler then rest else failed else failed
    else consume i len ps

pub read : ℤ → ℕ → Bool → Pipes → List Pipes → ReadOutcome
read id len scheduler ps wakes = elim (valid_id id) [
  | none ↦ failed
  | some i ↦ if (pipe ps i).opened then read_wait i len scheduler ps wakes else failed
]

pub close : ℤ → Pipes → Kernel → Pipes × Kernel
close id ps k = elim (valid_id id) [
  | none ↦ (ps, k)
  | some i ↦ (set ps i (record (pipe ps i) { opened = false }), Process.wake_all_blocked k)
]
