-- ===== src/Pipe/Ring.antt =====
-- One pipe of kernel/pipe.c as a queue of bytes.
use vesper_os.Prelude.{
  ℕ, zero, suc, ◌+◌, ◌-◌, ◌%◌, ◌≤◌, ◌<◌, min, ◌≡◌, refl, ap, ◌∙◌, List, [], ◌∷◌, ◌++◌, length,
  length-set, get_or, get_or-set_self, get_or-set_ne, set, take, drop, take-nil, take-cons,
  append-nil, append_assoc, ltb, Bool-cases, inl, inr, arith,
}
use vesper_os.Pipe.{Pipe, pipe_buf_size, push_byte, write_loop, pop_byte, read_loop}

-- The buffer has 256 bytes, the indices lie in it, and `tail` stands `count` bytes after `head`.
pub record IsRing (p : Pipe) : Type 0 where
  pub storage : length p.buf ≡ pipe_buf_size
  pub head_in : p.head < pipe_buf_size
  pub count_in : p.count ≤ pipe_buf_size
  pub tail_at : p.tail ≡ (p.head + p.count) % pipe_buf_size

-- The `n` bytes from index `h` on, going round at 256.
abbrev pub window : List ℕ → ℕ → ℕ → List ℕ
window buf h zero = []
window buf h (suc n) = get_or buf h 0 ∷ window buf ((h + 1) % pipe_buf_size) n

-- The bytes in a pipe, oldest first.
abbrev pub contents : Pipe → List ℕ
contents p = window p.buf p.head p.count

length-window : (buf : List ℕ) (h n : ℕ) → length (window buf h n) ≡ n
length-window buf h zero = refl
length-window buf h (suc n) = ap suc (length-window buf ((h + 1) % pipe_buf_size) n)

pub length-contents : (p : Pipe) → length (contents p) ≡ p.count
length-contents p = length-window p.buf p.head p.count

-- Writing behind a window that does not fill the buffer extends it by that byte.
window-set :
    (buf : List ℕ) (x n h i : ℕ)
    → length buf ≡ pipe_buf_size
    → h < pipe_buf_size
    → n < pipe_buf_size
    → i ≡ (h + n) % pipe_buf_size
    → window (set buf i x) h (suc n) ≡ window buf h n ++ (x ∷ [])
window-set buf x zero h i s lh ln e =
    let q : i ≡ h = omega arith in rw q (ap (λ y. y ∷ []) (get_or-set_self buf h x 0 (omega arith)))
window-set buf x (suc n) h i s lh ln e =
    let first = get_or-set_ne buf i h x 0 (omega arith) in
    let rest =
      window-set buf x n ((h + 1) % pipe_buf_size) i s (omega arith) (omega arith) (omega arith) in
    rw first (ap (λ r. get_or buf h 0 ∷ r) rest)

module _ {p : Pipe} (v : IsRing p) (x : ℕ) (room : p.count < pipe_buf_size) where
  pub push_byte-IsRing : IsRing (push_byte x p)
  unfolding push_byte
  push_byte-IsRing = record {
    storage = length-set p.buf p.tail x ∙ v.storage;
    head_in = v.head_in;
    count_in = omega arith;
    tail_at = omega (arith, v.tail_at, v.head_in);
  }

  pub contents-push_byte : contents (push_byte x p) ≡ contents p ++ (x ∷ [])
  unfolding push_byte
  contents-push_byte =
      let e : p.count + 1 ≡ suc p.count = omega arith in
      rw e (window-set p.buf x p.count p.head p.tail v.storage v.head_in room v.tail_at)

count-push_byte : (x : ℕ) (p : Pipe) → (push_byte x p).count ≡ p.count + 1
unfolding push_byte
count-push_byte x p = refl

opened-push_byte : (x : ℕ) (p : Pipe) → (push_byte x p).opened ≡ p.opened
unfolding push_byte
opened-push_byte x p = refl

-- What the loop of pipe_write has done when it stops.
pub record Wrote (p : Pipe) (src : List ℕ) (written : ℕ) (out : ℕ × Pipe) : Type 0 where
  pub ring : IsRing out.1
  pub count : out.0 ≡ written + min (length src) (pipe_buf_size - p.count)
  pub bytes : contents out.1 ≡ contents p ++ take (pipe_buf_size - p.count) src
  pub opened : out.1.opened ≡ p.opened

pub write_loop_lem :
    (src : List ℕ) {p : Pipe} (written : ℕ)
    → IsRing p
    → Wrote p src written (write_loop src written p)
unfolding write_loop
write_loop_lem [] {p} written v = record {
  ring = v;
  count = omega arith;
  bytes = rw (take-nil, append-nil);
  opened = refl;
}
write_loop_lem (x ∷ src) {p} written v = elim (Bool-cases (ltb p.count pipe_buf_size)) [
  | inr e ↦
      let z : pipe_buf_size - p.count ≡ 0 = ground (arith, v.count_in) in
      rw (e, write_loop)
        record { ring = v; count = omega (arith, z); bytes = rw (z, append-nil); opened = refl }
  | inl e ↦
      let room : p.count < pipe_buf_size = ground arith in
      let rest = write_loop_lem src (written + 1) (push_byte-IsRing v x room) in
      let c = count-push_byte x p in
      rw (e, write_loop)
        record {
          ring = rest.ring;
          count = omega (arith, rest.count, c);
          bytes = ground (
            arith,
            rest.bytes,
            contents-push_byte v x room,
            c,
            take-cons (pipe_buf_size - p.count) x src,
            append_assoc (contents p) (x ∷ []) (take (pipe_buf_size - p.count - 1) src),
          );
          opened = rest.opened ∙ opened-push_byte x p;
        }
]

module _ {p : Pipe} (v : IsRing p) (some_in : 0 < p.count) where
  pop_byte-IsRing : IsRing (pop_byte p).1
  unfolding pop_byte
  pop_byte-IsRing = record {
    storage = v.storage;
    head_in = omega arith;
    count_in = omega (arith, v.count_in);
    tail_at = omega (arith, v.tail_at, v.head_in);
  }

  contents-pop_byte : contents p ≡ (pop_byte p).0 ∷ contents (pop_byte p).1
  unfolding pop_byte
  contents-pop_byte = window_step p.count some_in
    where
      window_step :
          (n : ℕ)
          → 0 < n
          → window p.buf p.head n
            ≡ get_or p.buf p.head 0 ∷ window p.buf ((p.head + 1) % pipe_buf_size) (n - 1)
      window_step zero h = elim h [ ]
      window_step (suc n) h = let e : suc n - 1 ≡ n = omega arith in rw e refl

count-pop_byte : (p : Pipe) → (pop_byte p).1.count ≡ p.count - 1
unfolding pop_byte
count-pop_byte p = refl

opened-pop_byte : (p : Pipe) → (pop_byte p).1.opened ≡ p.opened
unfolding pop_byte
opened-pop_byte p = refl

-- What the copying loop of pipe_read has done.
pub record Read (p : Pipe) (n : ℕ) (out : List ℕ × Pipe) : Type 0 where
  pub ring : IsRing out.1
  pub bytes : out.0 ≡ take n (contents p)
  pub rest : contents out.1 ≡ drop n (contents p)
  pub opened : out.1.opened ≡ p.opened

pub read_loop_lem : (n : ℕ) {p : Pipe} → IsRing p → n ≤ p.count → Read p n (read_loop n p)
unfolding read_loop
read_loop_lem zero v h = record { ring = v; bytes = refl; rest = refl; opened = refl }
read_loop_lem (suc n) {p} v h =
    let rest =
      read_loop_lem n (pop_byte-IsRing v (omega arith)) (omega (arith, count-pop_byte p)) in
    let split = contents-pop_byte v (omega arith) in
    record {
      ring = rest.ring;
      bytes = rw split (ap (λ r. (pop_byte p).0 ∷ r) rest.bytes);
      rest = rw split rest.rest;
      opened = rest.opened ∙ opened-pop_byte p;
    }
