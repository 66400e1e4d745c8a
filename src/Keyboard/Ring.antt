-- ===== src/Keyboard/Ring.antt =====
-- The ring buffer of kernel/keyboard.c as a queue of characters.
use vesper_os.Prelude.{
  ℕ, zero, suc, ◌+◌, ◌-◌, ◌%◌, ◌≤◌, ◌<◌, ◌≡◌, ◌≢◌, refl, sym, ap, ◌∙◌, inl, inr, List, [], ◌∷◌,
  ◌++◌, length, length-set, length-append, get_or, set, take, take_all, ◌==◌, Bool-cases, arith,
}
use vesper_os.Prelude.Ring.{step, window, window-set, length-window}
use vesper_os.Process.{Link}
use vesper_os.Keyboard.{
  Keyboard, State, kb_buf_size, push_char, pop_char, Getchar, got, wait_char, getchar,
}

-- The buffer has 64 entries, and the indices lie in it.
pub record IsRing (kb : Keyboard) : Type 0 where
  pub storage : length kb.buf ≡ kb_buf_size
  pub head_in : kb.head < kb_buf_size
  pub tail_in : kb.tail < kb_buf_size

abbrev pub count : Keyboard → ℕ
count kb = (kb.tail + kb_buf_size - kb.head) % kb_buf_size

-- The characters that wait, oldest first.
abbrev pub contents : Keyboard → List ℕ
contents kb = window kb_buf_size kb.buf kb.head (count kb)

pub length-contents : (kb : Keyboard) → length (contents kb) ≡ count kb
length-contents kb = length-window kb_buf_size kb.buf kb.head (count kb)

-- A queue of 63 places: what does not fit is dropped.
abbrev pub enqueue : ℕ → List ℕ → List ℕ
enqueue c q = take 63 (q ++ (c ∷ []))

take_fit : (q r : List ℕ) (n : ℕ) → length q ≡ n → take n (q ++ r) ≡ q
take_fit [] r zero e = refl
take_fit [] r (suc n) e = absurd (omega (arith, e))
take_fit (x ∷ q) r zero e = absurd (omega (arith, e))
take_fit (x ∷ q) r (suc n) e = ap (λ y. x ∷ y) (take_fit q r n (omega (arith, e)))

module _ {kb : Keyboard} (v : IsRing kb) (c : ℕ) where
  pub push_char-IsRing : IsRing (push_char c kb)
  unfolding push_char
  push_char-IsRing = elim (Bool-cases ((kb.tail + 1) % kb_buf_size == kb.head)) [
    | inl e ↦ rw e v
    | inr e ↦ rw e (record {
      storage = length-set kb.buf kb.tail c ∙ v.storage;
      head_in = v.head_in;
      tail_in = omega arith;
    })
  ]

  contents_full : (kb.tail + 1) % kb_buf_size ≡ kb.head → contents kb ≡ enqueue c (contents kb)
  contents_full full =
      sym (take_fit (contents kb) (c ∷ []) 63 (length-contents kb ∙ omega (arith, v.tail_in)))

  contents_room :
      (kb.tail + 1) % kb_buf_size ≢ kb.head
      → contents (record kb { buf = set kb.buf kb.tail c; tail = (kb.tail + 1) % kb_buf_size })
        ≡ enqueue c (contents kb)
  contents_room room =
      let n = count kb in
      let q : ((kb.tail + 1) % kb_buf_size + kb_buf_size - kb.head) % kb_buf_size ≡ suc n =
        omega (arith, v.tail_in, v.head_in) in
      let grown =
        window-set kb_buf_size kb.buf c n kb.head kb.tail v.storage v.head_in
          (omega (arith, v.tail_in, v.head_in)) v.tail_in (ground (arith, v.tail_in, v.head_in)) in
      let fits : length (contents kb ++ (c ∷ [])) ≤ 63 = omega (
        arith,
        length-append (contents kb) (c ∷ []),
        length-contents kb,
        q,
        v.head_in,
        v.tail_in,
      ) in
      rw (take_all 63 (contents kb ++ (c ∷ [])) fits)
        (ap (λ m. window kb_buf_size (set kb.buf kb.tail c) kb.head m) q ∙ grown)

  pub contents-push_char : contents (push_char c kb) ≡ enqueue c (contents kb)
  unfolding push_char
  contents-push_char = elim (Bool-cases ((kb.tail + 1) % kb_buf_size == kb.head)) [
    | inl e ↦ rw e (contents_full (ground arith))
    | inr e ↦ rw e (contents_room (ground arith))
  ]

contents-pop_char :
    {kb : Keyboard}
    → IsRing kb
    → kb.head ≢ kb.tail
    → contents kb ≡ (pop_char kb).0 ∷ contents (pop_char kb).1
unfolding pop_char
contents-pop_char {kb} v ne =
    let m = (kb.tail + kb_buf_size - (kb.head + 1) % kb_buf_size) % kb_buf_size in
    let q : count kb ≡ suc m = omega (arith, v.head_in, v.tail_in, ne) in
    let t : step kb_buf_size kb.head ≡ (kb.head + 1) % kb_buf_size = ground (arith, v.head_in) in
    ap (λ n. window kb_buf_size kb.buf kb.head n) q
    ∙ ap (λ h. get_or kb.buf kb.head 0 ∷ window kb_buf_size kb.buf h m) t

pop_char-IsRing : {kb : Keyboard} → IsRing kb → IsRing (pop_char kb).1
unfolding pop_char
pop_char-IsRing v = record { storage = v.storage; head_in = omega arith; tail_in = v.tail_in }

-- What keyboard_getchar does with the characters that wait.
abbrev pub Pops : Link → ℕ → State → List ℕ → Getchar → Type 0
Pops link esp s [] out = out ≡ wait_char link esp s.kernel.current s
Pops link esp s (c ∷ cs) out =
    (kb : Keyboard) × (out ≡ got c (record s { keyboard = kb })) × IsRing kb × (contents kb ≡ cs)

Pops-empty :
    (link : Link) (esp : ℕ) (s : State) (q : List ℕ) (out : Getchar)
    → length q ≡ 0
    → out ≡ wait_char link esp s.kernel.current s
    → Pops link esp s q out
Pops-empty link esp s [] out l e = e
Pops-empty link esp s (x ∷ q) out l e = absurd (omega (arith, l))

-- keyboard_getchar on a sound buffer returns the oldest character and leaves the others, and on an
-- empty buffer it changes no keyboard state: it blocks the process, or halts if there is none.
pub getchar_lem :
    (link : Link) (esp : ℕ) (s : State)
    → IsRing s.keyboard
    → Pops link esp s (contents s.keyboard) (getchar link esp s)
unfolding getchar
getchar_lem link esp s v = elim (Bool-cases (s.keyboard.head == s.keyboard.tail)) [
  | inl e ↦ rw e (
      Pops-empty link esp s (contents s.keyboard) _
        (length-contents s.keyboard ∙ ground (arith, v.head_in)) refl)
  | inr e ↦
      rw (e, contents-pop_char v (ground arith))
        ((pop_char s.keyboard).1, refl, pop_char-IsRing v, refl)
]
