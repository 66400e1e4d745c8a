-- ===== src/Keyboard/Decode.antt =====
-- What keyboard_irq_handler of kernel/keyboard.c makes of a sequence of scancodes.
use vesper_os.Prelude.{
  ℕ, zero, suc, ◌<◌, ◌≡◌, refl, sym, ap, ◌∙◌, inl, inr, Bool, true, false, List, [], ◌∷◌, ◌++◌,
  take, ◌==◌, if◌then◌else◌, Bool-cases,
}
use vesper_os.Keyboard.{State, special_key, translate, irq_handler}
use vesper_os.Keyboard.Ring.{IsRing, contents}
use vesper_os.Keyboard.Handler.{
  Typed, text, shift_after, key_text, key_shift, Typed-none, handler_step,
}

-- The characters that a sequence of scancodes types, from the state of Shift and of the prefix.
abbrev pub decode : Bool → Bool → List ℕ → List ℕ
decode shift extended [] = []
decode shift extended (c ∷ cs) =
    let prefixed = decode shift true cs in
    let after = decode shift false cs in
    let plain = decode (shift_after shift c) false cs in
    if c == 0xE0
    then prefixed
    else if extended
    then text (special_key c) ++ after
    else text (translate shift c) ++ plain

pub irq_run : List ℕ → State → State
irq_run [] s = s
irq_run (c ∷ cs) s = irq_run cs (irq_handler c s)

abbrev pub IsBytes : List ℕ → Type 0
IsBytes [] = Unit {0}
IsBytes (c ∷ cs) = (c < 256) × IsBytes cs

unroll :
    (shift extended : Bool) (c : ℕ) (cs : List ℕ)
    → decode shift extended (c ∷ cs)
      ≡ key_text shift extended c ++ decode (key_shift shift extended c) (c == 0xE0) cs
unroll shift extended c cs = elim (Bool-cases (c == 0xE0)) [
  | inl p ↦ rw p refl
  | inr p ↦ rw p (unprefixed extended)
]
  where
    unprefixed :
        (extended : Bool)
        → (if extended
            then text (special_key c) ++ decode shift false cs
            else text (translate shift c) ++ decode (shift_after shift c) false cs)
          ≡ (if extended then text (special_key c) else text (translate shift c))
            ++ decode (if extended then shift else shift_after shift c) false cs
    unprefixed true = refl
    unprefixed false = refl

take_twice : (q a r : List ℕ) (n : ℕ) → take n (take n (q ++ a) ++ r) ≡ take n (q ++ (a ++ r))
take_twice q a r zero = refl
take_twice [] [] r (suc n) = refl
take_twice [] (y ∷ a) r (suc n) = ap (λ z. y ∷ z) (take_twice [] a r n)
take_twice (x ∷ q) a r (suc n) = ap (λ z. x ∷ z) (take_twice q a r n)

run_step :
    {typed : List ℕ} {shift extended : Bool} {before : List ℕ} (s : State) (rest : List ℕ)
    (out : State)
    → Typed typed shift extended before s
    → (contents out.keyboard ≡ take 63 (contents s.keyboard ++ rest))
    → contents out.keyboard ≡ take 63 (before ++ (typed ++ rest))
run_step {typed} {shift} {extended} {before} s rest out d e =
    e ∙ ap (λ q. take 63 (q ++ rest)) d.queue ∙ take_twice before typed rest 63

next_text :
    {typed : List ℕ} {shift extended : Bool} {before : List ℕ} {s : State} (cs : List ℕ)
    → Typed typed shift extended before s
    → typed ++ decode s.keyboard.shift_pressed s.keyboard.extended_code cs
      ≡ typed ++ decode shift extended cs
next_text {typed} {shift} {extended} {before} {s} cs d =
    ap (λ b. typed ++ decode b s.keyboard.extended_code cs) d.shift_is
    ∙ ap (λ b. typed ++ decode shift b cs) d.extended_is

-- From a sound buffer, a sequence of scancodes that are bytes appends to the waiting characters
-- those that it types, as far as 63 characters fit, and leaves a sound buffer.
pub irq_run-decode :
    (codes : List ℕ) (s : State)
    → IsRing s.keyboard
    → IsBytes codes
    → IsRing (irq_run codes s).keyboard
      × (contents (irq_run codes s).keyboard
          ≡ take 63 (
              contents s.keyboard
              ++ decode s.keyboard.shift_pressed s.keyboard.extended_code codes))
unfolding irq_run
irq_run-decode [] s v b = (v, (Typed-none s v false false).queue)
irq_run-decode (c ∷ cs) s v b =
    let d = handler_step c s v b.0 in
    let s' = irq_handler c s in
    let rest = irq_run-decode cs s' d.ring b.1 in
    (
      rest.0,
      run_step s' _ (irq_run cs s') d rest.1
          ∙ ap (λ q. take 63 (contents s.keyboard ++ q))
              (next_text cs d
                ∙ sym (unroll s.keyboard.shift_pressed s.keyboard.extended_code c cs)),
    )
