-- ===== src/Keyboard/Handler.antt =====
-- What keyboard_irq_handler of kernel/keyboard.c makes of one scancode.
use vesper_os.Prelude.{
  ℕ, zero, suc, ◌%◌, ◌≤◌, ◌<◌, ◌≡◌, refl, sym, ap, subst, ◌∙◌, ◌⊎◌, inl, inr, Bool, true, false,
  ◌||◌, List, [], ◌∷◌, ◌++◌, length, get_or, take, take_all, append-nil, ltb, leb, ◌==◌,
  if◌then◌else◌, Bool-cases, arith,
}
use vesper_os.Keyboard.{
  Keyboard, State, push_char, kb_push, special_key, is_shift, is_release, push_key, set_shift,
  set_extended, translate, irq_handler, scancode_ascii, scancode_ascii_shift,
}
use vesper_os.Keyboard.Ring.{
  IsRing, contents, length-contents, push_char-IsRing, contents-push_char,
}

-- The text of a key: nothing for 0.
abbrev pub text : ℕ → List ℕ
text c = if c == 0 then [] else c ∷ []

-- Whether Shift is down after a scancode: 2A and 36 press it, AA and B6 release it.
abbrev pub shift_after : Bool → ℕ → Bool
shift_after shift c =
    if c == 0x2A || c == 0x36 then true else if c == 0xAA || c == 0xB6 then false else shift

-- The handler's state after typing `typed` where `before` waited.
pub record Typed (typed : List ℕ) (shift extended : Bool) (before : List ℕ) (s : State)
    : Type 0 where
  pub ring : IsRing s.keyboard
  pub queue : contents s.keyboard ≡ take 63 (before ++ typed)
  pub shift_is : s.keyboard.shift_pressed ≡ shift
  pub extended_is : s.keyboard.extended_code ≡ extended

full : {kb : Keyboard} → IsRing kb → take 63 (contents kb) ≡ contents kb
full {kb} v = take_all 63 (contents kb) (omega (arith, length-contents kb))

shift-push_char : (c : ℕ) (kb : Keyboard) → (push_char c kb).shift_pressed ≡ kb.shift_pressed
unfolding push_char
shift-push_char c kb = ground arith

extended-push_char : (c : ℕ) (kb : Keyboard) → (push_char c kb).extended_code ≡ kb.extended_code
unfolding push_char
extended-push_char c kb = ground arith

module _ (s : State) (v : IsRing s.keyboard) where
  pub Typed-none :
      (shift extended : Bool)
      → Typed [] shift extended (contents s.keyboard) (record s {
        keyboard = record (s.keyboard) { shift_pressed = shift; extended_code = extended };
      })
  Typed-none shift extended = record {
    ring = record { storage = v.storage; head_in = v.head_in; tail_in = v.tail_in };
    queue = sym (full v) ∙ ap (λ q. take 63 q) (sym (append-nil (contents s.keyboard)));
    shift_is = refl;
    extended_is = refl;
  }

  Typed-key :
      (c : ℕ)
      → Typed
          (text c)
          s.keyboard.shift_pressed
          s.keyboard.extended_code
          (contents s.keyboard)
          (push_key c s)
  unfolding kb_push
  Typed-key c = elim (Bool-cases (c == 0)) [
    | inl e ↦ rw e (Typed-none s.keyboard.shift_pressed s.keyboard.extended_code)
    | inr e ↦ rw e (record {
      ring = push_char-IsRing v c;
      queue = contents-push_char v c;
      shift_is = shift-push_char c s.keyboard;
      extended_is = extended-push_char c s.keyboard;
    })
  ]

-- A scancode beyond the tables, or of a Shift key, has no character.
get_or_beyond : (xs : List ℕ) (i : ℕ) → length xs ≤ i → get_or xs i 0 ≡ 0
get_or_beyond [] i l = refl
get_or_beyond (x ∷ xs) zero l = absurd (omega (arith, l))
get_or_beyond (x ∷ xs) (suc i) l = get_or_beyond xs i (omega (arith, l))

translate_beyond : (shift : Bool) (c : ℕ) → 58 ≤ c → translate shift c ≡ 0
translate_beyond true c l = get_or_beyond scancode_ascii_shift c l
translate_beyond false c l = get_or_beyond scancode_ascii c l

translate_shift : (shift : Bool) (c : ℕ) → (c ≡ 0x2A) ⊎ (c ≡ 0x36) → translate shift c ≡ 0
translate_shift true c (inl e) = rw e refl
translate_shift true c (inr e) = rw e refl
translate_shift false c (inl e) = rw e refl
translate_shift false c (inr e) = rw e refl

special_release : (c : ℕ) → 0x80 ≤ c → special_key c ≡ 0
unfolding special_key
special_release c l = ground arith

if_false : {A : Type 0} {b : Bool} (x : A) {y : A} → b ≡ false → (if b then x else y) ≡ y
if_false x e = rw e refl

-- What one scancode types, and the state of Shift after it.
abbrev pub key_text : Bool → Bool → ℕ → List ℕ
key_text shift extended c =
    if c == 0xE0 then [] else if extended then text (special_key c) else text (translate shift c)

abbrev pub key_shift : Bool → Bool → ℕ → Bool
key_shift shift extended c =
    if c == 0xE0 then shift else if extended then shift else shift_after shift c

module _ (c : ℕ) (s : State) (v : IsRing s.keyboard) (byte : c < 256) where
  extended_step :
      (c == 0xE0) ≡ false
      → s.keyboard.extended_code ≡ true
      → Typed
          (text (special_key c))
          s.keyboard.shift_pressed
          false
          (contents s.keyboard)
          (irq_handler c s)
  unfolding irq_handler
  extended_step np x =
      let s' = set_extended false s in
      let v' : IsRing s'.keyboard = record {
        storage = v.storage;
        head_in = v.head_in;
        tail_in = v.tail_in;
      } in
      rw np (
        rw x (elim (Bool-cases (is_release c)) [
          | inl e ↦ rw e (
              rw (special_release c (ground arith)) (Typed-none s v s.keyboard.shift_pressed false))
          | inr e ↦ rw e (Typed-key s' v' (special_key c))
        ]))

  -- The handler without a prefix.
  abbrev plain_handler : State
  plain_handler =
      if is_release c
      then if is_shift (c % 0x80) then set_shift false s else s
      else if is_shift c
      then set_shift true s
      else if ltb c 58
      then push_key (translate s.keyboard.shift_pressed c) s
      else s

  abbrev Plain : Type 0
  Plain =
      Typed (text (translate s.keyboard.shift_pressed c)) (shift_after s.keyboard.shift_pressed c)
        s.keyboard.extended_code (contents s.keyboard) plain_handler

  release_step : 0x80 ≤ c → Plain
  release_step l =
      let e : is_release c ≡ true = ground arith in
      let z = translate_beyond s.keyboard.shift_pressed c (omega arith) in
      let down : (c == 0x2A || c == 0x36) ≡ false = ground arith in
      rw (e, down, z)
        (elim (Bool-cases (is_shift (c % 0x80))) [
          | inl r ↦
              let up : (c == 0xAA || c == 0xB6) ≡ true = ground arith in
              rw (r, up) (Typed-none s v false s.keyboard.extended_code)
          | inr r ↦
              let up : (c == 0xAA || c == 0xB6) ≡ false = ground arith in
              rw (r, up) (Typed-none s v s.keyboard.shift_pressed s.keyboard.extended_code)
        ])

  press_step : c < 0x80 → Plain
  press_step l =
      let e : is_release c ≡ false = ground arith in
      let up : (c == 0xAA || c == 0xB6) ≡ false = ground arith in
      let shift = s.keyboard.shift_pressed in
      rw (e, up)
        (elim (Bool-cases (is_shift c)) [
          | inl r ↦
              let z = translate_shift shift c (ground arith) in
              rw (r, z) (Typed-none s v true s.keyboard.extended_code)
          | inr r ↦ rw r (elim (Bool-cases (ltb c 58)) [
            | inl t ↦ rw t (Typed-key s v (translate shift c))
            | inr t ↦
                let z = translate_beyond shift c (ground arith) in
                rw (t, z) (Typed-none s v shift s.keyboard.extended_code)
          ])
        ])

  plain_step :
      (c == 0xE0) ≡ false → s.keyboard.extended_code ≡ false → irq_handler c s ≡ plain_handler
  unfolding irq_handler
  plain_step p x = if_false _ p ∙ if_false _ x

  prefix_step : (c == 0xE0) ≡ true → irq_handler c s ≡ set_extended true s
  unfolding irq_handler
  prefix_step p = rw p refl

  plain_lem : Plain
  plain_lem = elim (Bool-cases (leb 0x80 c)) [
    | inl l ↦ release_step (ground arith)
    | inr l ↦ press_step (ground arith)
  ]

  pub handler_step :
      Typed
        (key_text s.keyboard.shift_pressed s.keyboard.extended_code c)
        (key_shift s.keyboard.shift_pressed s.keyboard.extended_code c)
        (c == 0xE0)
        (contents s.keyboard)
        (irq_handler c s)
  handler_step = elim (Bool-cases (c == 0xE0)) [
    | inl p ↦ rw (prefix_step p) (rw p (Typed-none s v s.keyboard.shift_pressed true))
    | inr p ↦ elim (Bool-cases s.keyboard.extended_code) [
      | inl x ↦ rw p (simp x (extended_step p x))
      | inr x ↦
          let d =
            subst
              (Typed (text (translate s.keyboard.shift_pressed c))
                (shift_after s.keyboard.shift_pressed c) s.keyboard.extended_code
                (contents s.keyboard))
              (sym (plain_step p x)) plain_lem in
          rw p (
            simp x (record {
              ring = d.ring;
              queue = d.queue;
              shift_is = d.shift_is;
              extended_is = d.extended_is ∙ x;
            }))
    ]
  ]
