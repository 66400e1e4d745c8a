-- ===== src/Shell/Recall.antt =====
-- The command history of kernel/shell.c against a list of all commands.
use native.Mathlib.Decide.{ℕ_discrete}
use vesper_os.Prelude.{
  ℕ, zero, suc, ◌+◌, ◌-◌, ◌%◌, ◌<◌, ◌≤◌, ◌^◌, ◌≡◌, ◌≢◌, refl, sym, ◌∙◌, ◌⊎◌, inl, inr, true, ◌||◌,
  Option, none, some, List, [], ◌∷◌, length, length-set, replicate, get_or, get_or-set_self,
  get_or-set_ne, set, take, ltb, leb, ◌==◌, if◌then◌else◌, Bool-cases, arith,
}
use vesper_os.Strings.{strncpy}
use vesper_os.Strings.Compare.{text, length-strncpy, text-set-strncpy}
use vesper_os.Shell.Line.{
  History, no_history, history_size, empty_line, slot, copy_line, history_push, history_get,
}

-- The history holds the last eight of the commands `log`, the newest first, cut at 255 bytes.
pub record Holds (h : History) (log : List (List ℕ)) : Type 0 where
  pub slots : length h.slots ≡ history_size
  pub count : h.count ≡ length log
  pub widths : (i : ℕ) → i < history_size → length (slot i h) ≡ 256
  pub entries :
      (b : ℕ)
      → b < length log
      → b < history_size
      → text (slot ((h.count - suc b) % history_size) h) ≡ take 255 (get_or log b [])

no_history-Holds : Holds no_history []
no_history-Holds = record {
  slots = refl;
  count = refl;
  widths = λ i l. same i;
  entries = λ b l k. elim l [ ];
}
  where
    same : (i : ℕ) → length (slot i no_history) ≡ 256
    same i = go 8 i
      where
        go : (n i : ℕ) → length (get_or (replicate n empty_line) i empty_line) ≡ 256
        go zero i = refl
        go (suc n) zero = refl
        go (suc n) (suc i) = go n i

module _ {h : History} {log : List (List ℕ)} (v : Holds h log) (cmd : List ℕ) where
  abbrev at : ℕ
  at = h.count % history_size

  abbrev stored : List ℕ
  stored = copy_line (slot at h) cmd

  abbrev pushed : History
  pushed = record { slots = set h.slots at stored; count = h.count + 1 }

  slot_self : slot at pushed ≡ stored
  slot_self = get_or-set_self h.slots at stored empty_line (omega (arith, v.slots))

  slot_other : (i : ℕ) → i ≢ at → slot i pushed ≡ slot i h
  slot_other i ne = get_or-set_ne h.slots at i stored empty_line (λ e. ne (sym e))

  pushed-Holds : Holds pushed (text cmd ∷ log)
  pushed-Holds = record {
    slots = length-set h.slots at stored ∙ v.slots;
    count = omega (arith, v.count);
    widths = λ i l. elim (ℕ_discrete i at) [
      | yes e ↦
          rw (e, slot_self)
            (length-set (strncpy (slot at h) cmd 255) 255 0
              ∙ length-strncpy (slot at h) cmd 255
              ∙ v.widths at (omega arith))
      | no ne ↦ rw (slot_other i ne) (v.widths i l)
    ];
    entries = λ b l k. entry b l k;
  }
    where
      entry :
          (b : ℕ)
          → b < suc (length log)
          → b < history_size
          → text (slot ((h.count + 1 - suc b) % history_size) pushed)
            ≡ take 255 (get_or (text cmd ∷ log) b [])
      entry zero l k =
          let e : (h.count + 1 - 1) % history_size ≡ at = omega arith in
          rw (e, slot_self) (text-set-strncpy (slot at h) cmd 255 (v.widths at (omega arith)))
      entry (suc b) l k =
          let e : (h.count + 1 - suc (suc b)) % history_size ≡ (h.count - suc b) % history_size =
            omega arith in
          let ne : (h.count - suc b) % history_size ≢ at =
            (λ q. absurd (omega (arith, v.count, q, l, k))) in
          rw (e, slot_other ((h.count - suc b) % history_size) ne)
            (v.entries b (omega arith) (omega arith))

-- All commands of a sequence, the last one first, pushed from an empty history; and those of them
-- that are not blank.
pub push_all : List (List ℕ) → History
push_all [] = no_history
push_all (cmd ∷ cmds) = history_push cmd (push_all cmds)

pub logged : List (List ℕ) → List (List ℕ)
logged [] = []
logged (cmd ∷ cmds) =
    let rest = logged cmds in if get_or cmd 0 0 == 0 then rest else text cmd ∷ rest

push_all-Holds : (cmds : List (List ℕ)) → Holds (push_all cmds) (logged cmds)
unfolding push_all logged history_push
push_all-Holds [] = no_history-Holds
push_all-Holds (cmd ∷ cmds) = elim (Bool-cases (get_or cmd 0 0 == 0)) [
  | inl e ↦ rw (e, history_push) (push_all-Holds cmds)
  | inr e ↦ rw (e, history_push) (pushed-Holds (push_all-Holds cmds) cmd)
]

-- What history_get of `back` is to answer.
abbrev pub Answers : ℕ → List (List ℕ) → Option (List ℕ) → Type 0
Answers back log none = (back ≡ 0) ⊎ ((length log < back) ⊎ (history_size < back))
Answers back log (some line) =
    (1 ≤ back)
    × (back ≤ length log)
    × (back ≤ history_size)
    × (text line ≡ take 255 (get_or log (back - 1) []))

-- history_get after any sequence of fewer than 2^31 calls of history_push answers the command that
-- many steps back, blank ones not counted and longer ones cut at 255 bytes, exactly for 1 to 8
-- steps back and as many as there were, and otherwise NULL.
pub history_get-push_all :
    (cmds : List (List ℕ)) (back : ℕ)
    → length cmds < 2 ^ 31
    → Answers back (logged cmds) (history_get back (push_all cmds))
unfolding history_get
history_get-push_all cmds back few =
    let v = push_all-Holds cmds in
    let h = push_all cmds in
    elim (Bool-cases (leb back 0 || ltb h.count back || ltb history_size back)) [
      | inl e ↦ rw (e, history_get) (outside v.count e)
      | inr e ↦
          let b = back - 1 in
          let at : ((h.count - back) % history_size + history_size) % history_size
              ≡ (h.count - suc b) % history_size =
            ground arith in
          rw (e, history_get)
            (
              ground arith,
              ground (arith, v.count),
              ground arith,
              rw at (v.entries b (ground (arith, v.count)) (ground arith)),
            )
    ]
  where
    outside :
        {n m : ℕ}
        → n ≡ m
        → (leb back 0 || ltb n back || ltb history_size back) ≡ true
        → (back ≡ 0) ⊎ ((m < back) ⊎ (history_size < back))
    outside e f = ground arith
