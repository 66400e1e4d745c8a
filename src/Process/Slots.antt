-- ===== src/Process/Slots.antt =====
-- The slots of the process table: which operation takes one, which ends a process, and that none
-- ever gives a slot back.
use vesper_os.Prelude.{
  ℕ, zero, suc, ◌+◌, ◌<◌, ◌≡◌, refl, ap, ◌∙◌, ◌⊎◌, inl, inr, Bool, true, false, Option, none, some,
  List, [], ◌∷◌, length, get_or, Bool-cases, arith,
}
use vesper_os.Process.{Proc, blank, find_slot}

-- The first slot that passes a test, or none.
abbrev pub Finds : (Proc → Bool) → List Proc → Option ℕ → Type 0
Finds test ps none = (j : ℕ) → j < length ps → test (get_or ps j blank) ≡ false
Finds test ps (some i) =
    (i < length ps)
    × (test (get_or ps i blank) ≡ true)
    × ((j : ℕ) → j < i → test (get_or ps j blank) ≡ false)

find_slot_at :
    (test : Proc → Bool) (i : ℕ) (ps : List Proc)
    → ((find_slot test i ps ≡ none) × Finds test ps none)
      ⊎ ((j : ℕ) × (find_slot test i ps ≡ some (i + j)) × Finds test ps (some j))
unfolding find_slot
find_slot_at test i [] = inl (refl, λ j l. elim l [ ])
find_slot_at test i (p ∷ ps) = elim (Bool-cases (test p)) [
  | inl e ↦ inr (0, rw e (ap some (omega arith)), (omega arith, e, λ j l. elim l [ ]))
  | inr e ↦ rw (e, find_slot) (later e (find_slot_at test (i + 1) ps))
]
  where
    none_at :
        test p ≡ false
        → Finds test ps none
        → (j : ℕ) → j < length (p ∷ ps)
        → test (get_or (p ∷ ps) j blank) ≡ false
    none_at e h zero l = e
    none_at e h (suc j) l = h j (omega arith)

    before :
        test p ≡ false
        → (n : ℕ) → ((j : ℕ) → j < n → test (get_or ps j blank) ≡ false)
        → (j : ℕ) → j < suc n
        → test (get_or (p ∷ ps) j blank) ≡ false
    before e n h zero l = e
    before e n h (suc j) l = h j (omega arith)

    later :
        test p ≡ false
        → ((find_slot test (i + 1) ps ≡ none) × Finds test ps none)
          ⊎ ((j : ℕ) × (find_slot test (i + 1) ps ≡ some (i + 1 + j)) × Finds test ps (some j))
        → ((find_slot test (i + 1) ps ≡ none) × Finds test (p ∷ ps) none)
          ⊎ ((j : ℕ) × (find_slot test (i + 1) ps ≡ some (i + j)) × Finds test (p ∷ ps) (some j))
    later e (inl (q, h)) = inl (q, none_at e h)
    later e (inr (j, q, (l, t, h))) =
        inr (suc j, q ∙ ap some (omega arith), (omega arith, t, before e j h))

pub find_slot_lem : (test : Proc → Bool) (ps : List Proc) → Finds test ps (find_slot test 0 ps)
find_slot_lem test ps = elim (find_slot_at test 0 ps) [
  | inl (e, h) ↦ rw e h
  | inr (j, e, h) ↦ let q : 0 + j ≡ j = omega arith in rw e (rw q h)
]
