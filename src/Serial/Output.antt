-- ===== src/Serial/Output.antt =====
-- What serial_puts sends: the text with a carriage return before each line feed.
use vesper_os.Prelude.{
  ℕ, zero, suc, ◌<◌, ◌≡◌, refl, ap, sym, ◌∙◌, inl, inr, true, false, some, List, [], ◌∷◌, ◌++◌,
  append_assoc, append-nil, ◌==◌, if◌then◌else◌, Bool-cases, arith,
}
use Prim.Native.Nat.{bit_and}
use vesper_os.Port.{Ports}
use vesper_os.Serial.{com1_data, com1_lsr, tx_ready, wait_ready, putc, return_first, puts}

-- A transmitter: the bytes it was given, and for how many more reads of its status it is busy, less
-- than `bound`. A read of the status shows whether it is; a byte that is written while it is not
-- busy is sent. Nothing is said of a byte that is written before.
pub record Transmitter (ports : Ports) (bound : ℕ) : Type 0 where
  pub sent : ports.Device → List ℕ
  pub busy : ports.Device → ℕ
  pub busy_bound : (d : ports.Device) → busy d < bound
  pub status :
      (d : ports.Device)
      → (bit_and (ports.inb com1_lsr d).0 0x20 == 0) ≡ (if busy d == 0 then false else true)
  pub status_keeps : (d : ports.Device) → sent (ports.inb com1_lsr d).1 ≡ sent d
  pub status_waits : (d : ports.Device) (n : ℕ) → busy d ≡ suc n → busy (ports.inb com1_lsr d).1 ≡ n
  pub status_idle : (d : ports.Device) → busy d ≡ 0 → busy (ports.inb com1_lsr d).1 ≡ 0
  pub transmit :
      (c : ℕ) (d : ports.Device) → busy d ≡ 0 → sent (ports.outb com1_data c d) ≡ sent d ++ (c ∷ [])

-- The bytes of a C string with LF as CR LF.
pub crlf : List ℕ → List ℕ
crlf [] = []
crlf (c ∷ s) =
    let rest = crlf s in if c == 0 then [] else if c == b'\n' then b'\r' ∷ c ∷ rest else c ∷ rest

module _ (ports : Ports) (bound : ℕ) (t : Transmitter ports bound) where
  wait_ready_lem :
      (n k : ℕ) (d : ports.Device)
      → t.busy d ≡ k
      → k < n
      → (d1 : ports.Device) × (wait_ready ports n d ≡ some d1)
        × (t.sent d1 ≡ t.sent d)
        × (t.busy d1 ≡ 0)
  unfolding wait_ready tx_ready
  wait_ready_lem zero k d e l = absurd (omega arith)
  wait_ready_lem (suc n) zero d e l =
      let s : (bit_and (ports.inb com1_lsr d).0 0x20 == 0) ≡ false = t.status d ∙ rw e refl in
      ((ports.inb com1_lsr d).1, rw s refl, t.status_keeps d, t.status_idle d e)
  wait_ready_lem (suc n) (suc k) d e l =
      let s : (bit_and (ports.inb com1_lsr d).0 0x20 == 0) ≡ true =
        t.status d ∙ rw e (ground arith) in
      let (d1, eq, keeps, idle) =
        wait_ready_lem n k (ports.inb com1_lsr d).1 (t.status_waits d k e) (omega arith) in
      (d1, rw s eq, keeps ∙ t.status_keeps d, idle)

  putc_lem :
      (c : ℕ) (d : ports.Device)
      → (d1 : ports.Device) × (putc ports bound c d ≡ some d1) × (t.sent d1 ≡ t.sent d ++ (c ∷ []))
  unfolding putc
  putc_lem c d =
      let (d1, eq, keeps, idle) = wait_ready_lem bound (t.busy d) d refl (t.busy_bound d) in
      (
        ports.outb com1_data c d1,
        rw (eq, putc) refl,
        t.transmit c d1 idle ∙ ap (λ s. s ++ (c ∷ [])) keeps,
      )

  return_first_lem :
      (c : ℕ) (d : ports.Device)
      → (d1 : ports.Device) × (return_first ports bound c d ≡ some d1)
        × (t.sent d1 ≡ t.sent d ++ (if c == b'\n' then b'\r' ∷ [] else []))
  unfolding return_first
  return_first_lem c d = elim (Bool-cases (c == b'\n')) [
    | inl e ↦ rw e (putc_lem b'\r' d)
    | inr e ↦ (d, rw e refl, rw e (sym (append-nil (t.sent d))))
  ]

  crlf_cons :
      (c : ℕ) (s xs : List ℕ)
      → (c == 0) ≡ false
      → ((xs ++ (if c == b'\n' then b'\r' ∷ [] else [])) ++ (c ∷ [])) ++ crlf s ≡ xs ++ crlf (c ∷ s)
  unfolding crlf
  crlf_cons c s xs e = elim (Bool-cases (c == b'\n')) [
    | inl f ↦ rw (e, f) (simp (append_assoc))
    | inr f ↦ rw (e, f) (simp (append_assoc, append-nil))
  ]

-- serial_puts ends, with no wait longer than the transmitter is busy, and sends the bytes of its
-- string up to the NUL, in order, with a carriage return before each line feed.
pub puts_lem :
    (ports : Ports) (bound : ℕ) (t : Transmitter ports bound) (s : List ℕ) (d : ports.Device)
    → (d1 : ports.Device) × (puts ports bound s d ≡ some d1) × (t.sent d1 ≡ t.sent d ++ crlf s)
unfolding puts crlf
puts_lem ports bound t [] d = (d, refl, sym (append-nil (t.sent d)))
puts_lem ports bound t (c ∷ s) d = elim (Bool-cases (c == 0)) [
  | inl e ↦ (d, rw (e, puts) refl, rw (e, crlf) (sym (append-nil (t.sent d))))
  | inr e ↦
      let (d1, p1, s1) = return_first_lem ports bound t c d in
      let (d2, p2, s2) = putc_lem ports bound t c d1 in
      let (d3, p3, s3) = puts_lem ports bound t s d2 in
      (
        d3,
        rw (e, puts) (rw p1 (rw p2 p3)),
        s3
            ∙ ap (λ xs. xs ++ crlf s) (s2 ∙ ap (λ xs. xs ++ (c ∷ [])) s1)
            ∙ crlf_cons ports bound t c s (t.sent d) e,
      )
]
