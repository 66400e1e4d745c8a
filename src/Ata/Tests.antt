-- ===== src/Ata/Tests.antt =====
-- The theorem on kernel/ata.c with a drive that is busy for two reads of its status after a command
-- and after each sector, and takes and gives nothing meanwhile.
use vesper_os.Prelude.{
  ℕ, ◌-◌, ◌%◌, ◌≡◌, refl, false, inl, inr, Bool-cases, length, List, [], ◌∷◌, length-replicate,
  replicate, ◌==◌, if◌then◌else◌, arith,
}
use vesper_os.Port.{Ports}
use vesper_os.Ata.Transfer.{View, Drive, stream, address}

-- Sector `n` is filled with the word `n`.
abbrev sectors : ℕ → List ℕ
sectors n = replicate 256 n

abbrev write_port : ℕ → ℕ → View → View
write_port port v d =
    if port == 0x1F6
    then record d { head = v }
    else if port == 0x1F2
    then record d { count = v }
    else if port == 0x1F3
    then record d { low = v }
    else if port == 0x1F4
    then record d { mid = v }
    else if port == 0x1F5
    then record d { high = v }
    else if port == 0x1F7
    then record d { queue = stream sectors (address d) d.count }
    else d

-- The data port gives nothing while the drive is busy, and after a sector it is for two reads.
abbrev next_word : List ℕ → View → ℕ × (View × ℕ)
next_word [] v = (0, (v, 0))
next_word (w ∷ ws) v = (w, (record v { queue = ws }, if length ws % 256 == 0 then 2 else 0))

abbrev busy : View × ℕ → ℕ
busy d = if d.1 == 1 then 1 else if d.1 == 2 then 2 else 0

abbrev bus : Ports
bus = record {
  Device = View × ℕ;
  outb = λ port v d.
      if busy d == 0 then (write_port port v d.0, if port == 0x1F7 then 2 else 0) else d;
  inb = λ port d.
      if port == 0x1F7 then (if busy d == 0 then 0x48 else 0x80, (d.0, busy d - 1)) else (0, d);
  outw = λ port v d. d;
  inw = λ port d. if busy d == 0 then next_word d.0.queue d.0 else (0, d);
}

abbrev quiet : View × ℕ
quiet =
    (record { head = 0; count = 0; low = 0; mid = 0; high = 0; queue = []; sector = sectors }, 2)

abbrev drive : Drive bus
drive = record {
  view = λ d. record (d.0) { sector = sectors };
  busy = busy;
  busy_bound = λ d. ground arith;
  status_busy = λ d. elim (Bool-cases (busy d == 0)) [ inl e ↦ rw e refl | inr e ↦ rw e refl ];
  status_error = λ d. elim (Bool-cases (busy d == 0)) [ inl e ↦ rw e refl | inr e ↦ rw e refl ];
  status_data = λ d w ws e q. rw e refl;
  status_view = λ d. refl;
  status_waits = λ d n e. ground arith;
  status_idle = λ d e. ground arith;
  alt_view = λ d. refl;
  data_word = λ d w ws e q. rw e (rw q (refl, refl));
  data_idle = λ d w ws e q m.
      rw e (rw q (let f : (length ws % 256 == 0) ≡ false = ground arith in rw f refl));
  put_head = λ v d e. rw e (refl, refl);
  put_count = λ v d e. rw e (refl, refl);
  put_low = λ v d e. rw e (refl, refl);
  put_mid = λ v d e. rw e (refl, refl);
  put_high = λ v d e. rw e (refl, refl);
  start_read = λ d e. rw e refl;
  sector_size = λ d lba. length-replicate 256 lba;
}
