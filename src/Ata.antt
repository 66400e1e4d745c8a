-- ===== src/Ata.antt =====
-- kernel/ata.c and ata.h: the PIO driver of the first disk, behind its ports. The controller is a
-- parameter; a buffer is its list of bytes, and a word that is moved through the data port is two
-- of them, the low one first. The two waits have the 2^20 rounds of the source. `driver` is what
-- kernel/fs.c uses of this file.
pub mod Transfer
mod Tests
use Prim.Native.Nat.{bit_and, bit_or}
use vesper_os.Prelude.{
  ℕ, zero, suc, ◌+◌, ◌*◌, ◌/◌, ◌%◌, ◌^◌, Bool, true, false, ◌&&◌, ◌||◌, not, Option, none, some,
  List, [], ◌∷◌, ◌++◌, drop, get_or, ◌==◌, if◌then◌else◌,
}
use vesper_os.Port.{Ports}
use vesper_os.Fs.{Driver}

abbrev pub ata_data : ℕ
ata_data = 0x1F0

abbrev pub sect_count : ℕ
sect_count = 0x1F2

abbrev pub lba_low : ℕ
lba_low = 0x1F3

abbrev pub lba_mid : ℕ
lba_mid = 0x1F4

abbrev pub lba_high : ℕ
lba_high = 0x1F5

abbrev pub drive_head : ℕ
drive_head = 0x1F6

-- ATA_STATUS when it is read and ATA_COMMAND when it is written.
abbrev pub ata_status : ℕ
ata_status = 0x1F7

abbrev pub alt_status : ℕ
alt_status = 0x3F6

abbrev pub cmd_read : ℕ
cmd_read = 0x20

abbrev pub cmd_write : ℕ
cmd_write = 0x30

abbrev pub cmd_ident : ℕ
cmd_ident = 0xEC

-- The bits ATA_SR_BSY, ATA_SR_DRQ and ATA_SR_ERR of a status.
abbrev pub is_busy : ℕ → Bool
is_busy s = not (bit_and s 0x80 == 0)

abbrev pub has_data : ℕ → Bool
has_data s = not (bit_and s 0x08 == 0)

abbrev pub has_error : ℕ → Bool
has_error s = not (bit_and s 0x01 == 0)

abbrev pub wait_rounds : ℕ
wait_rounds = 0x100000

module _ (ports : Ports) where
  abbrev pub delay_400ns : ports.Device → ports.Device
  delay_400ns d =
      let again : ports.Device → ports.Device = λ x. (ports.inb alt_status x).1 in
      again (again (again (again d)))

  -- The loop of ata_wait_not_busy with `n` rounds left; true is the result 0, and false is -1.
  pub not_busy_loop : ℕ → ports.Device → Bool × ports.Device
  not_busy_loop zero d = (false, d)
  not_busy_loop (suc n) d =
      let (s, d1) = ports.inb ata_status d in
      let rest = not_busy_loop n d1 in if is_busy s then rest else (true, d1)

  abbrev pub wait_not_busy : ports.Device → Bool × ports.Device
  wait_not_busy d = not_busy_loop wait_rounds d

  pub drq_loop : ℕ → ports.Device → Bool × ports.Device
  drq_loop zero d = (false, d)
  drq_loop (suc n) d =
      let (s, d1) = ports.inb ata_status d in
      let rest = drq_loop n d1 in
      if has_error s
      then (false, d1)
      else if not (is_busy s) && has_data s
      then (true, d1)
      else rest

  abbrev pub wait_drq : ports.Device → Bool × ports.Device
  wait_drq d = drq_loop wait_rounds d

  -- `n` words from the data port, as bytes.
  pub read_words : ℕ → ports.Device → List ℕ × ports.Device
  read_words zero d = ([], d)
  read_words (suc n) d =
      let (w, d1) = ports.inw ata_data d in
      let (rest, d2) = read_words n d1 in (w % 2 ^ 8 ∷ w / 2 ^ 8 % 2 ^ 8 ∷ rest, d2)

  -- `n` words from the buffer to the data port.
  pub write_words : ℕ → List ℕ → ports.Device → ports.Device
  write_words zero buf d = d
  write_words (suc n) buf d =
      write_words n (drop 2 buf) (ports.outw ata_data (get_or buf 0 0 + get_or buf 1 0 * 2 ^ 8) d)

  -- Drive, count and the 28 bits of the LBA, and the command.
  pub send_command : ℕ → ℕ → ℕ → ports.Device → ports.Device
  send_command cmd lba count d =
      let d1 = ports.outb drive_head (bit_or 0xE0 (lba / 2 ^ 24 % 2 ^ 4)) d in
      let d2 = ports.outb sect_count count d1 in
      let d3 = ports.outb lba_low (lba % 2 ^ 8) d2 in
      let d4 = ports.outb lba_mid (lba / 2 ^ 8 % 2 ^ 8) d3 in
      let d5 = ports.outb lba_high (lba / 2 ^ 16 % 2 ^ 8) d4 in ports.outb ata_status cmd d5

  pub read_loop : ℕ → ports.Device → Option (List ℕ) × ports.Device
  read_loop zero d = (some [], d)
  read_loop (suc n) d =
      let (ready, d1) = wait_drq d in
      elim ready [
        | false ↦ (none, d1)
        | true ↦
            let (sector, d2) = read_words 256 d1 in
            let (res, d3) = read_loop n (delay_400ns d2) in
            (elim res [ none ↦ none | some rest ↦ some (sector ++ rest) ], d3)
      ]

  -- The bytes that the buffer gets, or none for -1.
  pub read_sectors : ℕ → ℕ → ports.Device → Option (List ℕ) × ports.Device
  read_sectors lba count d = elim (count == 0) [
    | true ↦ (some [], d)
    | false ↦
        let (idle, d1) = wait_not_busy d in
        elim idle [
          | false ↦ (none, d1)
          | true ↦ read_loop count (send_command cmd_read lba count d1)
        ]
  ]

  pub write_loop : ℕ → List ℕ → ports.Device → Bool × ports.Device
  write_loop zero buf d = (true, d)
  write_loop (suc n) buf d =
      let (ready, d1) = wait_drq d in
      elim ready [
        | false ↦ (false, d1)
        | true ↦ write_loop n (drop 512 buf) (delay_400ns (write_words 256 buf d1))
      ]

  pub write_sectors : ℕ → ℕ → List ℕ → ports.Device → Bool × ports.Device
  write_sectors lba count buf d = elim (count == 0) [
    | true ↦ (true, d)
    | false ↦
        let (idle, d1) = wait_not_busy d in
        elim idle [
          | false ↦ (false, d1)
          | true ↦ write_loop count buf (send_command cmd_write lba count d1)
        ]
  ]

  -- The part of ata_init after the IDENTIFY command has been answered.
  pub identify : ports.Device → Bool × ports.Device
  identify d =
      let (idle, d1) = wait_not_busy d in
      elim idle [
        | false ↦ (false, d1)
        | true ↦
            let (mid, d2) = ports.inb lba_mid d1 in
            elim (mid == 0) [
              | false ↦ (false, d2)
              | true ↦
                  let (high, d3) = ports.inb lba_high d2 in
                  elim (high == 0) [
                    | false ↦ (false, d3)
                    | true ↦
                        let (ready, d4) = wait_drq d3 in
                        elim ready [ false ↦ (false, d4) | true ↦ (true, (read_words 256 d4).1) ]
                  ]
            ]
      ]

  -- Whether a drive is present.
  pub init : ports.Device → Bool × ports.Device
  init d =
      let d1 = delay_400ns (ports.outb drive_head 0xE0 d) in
      let d2 = ports.outb lba_mid 0 (ports.outb lba_low 0 (ports.outb sect_count 0 d1)) in
      let d3 = ports.outb ata_status cmd_ident (ports.outb lba_high 0 d2) in
      let (status, d4) = ports.inb ata_status d3 in
      elim (status == 0) [ true ↦ (false, d4) | false ↦ identify d4 ]

  abbrev pub driver : Driver
  driver = record {
    Disk = ports.Device;
    read_sectors = read_sectors;
    write_sectors = write_sectors;
  }
