-- ===== src/Ata/Transfer.antt =====
-- What ata_read_sectors of kernel/ata.c reads from a drive that follows the ATA protocol.
use Prim.Native.Nat.{bit_or}
use vesper_os.Prelude.{
  ℕ, zero, suc, ◌+◌, ◌*◌, ◌/◌, ◌%◌, ◌^◌, ◌<◌, ◌≡◌, ◌≢◌, Bool, true, false, not, List, [], ◌∷◌, ◌++◌,
  length, ◌==◌,
}
use vesper_os.Port.{Ports}
use vesper_os.Ata.{
  ata_data, sect_count, lba_low, lba_mid, lba_high, drive_head, ata_status, alt_status, cmd_read,
  is_busy, has_data, has_error, wait_rounds,
}

-- What a drive shows: its registers, the words that it has ready, and its sectors.
pub record View : Type 0 where
  pub head : ℕ
  pub count : ℕ
  pub low : ℕ
  pub mid : ℕ
  pub high : ℕ
  pub queue : List ℕ
  pub sector : ℕ → List ℕ

-- The words of `n` sectors from sector `lba` on.
pub stream : (ℕ → List ℕ) → ℕ → ℕ → List ℕ
stream sector lba zero = []
stream sector lba (suc n) = sector lba ++ stream sector (lba + 1) n

-- The sector that the registers select.
abbrev pub address : View → ℕ
address v = v.low + v.mid * 2 ^ 8 + v.high * 2 ^ 16 + v.head % 2 ^ 4 * 2 ^ 24

-- The ATA protocol of a drive without errors that is busy for less than 2^20 reads of its status at
-- a time. While it is not busy, a written register keeps its value and leaves it so, the command READ
-- SECTORS queues the sectors that the registers select, and the data port gives the queue's words.
-- After the command and after each whole sector the drive may be busy again; nothing is said of an
-- access while it is.
pub record Drive (ports : Ports) : Type 0 where
  pub view : ports.Device → View
  pub busy : ports.Device → ℕ
  pub busy_bound : (d : ports.Device) → busy d < wait_rounds
  pub status_busy : (d : ports.Device) → is_busy (ports.inb ata_status d).0 ≡ not (busy d == 0)
  pub status_error : (d : ports.Device) → has_error (ports.inb ata_status d).0 ≡ false
  pub status_data :
      (d : ports.Device) (w : ℕ) (ws : List ℕ)
      → busy d ≡ 0
      → (view d).queue ≡ w ∷ ws
      → has_data (ports.inb ata_status d).0 ≡ true
  pub status_view : (d : ports.Device) → view (ports.inb ata_status d).1 ≡ view d
  pub status_waits :
      (d : ports.Device) (n : ℕ) → busy d ≡ suc n → busy (ports.inb ata_status d).1 ≡ n
  pub status_idle : (d : ports.Device) → busy d ≡ 0 → busy (ports.inb ata_status d).1 ≡ 0
  pub alt_view : (d : ports.Device) → view (ports.inb alt_status d).1 ≡ view d
  pub data_word :
      (d : ports.Device) (w : ℕ) (ws : List ℕ)
      → busy d ≡ 0
      → (view d).queue ≡ w ∷ ws
      → ((ports.inw ata_data d).0 ≡ w) × ((view (ports.inw ata_data d).1).queue ≡ ws)
  pub data_idle :
      (d : ports.Device) (w : ℕ) (ws : List ℕ)
      → busy d ≡ 0
      → (view d).queue ≡ w ∷ ws
      → length ws % 256 ≢ 0
      → busy (ports.inw ata_data d).1 ≡ 0
  pub put_head :
      (v : ℕ) (d : ports.Device)
      → busy d ≡ 0
      → (view (ports.outb drive_head v d) ≡ record (view d) { head = v })
        × (busy (ports.outb drive_head v d) ≡ 0)
  pub put_count :
      (v : ℕ) (d : ports.Device)
      → busy d ≡ 0
      → (view (ports.outb sect_count v d) ≡ record (view d) { count = v })
        × (busy (ports.outb sect_count v d) ≡ 0)
  pub put_low :
      (v : ℕ) (d : ports.Device)
      → busy d ≡ 0
      → (view (ports.outb lba_low v d) ≡ record (view d) { low = v })
        × (busy (ports.outb lba_low v d) ≡ 0)
  pub put_mid :
      (v : ℕ) (d : ports.Device)
      → busy d ≡ 0
      → (view (ports.outb lba_mid v d) ≡ record (view d) { mid = v })
        × (busy (ports.outb lba_mid v d) ≡ 0)
  pub put_high :
      (v : ℕ) (d : ports.Device)
      → busy d ≡ 0
      → (view (ports.outb lba_high v d) ≡ record (view d) { high = v })
        × (busy (ports.outb lba_high v d) ≡ 0)
  pub start_read :
      (d : ports.Device)
      → busy d ≡ 0
      → (view (ports.outb ata_status cmd_read d)).queue
        ≡ stream (view d).sector (address (view d)) (view d).count
  pub sector_size : (d : ports.Device) (lba : ℕ) → length ((view d).sector lba) ≡ 256

-- The bytes of words, the low one first.
pub bytes : List ℕ → List ℕ
bytes [] = []
bytes (w ∷ ws) = w % 2 ^ 8 ∷ w / 2 ^ 8 % 2 ^ 8 ∷ bytes ws

head_cell : ℕ → Bool
head_cell n = bit_or 0xE0 n % 2 ^ 4 == n
