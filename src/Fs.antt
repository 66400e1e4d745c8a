-- ===== src/Fs.antt =====
-- kernel/fs.c and fs.h: the file system VesperFS on a disk of 512-byte sectors. The disk driver is the
-- parameter `Driver`, whose two operations stand for ata_read_sectors and ata_write_sectors; a
-- failed one may have changed the disk. Structures on the disk are bytes, as in the source: an
-- entry of the directory is 64 bytes of `dir_buf`. `read_loop` runs on rounds: `none` is a loop
-- that has not ended.
pub mod Read
pub mod Content
pub mod Listing
pub mod Tests
use vesper_os.Prelude.{
  ℕ, zero, suc, ◌+◌, ◌-◌, ◌*◌, ◌/◌, ◌%◌, ◌^◌, Bool, true, false, not, ◌&&◌, ◌||◌, Option, none,
  some, List, [], ◌∷◌, ◌++◌, take, drop, replicate, get_or, set, ltb, leb, ◌==◌, if◌then◌else◌,
}
use vesper_os.Prelude.Int.{ℤ, pos, negsuc}
use vesper_os.Strings.{memset, memcpy, memcmp, strcmp, strncpy}

abbrev pub sector_size : ℕ
sector_size = 512

abbrev pub start_lba : ℕ
start_lba = 129

abbrev pub dir_sectors : ℕ
dir_sectors = 8

abbrev pub max_files : ℕ
max_files = 64

abbrev pub name_max : ℕ
name_max = 31

abbrev pub dirent_size : ℕ
dirent_size = 64

abbrev pub data_lba : ℕ
data_lba = start_lba + 1 + dir_sectors

-- V E S P E R F S
abbrev pub fs_magic : List ℕ
fs_magic = 86 ∷ 69 ∷ 83 ∷ 80 ∷ 69 ∷ 82 ∷ 70 ∷ 83 ∷ []

-- The disk driver: reading and writing a number of sectors from an LBA on.
pub record Driver : Type 1 where
  pub Disk : Type 0
  pub read_sectors : ℕ → ℕ → Disk → Option (List ℕ) × Disk
  pub write_sectors : ℕ → ℕ → List ℕ → Disk → Bool × Disk

-- `fs_file_t`.
pub record File : Type 0 where
  pub first_lba : ℕ
  pub size : ℕ
  pub position : ℕ
  pub is_valid : Bool

pub close : File → File
close f = record f { is_valid = false }

-- A little-endian word of 32 bits at a byte offset.
abbrev pub get_word : ℕ → List ℕ → ℕ
get_word i buf =
    get_or buf i 0
    + get_or buf (i + 1) 0 * 2 ^ 8
    + get_or buf (i + 2) 0 * 2 ^ 16
    + get_or buf (i + 3) 0 * 2 ^ 24

abbrev pub set_word : ℕ → ℕ → List ℕ → List ℕ
set_word i v buf =
    set (set (set (set buf i (v % 2 ^ 8)) (i + 1) (v / 2 ^ 8 % 2 ^ 8)) (i + 2) (v / 2 ^ 16 % 2 ^ 8))
      (i + 3) (v / 2 ^ 24 % 2 ^ 8)

-- The fields of entry `i` of the directory; the name is a C string that starts there.
abbrev pub entry_name : ℕ → List ℕ → List ℕ
entry_name i dir = drop (i * dirent_size) dir

abbrev pub entry_start : ℕ → List ℕ → ℕ
entry_start i dir = get_word (i * dirent_size + 32) dir

abbrev pub entry_size : ℕ → List ℕ → ℕ
entry_size i dir = get_word (i * dirent_size + 36) dir

abbrev pub entry_flags : ℕ → List ℕ → ℕ
entry_flags i dir = get_word (i * dirent_size + 40) dir

-- `name[0] != 0 && flags != 1`
pub in_use : ℕ → List ℕ → Bool
in_use i dir = not (get_or dir (i * dirent_size) 0 == 0) && not (entry_flags i dir == 1)

pub is_named : List ℕ → ℕ → List ℕ → Bool
is_named name i dir = elim (strcmp (entry_name i dir) name) [ pos n ↦ n == 0 | negsuc n ↦ false ]

-- `memcmp(...) == 0`
abbrev pub has_magic : List ℕ → Bool
has_magic sb = elim (memcmp sb fs_magic 8) [ pos n ↦ n == 0 | negsuc n ↦ false ]

-- The first entry in use with a name, from entry `i` on.
pub find : ℕ → ℕ → List ℕ → List ℕ → Option ℕ
find zero i name dir = none
find (suc n) i name dir =
    let rest = find n (i + 1) name dir in
    if in_use i dir && is_named name i dir then some i else rest

-- What the loop of fs_write_new has found: the slot for the file, whether it replaces one, and the
-- sector after all data.
pub record Scan : Type 0 where
  pub target : Option ℕ
  pub is_overwrite : Bool
  pub next_lba : ℕ

abbrev pub or_else : Option ℕ → ℕ → Option ℕ
or_else none i = some i
or_else (some j) i = some j

pub scan_entry : List ℕ → ℕ → List ℕ → Scan → Scan
scan_entry name i dir r =
    let found =
      if is_named name i dir then record r { target = some i; is_overwrite = true } else r in
    let sectors = (entry_size i dir + sector_size - 1) % 2 ^ 32 / sector_size in
    let stop = (entry_start i dir + sectors) % 2 ^ 32 in
    if in_use i dir
    then record found { next_lba = if ltb r.next_lba stop then stop else r.next_lba }
    else record r { target = or_else r.target i }

pub scan : ℕ → ℕ → List ℕ → List ℕ → Scan → Scan
scan zero i name dir r = r
scan (suc n) i name dir r = scan n (i + 1) name dir (scan_entry name i dir r)

-- The new entry: cleared, then name, start, size and flags.
pub fill_entry : ℕ → List ℕ → ℕ → ℕ → List ℕ → List ℕ
fill_entry i name lba size dir =
    let blank = replicate dirent_size 0 in
    let named = set (strncpy blank name name_max) name_max 0 in
    let entry = set_word 40 0 (set_word 36 size (set_word 32 lba named)) in
    take (i * dirent_size) dir ++ entry ++ drop ((i + 1) * dirent_size) dir

abbrev pub is_empty : List ℕ → Bool
is_empty name = get_or name 0 0 == 0

module _ (driver : Driver) where
  unfoldable pub read_super : driver.Disk → Option (List ℕ) × driver.Disk
  read_super d = driver.read_sectors start_lba 1 d

  pub write_super : List ℕ → driver.Disk → Bool × driver.Disk
  write_super sb d = driver.write_sectors start_lba 1 sb d

  pub read_dir : driver.Disk → Option (List ℕ) × driver.Disk
  read_dir d = driver.read_sectors (start_lba + 1) dir_sectors d

  pub write_dir : List ℕ → driver.Disk → Bool × driver.Disk
  write_dir dir d = driver.write_sectors (start_lba + 1) dir_sectors dir d

  pub format : driver.Disk → Bool × driver.Disk
  format d =
      let sb = set_word 8 1 (memcpy (replicate sector_size 0) fs_magic 8) in
      let (ok, d1) = write_super sb d in
      let written = write_dir (replicate (dir_sectors * sector_size) 0) d1 in
      if ok then written else (false, d1)

  unfoldable pub init : driver.Disk → Bool × driver.Disk
  init d =
      let (res, d1) = read_super d in
      elim res [ none ↦ (false, d1) | some sb ↦ (has_magic sb && get_word 8 sb == 1, d1) ]

  -- fs_open fills the handle if it returns 0.
  pub fs_open : List ℕ → driver.Disk → Option File × driver.Disk
  fs_open name d =
      let (res, d1) = read_dir d in
      elim res [
        | none ↦ (none, d1)
        | some dir ↦ elim (find max_files 0 name dir) [
          | none ↦ (none, d1)
          | some i ↦ (
            some (record {
              first_lba = entry_start i dir;
              size = entry_size i dir;
              position = 0;
              is_valid = true;
            }),
            d1,
          )
        ]
      ]

  -- The loop of fs_read with `remaining` bytes to read: the bytes, the handle and the disk.
  unfoldable pub read_loop : ℕ → ℕ → File → driver.Disk → Option (List ℕ × File × driver.Disk)
  read_loop zero remaining f d = none
  read_loop (suc n) remaining f d = elim (remaining == 0) [
    | true ↦ some ([], f, d)
    | false ↦
        let (res, d1) =
          driver.read_sectors ((f.first_lba + f.position / sector_size) % 2 ^ 32) 1 d in
        elim res [
          | none ↦ some ([], f, d1)
          | some sector ↦
              let offset = f.position % sector_size in
              let room = sector_size - offset in
              let chunk = if ltb remaining room then remaining else room in
              let moved = record f { position = (f.position + chunk) % 2 ^ 32 } in
              elim (read_loop n (remaining - chunk) moved d1) [
                | none ↦ none
                | some (bytes, f2, d2) ↦ some (take chunk (drop offset sector) ++ bytes, f2, d2)
              ]
        ]
  ]

  -- The number of bytes that fs_read returns is the length of those read.
  unfoldable pub read : ℕ → File → driver.Disk → Option (List ℕ × File × driver.Disk)
  read len f d =
      let left = f.size - f.position in
      let len' = if ltb left len then left else len in
      let result = read_loop (suc len') len' f d in
      if not f.is_valid || leb f.size f.position then some ([], f, d) else result

  -- The `n` sectors of the data from LBA `lba` on; the last one is filled up with zeros.
  pub write_data : ℕ → ℕ → List ℕ → driver.Disk → Bool × driver.Disk
  write_data zero lba src d = (true, d)
  write_data (suc n) lba src d =
      let sector = memcpy (replicate sector_size 0) src sector_size in
      let (res, d1) = driver.write_sectors (lba % 2 ^ 32) 1 sector d in
      elim res [ false ↦ (false, d1) | true ↦ write_data n (lba + 1) (drop sector_size src) d1 ]

  -- Directory and superblock after the data has been written.
  pub commit : List ℕ → List ℕ → Bool → driver.Disk → Bool × driver.Disk
  commit sb dir is_overwrite d =
      let (res, d1) = write_dir dir d in
      elim res [
        | false ↦ (false, d1)
        | true ↦ write_super (if is_overwrite then sb else set_word 12 (get_word 12 sb + 1) sb) d1
      ]

  abbrev pub store : List ℕ → List ℕ → ℕ → List ℕ → List ℕ → Scan → driver.Disk → Bool × driver.Disk
  store name src len sb dir r d = elim r.target [
    | none ↦ (false, d)
    | some i ↦
        let (res, d1) =
          write_data ((len + sector_size - 1) % 2 ^ 32 / sector_size) r.next_lba src d in
        elim res [
          | false ↦ (false, d1)
          | true ↦ commit sb (fill_entry i name r.next_lba len dir) r.is_overwrite d1
        ]
  ]

  pub write_new : List ℕ → List ℕ → ℕ → driver.Disk → Bool × driver.Disk
  write_new name src len d = elim (is_empty name) [
    | true ↦ (false, d)
    | false ↦
        let (res, d1) = read_super d in
        elim res [
          | none ↦ (false, d1)
          | some sb ↦
              let (res, d2) = read_dir d1 in
              elim res [
                | none ↦ (false, d2)
                | some dir ↦
                    let first : Scan = record {
                      target = none;
                      is_overwrite = false;
                      next_lba = data_lba;
                    } in
                    let stored = store name src len sb dir (scan max_files 0 name dir first) d2 in
                    if has_magic sb then stored else (false, d2)
              ]
        ]
  ]

  -- The count of files after a deletion; a failure here is ignored.
  pub count_deleted : driver.Disk → driver.Disk
  count_deleted d =
      let (res, d1) = read_super d in
      elim res [
        | none ↦ d1
        | some sb ↦
            let n = get_word 12 sb in
            if ltb 0 n then (write_super (set_word 12 (n - 1) sb) d1).1 else d1
      ]

  pub delete : List ℕ → driver.Disk → Bool × driver.Disk
  delete name d = elim (is_empty name) [
    | true ↦ (false, d)
    | false ↦
        let (res, d1) = read_dir d in
        elim res [
          | none ↦ (false, d1)
          | some dir ↦ elim (find max_files 0 name dir) [
            | none ↦ (false, d1)
            | some i ↦
                let (res, d2) = write_dir (set_word (i * dirent_size + 40) 1 dir) d1 in
                elim res [ false ↦ (false, d2) | true ↦ (true, count_deleted d2) ]
          ]
        ]
  ]
