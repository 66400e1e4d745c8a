-- ===== src/Fs/Tests.antt =====
-- The theorems on kernel/fs.c with a disk that is a function of the LBA.
use vesper_os.Prelude.{
  ℕ, ◌*◌, ◌≤◌, ◌≡◌, true, some, List, length, length-replicate, refl, replicate, arith,
}
use vesper_os.Fs.{Driver, File, read}
use vesper_os.Fs.Content.{Readable, Gives, read-Gives}
use vesper_os.Fs.Read.{read-Ends}

-- Every sector holds its LBA, and writes are lost.
abbrev pub numbered : Driver
numbered = record {
  Disk = ℕ;
  read_sectors = λ lba count d. (some (replicate (count * 512) lba), d);
  write_sectors = λ lba count bytes d. (true, d);
}

abbrev pub handle : File
handle = record { first_lba = 138; size = 600; position = 500; is_valid = true }

read-Ends_example :
    (bytes : List ℕ) × (f' : File) × (d' : ℕ) × (read numbered 200 handle 0 ≡ some (bytes, f', d'))
    × (length bytes ≤ 200)
read-Ends_example = read-Ends numbered 200 handle 0

numbered-Readable : Readable numbered
numbered-Readable = record {
  sector = λ d l. replicate (1 * 512) l;
  size = λ d l. length-replicate 512 l;
  reads = λ l d. refl;
  keeps = λ l k d. refl;
}

read-Gives_example : Gives numbered numbered-Readable 100 handle 0 (read numbered 200 handle 0)
read-Gives_example =
    read-Gives numbered numbered-Readable 200 handle 0 refl (omega arith) (omega arith)
