-- ===== src/Fd/Tests.antt =====
-- The theorems on kernel/fd.c with one open file, of process 3.
use vesper_os.Prelude.{◌≡◌, true, some, [], ◌∷◌, replicate, arith}
use vesper_os.Prelude.Int.{pos, negsuc}
use vesper_os.Fs.Tests.{numbered, handle}
use vesper_os.Fd.{Table, no_entry, read, close}
use vesper_os.Fd.Owner.{Owns, not_owner}

abbrev table : Table
table = record { file = handle; pid = 3; used = true } ∷ replicate 15 no_entry

stranger : ¬ (Owns table 4 (pos 0))
stranger (l, u, e) = absurd (omega (arith, e))

not_owner_example :
    (read numbered (pos 0) 100 4 table 0 ≡ some ((negsuc 0, []), table, 0))
    × (close (pos 0) 4 table ≡ table)
not_owner_example = not_owner numbered table 0 4 100 (pos 0) stranger
