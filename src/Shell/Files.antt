-- ===== src/Shell/Files.antt =====
-- The commands of kernel/shell.c on files: mkfs, ls, cat, write and rm.
use vesper_os.Prelude.{
  ℕ, zero, suc, true, false, none, some, List, [], ◌∷◌, length, ◌==◌, if◌then◌else◌,
}
use vesper_os.Prelude.Text.{codes}
use vesper_os.Fs
use vesper_os.Fs.{Driver, File}
use vesper_os.Fs.Listing
use vesper_os.Strings.{strlen}
use vesper_os.Vga.Output.{Item, uint, char, text, green, red, yellow, grey}
use vesper_os.Shell.State.{
  System, Outcome, returned, unfinished, failure, say, set_disk, mounted, named,
}
use vesper_os.Shell.Text.{skip_spaces, token}

abbrev pub mkfs_first : List ℕ
mkfs_first = codes "No VesperFS. Run 'mkfs' first.\n"

abbrev pub none_found : List ℕ
none_found = codes "No VesperFS found. Run 'mkfs' first.\n"

abbrev pub not_found : List ℕ → List Item
not_found name = red ∷ text (codes "File not found: ") ∷ text name ∷ char b'\n' ∷ grey ∷ []

module _ {driver : Driver} where
  unfoldable pub cmd_mkfs : System driver → Outcome driver
  cmd_mkfs s =
      let s1 = say (yellow ∷ text (codes "Formatting VesperFS at LBA 129... ") ∷ grey ∷ []) s in
      let (ok, d) = Fs.format driver s.disk in
      let result =
        if ok
        then green ∷ text (codes "done.\n") ∷ grey ∷ []
        else red ∷ text (codes "FAILED (disk write error).\n") ∷ grey ∷ [] in
      returned (say result (set_disk d s1))

  unfoldable pub list_files : System driver → Outcome driver
  list_files s = let (items, d) = Fs.Listing.ls driver s.disk in returned (say items (set_disk d s))

  unfoldable pub cmd_ls : System driver → Outcome driver
  cmd_ls s = mounted none_found list_files s

  -- The loop of cmd_cat: 128 bytes at a time, up to a read of none.
  unfoldable pub cat_loop : ℕ → File → System driver → Outcome driver
  cat_loop zero f s = unfinished
  cat_loop (suc n) f s = elim (Fs.read driver 128 f s.disk) [
    | none ↦ unfinished
    | some (bytes, f1, d1) ↦ elim (length bytes == 0) [
      | true ↦ returned (say (char b'\n' ∷ []) (set_disk d1 s))
      | false ↦ cat_loop n f1 (say (text bytes ∷ []) (set_disk d1 s))
    ]
  ]

  -- One round more than bytes in the file.
  unfoldable pub cat_file : List ℕ → System driver → Outcome driver
  unfolding cat_loop
  cat_file name s =
      let (res, d) = Fs.fs_open driver name s.disk in
      elim res [
        | none ↦ returned (say (not_found name) (set_disk d s))
        | some f ↦ cat_loop (suc f.size) f (set_disk d s)
      ]

  unfoldable pub cmd_cat : List ℕ → System driver → Outcome driver
  cmd_cat name s =
      named (codes "Usage: cat <filename>\n") name (mounted none_found (cat_file name)) s

  unfoldable pub write_file : List ℕ → List ℕ → System driver → Outcome driver
  write_file fname content s =
      let len = strlen content in
      let (ok, d) = Fs.write_new driver fname content len s.disk in
      let written =
        green
        ∷ text (codes "Written: ")
        ∷ text fname
        ∷ text (codes " (")
        ∷ uint len
        ∷ text (codes " bytes)\n")
        ∷ grey
        ∷ [] in
      returned (say (if ok then written else failure (codes "Write failed.\n")) (set_disk d s))

  unfoldable pub cmd_write : List ℕ → System driver → Outcome driver
  cmd_write args s =
      let (fname, rest) = token Fs.name_max args in
      named (codes "Usage: write <filename> <text>\n") fname
        (mounted mkfs_first (write_file fname (skip_spaces rest))) s

  unfoldable pub remove_file : List ℕ → System driver → Outcome driver
  remove_file name s =
      let (ok, d) = Fs.delete driver name s.disk in
      let deleted = green ∷ text (codes "Deleted: ") ∷ text name ∷ char b'\n' ∷ grey ∷ [] in
      returned (say (if ok then deleted else not_found name) (set_disk d s))

  unfoldable pub cmd_rm : List ℕ → System driver → Outcome driver
  cmd_rm name s =
      named (codes "Usage: rm <filename>\n") name (mounted mkfs_first (remove_file name)) s
