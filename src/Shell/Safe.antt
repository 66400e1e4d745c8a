-- ===== src/Shell/Safe.antt =====
-- What every command of kernel/shell.c keeps.
use vesper_os.Prelude.{
  ℕ, zero, suc, ◌-◌, ◌*◌, ◌≡◌, ◌∙◌, sym, none, some, ◌&&◌, inl, inr, Bool, true, false,
  Option-cases, List, [], ◌∷◌, get_or, length, ltb, ◌==◌, if◌then◌else◌, Bool-cases,
}
use vesper_os.Elf
use vesper_os.Elf.User
use vesper_os.Fs
use vesper_os.Fs.{Driver, File}
use vesper_os.Fs.Read.{read-Ends}
use vesper_os.Kmem
use vesper_os.Paging
use vesper_os.Paging.{Machine}
use vesper_os.Process
use vesper_os.Process.{Kernel, Link, reaches}
use vesper_os.Process.Sched.{IsValid}
use vesper_os.Process.Steps.{Reach-IsValid, here, next, creates, creates_user, yields, kills}
use vesper_os.Timer
use vesper_os.Vga.{Screen}
use vesper_os.Vga.Cursor.{IsScreen}
use vesper_os.Vga.Output.{Item, text, show}
use vesper_os.Vga.Shown.{show-IsScreen}
use vesper_os.Shell.Commands.{cmd_meminfo, cmd_kill, killed, cmd_sleep}
use vesper_os.Shell.Files.{
  cmd_mkfs, list_files, cmd_ls, cat_loop, cat_file, cmd_cat, write_file, cmd_write, remove_file,
  cmd_rm, mkfs_first, none_found,
}
use vesper_os.Shell.Programs.{
  set_machine, byte_at, word_at, read_file, run_image, cmd_run, exec_in, exec_image, cmd_exec,
  yield_to, give_up, run_buf_size, user_stack_top, user_stack_pages,
}
use vesper_os.Shell.State.{
  System, Outcome, returned, switched, halted, reset, unfinished, overwritten, say, set_disk,
  set_kernel, mounted, named,
}
use vesper_os.Shell.Text.{parse_uint}

-- The screen and the process table are valid.
abbrev pub IsSafe : {driver : Driver} → System driver → Type 0
IsSafe s = IsScreen s.screen × IsValid s.kernel

-- What a command may do apart from ending: nothing, wait for more rounds than it is given, or load a
-- program over the kernel.
pub data Kind : Type 0 where
  ends may_wait may_overwrite : Kind

-- However a command of a kind ends, it leaves a safe system.
abbrev pub Ends : {driver : Driver} → Kind → Outcome driver → Type 0
Ends kind (returned s) = IsSafe s
Ends kind (switched esp s) = IsSafe s
Ends kind (halted s) = IsSafe s
Ends kind (reset s) = IsSafe s
Ends may_wait unfinished = Unit {0}
Ends kind unfinished = ⊥
Ends may_overwrite overwritten = Unit {0}
Ends kind overwritten = ⊥

pub shown :
    (items : List Item) {t : Screen} {k : Kernel}
    → IsScreen t × IsValid k
    → IsScreen (show items t) × IsValid k
shown items {t} v = (show-IsScreen items t v.0, v.1)

with_machine : (m : Machine) {k : Kernel} → IsValid k → IsValid (record k { machine = m })
with_machine m v = record { slots = v.slots; in_table = v.in_table; one_runs = v.one_runs }

module _ {driver : Driver} (k : Kind) where
  if-Ends : (b : Bool) (x y : Outcome driver) → Ends k x → Ends k y → Ends k (if b then x else y)
  if-Ends true x y v w = v
  if-Ends false x y v w = w

  mounted-Ends :
      (message : List ℕ) (go : System driver → Outcome driver) (s : System driver)
      → IsSafe s
      → ((d : driver.Disk) → Ends k (go (set_disk d s)))
      → Ends k (mounted message go s)
  unfolding mounted
  mounted-Ends message go s v h = elim (Bool-cases (Fs.init driver s.disk).0) [
    | inl e ↦ rw (e, mounted) (h (Fs.init driver s.disk).1)
    | inr e ↦ rw (e, mounted) (shown _ v)
  ]

  named-Ends :
      (usage name : List ℕ) (go : System driver → Outcome driver) (s : System driver)
      → IsSafe s
      → Ends k (go s)
      → Ends k (named usage name go s)
  unfolding named
  named-Ends usage name go s v h = if-Ends (get_or name 0 0 == 0) _ _ (shown _ v) h

  pub cmd_kill-Ends :
      (link : Link) (args : List ℕ) (s : System driver) → IsSafe s → Ends k (cmd_kill args s)
  unfolding cmd_kill
  cmd_kill-Ends link args s v =
      let pid = parse_uint 0 args in
      if-Ends (pid == 0) _ _ (shown _ v) (
        shown (killed pid (Process.kill pid s.kernel).0)
          (v.0, Reach-IsValid {link = link} (next here (kills s.kernel pid)) v.1))

  pub cmd_mkfs-Ends : (s : System driver) → IsSafe s → Ends k (cmd_mkfs s)
  unfolding cmd_mkfs
  cmd_mkfs-Ends s v = shown _ (shown _ v)

  pub cmd_ls-Ends : (s : System driver) → IsSafe s → Ends k (cmd_ls s)
  unfolding cmd_ls list_files
  cmd_ls-Ends s v = mounted-Ends none_found list_files s v (λ d. shown _ v)

  pub cmd_write-Ends : (args : List ℕ) (s : System driver) → IsSafe s → Ends k (cmd_write args s)
  unfolding cmd_write write_file
  cmd_write-Ends args s v = named-Ends _ _ _ s v (mounted-Ends mkfs_first _ s v (λ d. shown _ v))

  pub cmd_rm-Ends : (name : List ℕ) (s : System driver) → IsSafe s → Ends k (cmd_rm name s)
  unfolding cmd_rm remove_file
  cmd_rm-Ends name s v =
      named-Ends _ name _ s v (mounted-Ends mkfs_first (remove_file name) s v (λ d. shown _ v))

  read_file-Ends :
      (name : List ℕ) (go : ℕ → System driver → Outcome driver) (s : System driver)
      → IsSafe s
      → ((n : ℕ) (t : System driver) → IsSafe t → Ends k (go n t))
      → Ends k (read_file name go s)
  unfolding read_file
  read_file-Ends name go s v h = elim (Option-cases (Fs.fs_open driver name s.disk).0) [
    | inl e ↦ rw (e, read_file) (shown _ v)
    | inr (f, e) ↦
        rw (e, read_file)
          (elim (Bool-cases (ltb run_buf_size f.size)) [
            | inl b ↦ rw b (shown _ v)
            | inr b ↦
                rw b
                  (elim (Option-cases (Fs.read driver f.size f (Fs.fs_open driver name s.disk).1)) [
                    | inl z ↦
                        let (bytes, f1, d1, q, m) =
                          read-Ends driver f.size f (Fs.fs_open driver name s.disk).1 in
                        let clash : none ≡ some (bytes, f1, d1) = sym z ∙ q in absurd (cc)
                    | inr ((bytes, f1, d1), z) ↦ rw z (
                        h (length bytes)
                          (record s {
                            disk = d1;
                            run_buf =
                                λ i. if ltb i (length bytes) then get_or bytes i 0 else s.run_buf i;
                          })
                          v)
                  ])
          ])
  ]

  yield_to-Ends :
      (link : Link) (esp : ℕ) (items : List Item) (s : System driver)
      → IsSafe s
      → Ends k (yield_to link esp items s)
  yield_to-Ends link esp items s v = (
    show-IsScreen items s.screen v.0,
    Reach-IsValid {link = link} (next here (yields s.kernel esp)) v.1,
  )

  give_up-Ends :
      (message : List ℕ) (pd : ℕ) (s : System driver) → IsSafe s → Ends k (give_up message pd s)
  give_up-Ends message pd s v =
      (show-IsScreen _ s.screen v.0, with_machine (Paging.destroy_pd pd s.kernel.machine) v.1)

  exec_in-Ends :
      (link : Link) (esp : ℕ) (name : List ℕ) (n pd : ℕ) (s : System driver)
      → IsSafe s
      → Ends k (exec_in link esp name n pd s)
  unfolding exec_in
  exec_in-Ends link esp name n pd s v =
      let loaded = Elf.User.load_user s.run_buf n pd s.kernel.machine in
      let s1 = set_machine loaded.1 s in
      let base = user_stack_top - user_stack_pages * 4096 in
      let stacked = Paging.alloc_user_pages pd base user_stack_pages 0 loaded.1 in
      let s2 = set_machine stacked.1 s in
      let made = Process.create_user link name loaded.0 user_stack_top pd s2.kernel in
      let v1 : IsSafe s1 = (v.0, with_machine loaded.1 v.1) in
      let v2 : IsSafe s2 = (v.0, with_machine stacked.1 v.1) in
      if-Ends (loaded.0 == 0) _ _ (give_up-Ends _ pd s1 v1) (
        if-Ends stacked.0 _ _
          (elim (Option-cases made.0) [
            | inl e ↦ rw e (give_up-Ends _ pd s2 v2)
            | inr (i, e) ↦ rw e (
                yield_to-Ends link esp _ (set_kernel made.1 s2) (
                  v.0,
                  Reach-IsValid {link = link}
                      (next here (creates_user s2.kernel name loaded.0 user_stack_top pd)) v2.1,
                ))
          ])
          (give_up-Ends _ pd s2 v2))

  exec_image-Ends :
      (link : Link) (esp : ℕ) (name : List ℕ) (n : ℕ) (s : System driver)
      → IsSafe s
      → Ends k (exec_image link esp name n s)
  unfolding exec_image
  exec_image-Ends link esp name n s v =
      let made = Paging.create_pd link.layout s.kernel.machine in
      let w : IsSafe (set_machine made.1 s) = (v.0, with_machine made.1 v.1) in
      if-Ends (made.0 == 0) _ _ (shown _ w)
        (exec_in-Ends link esp name n made.0 (set_machine made.1 s) w)

  pub cmd_exec-Ends :
      (link : Link) (esp : ℕ) (name : List ℕ) (s : System driver)
      → IsSafe s
      → Ends k (cmd_exec link esp name s)
  unfolding cmd_exec
  cmd_exec-Ends link esp name s v = named-Ends _ name _ s v (
      mounted-Ends mkfs_first _ s v (λ d.
        read_file-Ends name (exec_image link esp name) (set_disk d s) v
          (exec_image-Ends link esp name)))

module _ {driver : Driver} where
  pub cmd_meminfo-Ends : (s : System driver) → IsSafe s → Ends may_wait (cmd_meminfo s)
  unfolding cmd_meminfo
  cmd_meminfo-Ends s v = elim (Option-cases (Kmem.kmem_info s.heap)) [
    | inl e ↦ rw (e, cmd_meminfo) _
    | inr (info, e) ↦ rw (e, cmd_meminfo) (shown _ v)
  ]

  pub cmd_sleep-Ends :
      (rounds : ℕ) (args : List ℕ) (s : System driver)
      → IsSafe s
      → Ends may_wait (cmd_sleep rounds args s)
  unfolding cmd_sleep
  cmd_sleep-Ends rounds args s v =
      let ms = parse_uint 0 args in
      elim (Option-cases (Timer.sleep_ms rounds ms s.ticks)) [
        | inl e ↦ rw (e, cmd_sleep) (if-Ends may_wait (ms == 0) _ _ (shown _ v) _)
        | inr (halts, e) ↦
            rw (e, cmd_sleep) (if-Ends may_wait (ms == 0) _ _ (shown _ v) (shown _ (shown _ v)))
      ]

  cat_loop-Ends : (n : ℕ) (f : File) (s : System driver) → IsSafe s → Ends may_wait (cat_loop n f s)
  unfolding cat_loop
  cat_loop-Ends zero f s v = _
  cat_loop-Ends (suc n) f s v = elim (Option-cases (Fs.read driver 128 f s.disk)) [
    | inl e ↦ rw (e, cat_loop) _
    | inr ((bytes, f1, d1), e) ↦
        rw (e, cat_loop)
          (elim (Bool-cases (length bytes == 0)) [
            | inl z ↦ rw z (shown _ v)
            | inr z ↦ rw z (cat_loop-Ends n f1 (say (text bytes ∷ []) (set_disk d1 s)) (shown _ v))
          ])
  ]

  cat_file-Ends : (name : List ℕ) (s : System driver) → IsSafe s → Ends may_wait (cat_file name s)
  unfolding cat_file
  cat_file-Ends name s v = elim (Option-cases (Fs.fs_open driver name s.disk).0) [
    | inl e ↦ rw (e, cat_file) (shown _ v)
    | inr (f, e) ↦
        rw (e, cat_file)
          (cat_loop-Ends (suc f.size) f (set_disk (Fs.fs_open driver name s.disk).1 s) v)
  ]

  pub cmd_cat-Ends : (name : List ℕ) (s : System driver) → IsSafe s → Ends may_wait (cmd_cat name s)
  unfolding cmd_cat
  cmd_cat-Ends name s v = named-Ends may_wait _ name _ s v (
      mounted-Ends may_wait none_found (cat_file name) s v
        (λ d. cat_file-Ends name (set_disk d s) v))

  run_image-Ends :
      (link : Link) (esp : ℕ) (name : List ℕ) (n : ℕ) (s : System driver)
      → IsSafe s
      → Ends may_overwrite (run_image link esp name n s)
  unfolding run_image
  run_image-Ends link esp name n s v =
      let m = s.kernel.machine in
      let loaded = Elf.load s.run_buf n (byte_at m.mem) in
      let s1 = set_machine (record m { mem = word_at loaded.1 }) s in
      let w = with_machine (record m { mem = word_at loaded.1 }) v.1 in
      let made = Process.create link name loaded.0 s1.kernel in
      let over =
        Elf.accepts s.run_buf n
        && Elf.hits (reaches link) (Elf.header s.run_buf).phnum 0 s.run_buf n in
      if-Ends may_overwrite over _ _ _ (
        if-Ends may_overwrite (loaded.0 == 0) _ _ (shown _ (v.0, w)) (elim (Option-cases made.0) [
          | inl e ↦ rw e (shown _ (v.0, w))
          | inr (i, e) ↦ rw e (
              yield_to-Ends may_overwrite link esp _ (set_kernel made.1 s1)
                (v.0, Reach-IsValid {link = link} (next here (creates s1.kernel name loaded.0)) w))
        ]))

  pub cmd_run-Ends :
      (link : Link) (esp : ℕ) (name : List ℕ) (s : System driver)
      → IsSafe s
      → Ends may_overwrite (cmd_run link esp name s)
  unfolding cmd_run
  cmd_run-Ends link esp name s v = named-Ends may_overwrite _ name _ s v (
      mounted-Ends may_overwrite mkfs_first _ s v (λ d.
        read_file-Ends may_overwrite name (run_image link esp name) (set_disk d s) v
          (run_image-Ends link esp name)))
