-- ===== src/Process.antt =====
-- kernel/process.c, process.h and process_yield of process.asm: the process table and the
-- round-robin scheduler. `Kernel` holds process_table, current_process (an index, or none for
-- NULL), next_pid, TSS.ESP0 and the machine that paging.c acts on. A loop over the table is a
-- recursion on the list of its 16 slots, with the slot's number.
pub mod Sched
pub mod Turns
pub mod Fair
pub mod Slots
pub mod Steps
pub mod Life
pub mod Listing
pub mod Tests
use vesper_os.Prelude.{
  ℕ, zero, suc, ◌+◌, ◌-◌, ◌*◌, ◌/◌, ◌%◌, ◌^◌, ◌<◌, Bool, true, false, ◌&&◌, ◌||◌, not, Option, none,
  some, List, [], ◌∷◌, map, get_or, set, replicate, ◌==◌, if◌then◌else◌,
}
use vesper_os.Prelude.Int.{ℤ, pos, negsuc}
use vesper_os.Strings.{strncpy}
use vesper_os.Paging
use vesper_os.Paging.{Machine, Layout}

pub data ProcState : Type 0 where
  unused ready running blocked zombie : ProcState

-- The values of the C enumeration.
abbrev pub state_code : ProcState → ℕ
state_code unused = 0
state_code ready = 1
state_code running = 2
state_code blocked = 3
state_code zombie = 4

-- `kstack` lists the words from `esp` to the top of the kernel stack.
pub record Proc : Type 0 where
  pub esp : ℕ
  pub pd_phys : ℕ
  pub state : ProcState
  pub pid : ℕ
  pub is_user : Bool
  pub user_eip : ℕ
  pub user_esp : ℕ
  pub name : List ℕ
  pub kstack : List ℕ

abbrev pub has : ProcState → Proc → Bool
has st p = state_code p.state == state_code st

-- Addresses that the linker fixes; `reserved` are the bytes of the kernel's code, static data and
-- stack, and of the text screen.
pub record Link : Type 0 where
  pub layout : Layout
  pub process_table : ℕ
  pub user_mode_enter : ℕ
  pub idle_process_fn : ℕ
  pub reserved : ℕ → Bool

pub record Kernel : Type 0 where
  pub procs : List Proc
  pub current : Option ℕ
  pub next_pid : ℕ
  pub esp0 : ℕ
  pub machine : Machine

-- Some of the `n` bytes from address `a` on are the kernel's own.
unfoldable pub reaches : Link → ℕ → ℕ → Bool
reaches link zero a = false
reaches link (suc n) a = link.reserved (a % 2 ^ 32) || reaches link n (a + 1)

abbrev pub max_processes : ℕ
max_processes = 16

-- A slot of the zeroed table.
abbrev pub blank : Proc
blank = record {
  esp = 0;
  pd_phys = 0;
  state = unused;
  pid = 0;
  is_user = false;
  user_eip = 0;
  user_esp = 0;
  name = replicate 32 0;
  kstack = [];
}

abbrev pub proc : Kernel → ℕ → Proc
proc k i = get_or k.procs i blank

abbrev pub set_proc : ℕ → Proc → Kernel → Kernel
set_proc i p k = record k { procs = set k.procs i p }

abbrev pub set_state : ℕ → ProcState → Kernel → Kernel
set_state i st k = set_proc i (record (proc k i) { state = st }) k

-- The first slot from number `i` on that passes a test.
pub find_slot : (Proc → Bool) → ℕ → List Proc → Option ℕ
find_slot test i [] = none
find_slot test i (p ∷ ps) = let rest = find_slot test (i + 1) ps in if test p then some i else rest

pub alloc_slot : Kernel → Option ℕ
alloc_slot k = find_slot (has unused) 0 k.procs

-- The end of slot `i`'s kernel stack: sizeof(process_t) is 8252 and kstack is its last field.
unfoldable pub kstack_top : Link → ℕ → ℕ
kstack_top link i = link.process_table + 8252 * i + 60 + 8192

abbrev set_name : Proc → List ℕ → List ℕ
set_name p name = set (strncpy p.name name 31) 31 0

-- What build_initial_kstack pushes, lowest address first.
pub build_initial_kstack : ℕ → List ℕ
build_initial_kstack ret_addr = 0 ∷ 0 ∷ 0 ∷ 0 ∷ ret_addr ∷ []

-- The index of the new process, or none for NULL.
pub create : Link → List ℕ → ℕ → Kernel → Option ℕ × Kernel
create link name fn k = elim (alloc_slot k) [
  | none ↦ (none, k)
  | some i ↦
      let p = proc k i in
      let pid = (k.next_pid + 1) % 2 ^ 32 in
      (
        some i,
        record k {
          next_pid = pid;
          procs = set k.procs i (record {
            esp = kstack_top link i - 20;
            pd_phys = 0;
            state = ready;
            pid = pid;
            is_user = false;
            user_eip = 0;
            user_esp = 0;
            name = set_name p name;
            kstack = build_initial_kstack fn;
          });
        },
      )
]

pub create_user : Link → List ℕ → ℕ → ℕ → ℕ → Kernel → Option ℕ × Kernel
create_user link name user_eip user_esp pd_phys k = elim (alloc_slot k) [
  | none ↦ (none, k)
  | some i ↦
      let p = proc k i in
      let pid = (k.next_pid + 1) % 2 ^ 32 in
      (
        some i,
        record k {
          next_pid = pid;
          procs = set k.procs i (record {
            esp = kstack_top link i - 20;
            pd_phys = pd_phys;
            state = ready;
            pid = pid;
            is_user = true;
            user_eip = user_eip;
            user_esp = user_esp;
            name = set_name p name;
            kstack = build_initial_kstack link.user_mode_enter;
          });
        },
      )
]

abbrev pub reset_slot : Proc → Proc
reset_slot p = record p { state = unused; pid = 0; pd_phys = 0; is_user = false }

abbrev pub idle_name : List ℕ
idle_name = b'i' ∷ b'd' ∷ b'l' ∷ b'e' ∷ []

pub init : Link → Kernel → Kernel
init link k =
    (create link idle_name link.idle_process_fn
      (record k { procs = map reset_slot k.procs; next_pid = 0 })).1

-- process_before_switch for the process in slot `i`.
pub before_switch : Link → ℕ → Kernel → Kernel
before_switch link i k =
    let pd = (proc k i).pd_phys in
    let target = if pd == 0 then link.layout.page_directory else pd in
    let k' = record k { esp0 = kstack_top link i } in
    if target == k.machine.cr3 then k' else record k' { machine = Paging.switch target k.machine }

abbrev pub runnable : Proc → Bool
runnable p = has ready p || has running p

-- The loop of sched_next with `n` rounds left from round `i`.
pub next_ready : ℕ → ℕ → ℕ → List Proc → Option ℕ
next_ready zero i curr ps = none
next_ready (suc n) i curr ps =
    let idx = (curr + i) % max_processes in
    let rest = next_ready n (i + 1) curr ps in
    if has ready (get_or ps idx blank) then some idx else rest

abbrev pub or_idle : Option ℕ → ℕ
or_idle none = 0
or_idle (some i) = i

-- A running process that is asked to give way becomes ready again.
pub preempt : ℕ → Kernel → Kernel
preempt curr k = if has running (proc k curr) then set_state curr ready k else k

pub sched_from : Option ℕ → Kernel → ℕ × Kernel
sched_from none k = let i = or_idle (find_slot runnable 0 k.procs) in (i, set_state i running k)
sched_from (some curr) k =
    let k' = preempt curr k in
    let i = or_idle (next_ready max_processes 1 curr k'.procs) in (i, set_state i running k')

pub sched_next : Kernel → ℕ × Kernel
unfolding sched_from
sched_next k = sched_from k.current k

-- The first half of process_yield: the caller's stack pointer is saved, if there is a caller.
pub save_esp : Option ℕ → ℕ → Kernel → Kernel
save_esp none esp k = k
save_esp (some curr) esp k = set_proc curr (record (proc k curr) { esp = esp }) k

-- process_yield, called on the stack pointer `esp`: the stack pointer that it loads, and the new
-- state. Control goes on in the process that is then current.
pub yield : Link → ℕ → Kernel → ℕ × Kernel
yield link esp k =
    let (i, k') = sched_next (save_esp k.current esp k) in
    let k'' = before_switch link i (record k' { current = some i }) in ((proc k'' i).esp, k'')

-- `if (pd_phys) { paging_destroy_pd(pd_phys); pd_phys = 0; } state = PROC_ZOMBIE`
abbrev pub bury : ℕ → Kernel → Kernel
bury i k =
    let p = proc k i in
    let m = if p.pd_phys == 0 then k.machine else Paging.destroy_pd p.pd_phys k.machine in
    record k { machine = m; procs = set k.procs i (record p { pd_phys = 0; state = zombie }) }

pub bury_current : Option ℕ → Kernel → Kernel
bury_current none k = k
bury_current (some curr) k = bury curr k

pub exit : Link → ℕ → Kernel → ℕ × Kernel
exit link esp k = yield link esp (bury_current k.current k)

abbrev pub killable : ℕ → Proc → Bool
killable pid p = p.pid == pid && not (has unused p) && not (has zombie p)

pub kill : ℕ → Kernel → ℤ × Kernel
kill pid k = elim (find_slot (killable pid) 0 k.procs) [
  | none ↦ (negsuc 0, k)
  | some i ↦ (pos 0, bury i k)
]

pub block_current : Option ℕ → Kernel → Kernel
block_current none k = k
block_current (some curr) k = set_state curr blocked k

pub block : Link → ℕ → Kernel → ℕ × Kernel
block link esp k = yield link esp (block_current k.current k)

pub wake : ℕ → Kernel → Kernel
wake i k = if has blocked (proc k i) then set_state i ready k else k

abbrev pub wake_proc : Proc → Proc
wake_proc p = if has blocked p then record p { state = ready } else p

pub wake_all_blocked : Kernel → Kernel
wake_all_blocked k = record k { procs = map wake_proc k.procs }
