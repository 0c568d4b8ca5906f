-- ===== src/Task.antt =====
-- include/linux/sched.h: the task structure, its constants, and the words that hold bitmaps.
use Prim.Native.Nat.{bit_or}
use mathlib.Core.Path.{subst}
use mathlib.Core.Option
use linux_0_11_learning.Base.Bits.{set_bit}
use linux_0_11_learning.Base.{
  ℕ, ◌-◌, ◌^◌, ◌≡◌, refl, ap, Option, none, some, List, [], ◌∷◌, Bool, map, ◌==◌,
}

abbrev pub nr_tasks : ℕ
nr_tasks = 64

abbrev pub hz : ℕ
hz = 100

abbrev pub nr_open : ℕ
nr_open = 20

-- The values of `state`.
abbrev pub task_running : ℕ
task_running = 0

abbrev pub task_interruptible : ℕ
task_interruptible = 1

abbrev pub task_uninterruptible : ℕ
task_uninterruptible = 2

abbrev pub task_zombie : ℕ
task_zombie = 3

abbrev pub task_stopped : ℕ
task_stopped = 4

-- `struct sigaction`
pub record Sigaction : Type 0 where
  pub sa_handler : ℕ
  pub sa_mask : ℕ
  pub sa_flags : ℕ
  pub sa_restorer : ℕ

-- `struct task_struct`, without the descriptors and the saved registers. Pointers to inodes and
-- files are indices into their tables; a null pointer is `none`. `tty` is `none` for -1.
pub record Task : Type 0 where
  pub state : ℕ
  pub counter : ℕ
  pub priority : ℕ
  pub signal : ℕ
  pub sigaction : List Sigaction
  pub blocked : ℕ
  pub exit_code : ℕ
  pub start_code : ℕ
  pub end_code : ℕ
  pub end_data : ℕ
  pub brk : ℕ
  pub start_stack : ℕ
  pub pid : ℕ
  pub father : ℕ
  pub pgrp : ℕ
  pub session : ℕ
  pub leader : Bool
  pub uid : ℕ
  pub euid : ℕ
  pub suid : ℕ
  pub gid : ℕ
  pub egid : ℕ
  pub sgid : ℕ
  pub alarm : ℕ
  pub utime : ℕ
  pub stime : ℕ
  pub cutime : ℕ
  pub cstime : ℕ
  pub start_time : ℕ
  pub tty : Option ℕ
  pub umask : ℕ
  pub pwd : Option ℕ
  pub root : Option ℕ
  pub executable : Option ℕ
  pub close_on_exec : ℕ
  pub filp : List (Option ℕ)

-- `task[]`: slot 0 holds the idle task.
abbrev pub Tasks : Type 0
Tasks = List (Option Task)

-- `~x` of a 32-bit word
abbrev pub not32 : ℕ → ℕ
not32 x = 2 ^ 32 - 1 - x

-- `1 << (nr - 1)`
abbrev pub signal_bit : ℕ → ℕ
signal_bit nr = 2 ^ (nr - 1)

abbrev pub sighup : ℕ
sighup = 1

abbrev pub sigkill : ℕ
sigkill = 9

abbrev pub sigpipe : ℕ
sigpipe = 13

abbrev pub sigalrm : ℕ
sigalrm = 14

abbrev pub sigchld : ℕ
sigchld = 17

abbrev pub sigstop : ℕ
sigstop = 19

-- Every signal can be blocked but SIGKILL and SIGSTOP.
abbrev pub blockable : ℕ
blockable = not32 (bit_or (signal_bit sigkill) (signal_bit sigstop))

-- `p->signal |= 1 << (sig - 1)`
unfoldable pub raise : ℕ → Task → Task
raise sig p = record p { signal = set_bit (sig - 1) p.signal }

-- The task in a slot; a slot out of range holds none.
abbrev pub task_at : Tasks → ℕ → Option Task
task_at [] i = none
task_at (t ∷ ts) ℕ.zero = t
task_at (t ∷ ts) (ℕ.suc i) = task_at ts i

-- Change the task in a slot, where there is one.
abbrev pub update_task : Tasks → ℕ → (Task → Task) → Tasks
update_task [] i f = []
update_task (none ∷ ts) ℕ.zero f = none ∷ ts
update_task (some p ∷ ts) ℕ.zero f = some (f p) ∷ ts
update_task (t ∷ ts) (ℕ.suc i) f = t ∷ update_task ts i f

-- `suser()`
abbrev pub suser : Task → Bool
suser p = p.euid == 0

-- The task of an unused slot that tests start from.
abbrev pub blank_task : Task
blank_task = record {
  state = 0;
  counter = 0;
  priority = 15;
  signal = 0;
  sigaction = [];
  blocked = 0;
  exit_code = 0;
  start_code = 0;
  end_code = 0;
  end_data = 0;
  brk = 0;
  start_stack = 0;
  pid = 0;
  father = 0;
  pgrp = 0;
  session = 0;
  leader = Bool.false;
  uid = 0;
  euid = 0;
  suid = 0;
  gid = 0;
  egid = 0;
  sgid = 0;
  alarm = 0;
  utime = 0;
  stime = 0;
  cutime = 0;
  cstime = 0;
  start_time = 0;
  tty = none;
  umask = 0o22;
  pwd = none;
  root = none;
  executable = none;
  close_on_exec = 0;
  filp = [];
}

-- A property of every task of a list of slots.
abbrev pub AllTasks : (Task → Type 0) → Tasks → Type 0
AllTasks P [] = Unit {0}
AllTasks P (none ∷ ts) = AllTasks P ts
AllTasks P (some p ∷ ts) = P p × AllTasks P ts

module _ (P : Task → Type 0) where
  pub AllTasks-map :
      (Q : Task → Type 0) (f : Task → Task) (ts : Tasks)
      → ((p : Task) → P p → Q (f p))
      → AllTasks P ts
      → AllTasks Q (map (Option.map f) ts)
  AllTasks-map Q f [] step all = tt
  AllTasks-map Q f (none ∷ ts) step all = AllTasks-map Q f ts step all
  AllTasks-map Q f (some p ∷ ts) step all = (step p all.0, AllTasks-map Q f ts step all.1)

  pub AllTasks-task_at :
      (ts : Tasks) (i : ℕ) {p : Task} → AllTasks P ts → task_at ts i ≡ some p → P p
  AllTasks-task_at [] i all e = cc
  AllTasks-task_at (none ∷ ts) ℕ.zero all e = cc
  AllTasks-task_at (some q ∷ ts) ℕ.zero all e = subst P (ap (λ o. Option.get_or o q) e) all.0
  AllTasks-task_at (none ∷ ts) (ℕ.suc i) all e = AllTasks-task_at ts i all e
  AllTasks-task_at (some q ∷ ts) (ℕ.suc i) all e = AllTasks-task_at ts i all.1 e

pub task_at-map :
    (f : Task → Task) (ts : Tasks) (i : ℕ)
    → task_at (map (Option.map f) ts) i ≡ Option.map f (task_at ts i)
task_at-map f [] i = refl
task_at-map f (t ∷ ts) ℕ.zero = refl
task_at-map f (t ∷ ts) (ℕ.suc i) = task_at-map f ts i
