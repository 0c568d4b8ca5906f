-- ===== src/Exit.antt =====
-- kernel/exit.c: how a task ends and how its parent waits for it. Signals are in `Kill`.
pub mod Orphans
pub mod Waiting
mod Tests
use linux_0_11_learning.Base.{
  ℕ, zero, suc, ◌+◌, ◌-◌, ◌*◌, ◌%◌, Bool, true, false, Option, none, some, List, [], ◌∷◌, ◌==◌,
  ◌&&◌, ◌||◌, not, if◌then◌else◌, map,
}
use mathlib.Core.Option
use linux_0_11_learning.Base.Int.{ℤ, pos, negsuc}
use linux_0_11_learning.Task.{
  Task, Tasks, task_zombie, task_stopped, task_interruptible, task_at, update_task, raise, sigchld,
}
use linux_0_11_learning.Base.Bits.{clear_bit}
use linux_0_11_learning.Kill.{kill_session, tell_father}

-- `release`: the slot of the task is emptied; what is freed with it is the page of the task.
unfoldable pub release : ℕ → Tasks → Tasks
release i [] = []
release zero (t ∷ ts) = none ∷ ts
release (suc i) (t ∷ ts) = t ∷ release i ts

-- A child of the task `pid` gets the father 1.
unfoldable pub adopt : (pid : ℕ) → Task → Task
adopt pid p = if p.father == pid then record p { father = 1 } else p

-- A zombie is among the children of the task `pid`.
unfoldable pub has_zombie : (pid : ℕ) → Tasks → Bool
has_zombie pid [] = false
has_zombie pid (none ∷ ts) = has_zombie pid ts
has_zombie pid (some p ∷ ts) = (p.father == pid && p.state == task_zombie) || has_zombie pid ts

-- `for (i=0 ; i<NR_TASKS ; i++)` of `do_exit`: the children of `pid` go to `init`, which stands in
-- slot 1 and gets SIGCHLD if one of them is a zombie.
unfoldable pub orphan : (pid : ℕ) → Tasks → Tasks
unfolding adopt has_zombie raise
orphan pid ts =
    let ts' = map (Option.map (adopt pid)) ts in
    if has_zombie pid ts then update_task ts' 1 (raise sigchld) else ts'

-- The open descriptors, which `do_exit` closes in this order.
unfoldable pub open_files : ℕ → List (Option ℕ) → List ℕ
open_files fd [] = []
open_files fd (none ∷ fs) = open_files (fd + 1) fs
open_files fd (some f ∷ fs) = fd ∷ open_files (fd + 1) fs

-- What `do_exit` leaves of the task: a zombie without files and inodes.
unfoldable pub zombie : (code : ℕ) → Task → Task
zombie code p = record p {
  filp = map (λ f. none) p.filp;
  pwd = none;
  root = none;
  executable = none;
  state = task_zombie;
  exit_code = code;
}

-- What `do_exit` does to other parts of the kernel: the descriptors that it closes, the inodes that
-- it puts, and the terminal whose process group it clears.
pub record Ended : Type 0 where
  pub tasks : Tasks
  pub closed : List ℕ
  pub put : List (Option ℕ)
  pub tty_left : Option ℕ

-- `kill_session` on all slots but the first.
abbrev pub hang_up : (session : ℕ) → Tasks → Tasks
hang_up session [] = []
hang_up session (t ∷ ts) = t ∷ kill_session session ts

-- `tell_father` of the task in the slot `i`, which is released where no father is found.
unfoldable pub tell : (father i : ℕ) → Tasks → Tasks
unfolding release
tell father i ts =
    if father == 0
    then release i ts
    else elim (tell_father father ts) [ none ↦ release i ts | some ts' ↦ ts' ]

-- `do_exit` of the task in the slot `i`, but for its page tables, up to `schedule`.
unfoldable pub do_exit : (code i : ℕ) → Task → Tasks → Ended
unfolding orphan open_files zombie tell
do_exit code i current ts =
    let ts1 = orphan current.pid ts in
    let ts2 = if current.leader then hang_up current.session ts1 else ts1 in
    record {
      tasks = tell current.father i (update_task ts2 i (zombie code));
      closed = open_files 0 current.filp;
      put = current.pwd ∷ current.root ∷ current.executable ∷ [];
      tty_left = if current.leader then current.tty else none;
    }

-- `do_exit((error_code&0xff)<<8)`
unfoldable pub sys_exit : (error_code i : ℕ) → Task → Tasks → Ended
unfolding do_exit
sys_exit error_code i current ts = do_exit (error_code % 256 * 256) i current ts

-- `pid` of `waitpid` names the task `p`, by its id, its group, or as any.
abbrev pub names_pid : ℤ → (current p : Task) → Bool
names_pid (pos zero) current p = p.pgrp == current.pgrp
names_pid (pos (suc n)) current p = p.pid == suc n
names_pid (negsuc zero) current p = true
names_pid (negsuc (suc n)) current p = p.pgrp == suc (suc n)

-- The task in the slot `i` is a child that `waitpid` waits for; `here` is the slot of `current`.
abbrev pub is_child : ℤ → (here i : ℕ) → (current p : Task) → Bool
is_child pid here i current p =
    not (i == here) && p.father == current.pid && names_pid pid current p

-- The search of `sys_waitpid`: the last slot with a child that has ended or stopped, or whether
-- there is a child at all.
pub data Seen : Type 0 where
  stopped : (slot : ℕ) → Task → Seen
  ended : (slot : ℕ) → Task → Seen
  flag : Bool → Seen

abbrev pub see : (untraced : Bool) → (slot : ℕ) → Task → Bool → Seen
see untraced slot p f =
    if p.state == task_stopped
    then (if untraced then stopped slot p else flag f)
    else if p.state == task_zombie
    then ended slot p
    else flag true

-- From the slot `i` on, the last slot first.
unfoldable pub look : ℤ → (untraced : Bool) → (here i : ℕ) → Task → Tasks → Seen
look pid untraced here i current [] = flag false
look pid untraced here i current (none ∷ ts) = look pid untraced here (i + 1) current ts
look pid untraced here i current (some p ∷ ts) =
    let rest = look pid untraced here (i + 1) current ts in
    elim rest [
      | stopped slot q ↦ stopped slot q
      | ended slot q ↦ ended slot q
      | flag f ↦ if is_child pid here i current p then see untraced i p f else flag f
    ]

-- What a pass of `sys_waitpid` comes to: its value with the status that it stores, and the current
-- task and the table as it leaves them; or a sleep until a signal comes.
pub data Waited : Type 0 where
  returns : ℤ → (status : Option ℕ) → Task → Tasks → Waited
  sleeps : Task → Waited

-- What `sys_waitpid` does with what it has found.
unfoldable pub act : (nohang : Bool) → Task → Tasks → Seen → Waited
unfolding release
act nohang current ts (stopped slot p) = returns (pos p.pid) (some 0x7f) current ts
act nohang current ts (ended slot p) =
    returns (pos p.pid) (some p.exit_code)
      (record current { cutime = current.cutime + p.utime; cstime = current.cstime + p.stime })
      (release slot ts)
act nohang current ts (flag false) = returns (negsuc 9) none current ts
act nohang current ts (flag true) =
    if nohang
    then returns (pos 0) none current ts
    else sleeps (record current { state = task_interruptible })

-- One pass of `sys_waitpid`, from the label `repeat` on, with the bits WNOHANG and WUNTRACED.
unfoldable pub sys_waitpid : ℤ → (nohang untraced : Bool) → (here : ℕ) → Task → Tasks → Waited
unfolding look act
sys_waitpid pid nohang untraced here current [] = returns (negsuc 9) none current []
sys_waitpid pid nohang untraced here current (t ∷ ts) =
    act nohang current (t ∷ ts) (look pid untraced here 1 current ts)

-- After the sleep: SIGCHLD is taken off the signals, and the search goes on only if that was all.
unfoldable pub goes_on : Task → Bool × Task
unfolding clear_bit
goes_on current =
    let left = clear_bit (sigchld - 1) current.signal in
    (left == 0, record current { signal = left })
