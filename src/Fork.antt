-- ===== src/Fork.antt =====
-- kernel/fork.c: the choice of a process id and a slot for a new process, and its task.
pub mod Pid
pub mod Child
mod Tests
use linux_0_11_learning.Base.{
  ℕ, zero, suc, ◌+◌, ◌-◌, ◌^◌, Bool, true, false, Option, none, some, List, [], ◌∷◌, ltb, ◌==◌,
  ◌||◌, not, if◌then◌else◌,
}
use linux_0_11_learning.Base.Int.{ℤ, pos, negsuc}
use linux_0_11_learning.Task.{Task, Tasks, task_running}

-- `if ((++last_pid)<0) last_pid=1`, for a 32-bit `long` that is not negative.
unfoldable pub next_pid : ℕ → ℕ
next_pid last_pid = if last_pid + 1 == 2 ^ 31 then 1 else last_pid + 1

-- Some task has the process id.
unfoldable pub pid_used : ℕ → Tasks → Bool
pid_used pid [] = false
pid_used pid (none ∷ ts) = pid_used pid ts
pid_used pid (some p ∷ ts) = p.pid == pid || pid_used pid ts

-- From the label `repeat` on, on fuel.
unfoldable pub fresh_pid : (fuel last_pid : ℕ) → Tasks → Option ℕ
unfolding next_pid pid_used
fresh_pid zero last_pid ts = none
fresh_pid (suc fuel) last_pid ts =
    let pid = next_pid last_pid in
    let rest = fresh_pid fuel pid ts in if pid_used pid ts then rest else some pid

-- The first free slot, of those from `i` on.
unfoldable pub free_slot : ℕ → Tasks → Option ℕ
free_slot i [] = none
free_slot i (none ∷ ts) = some i
free_slot i (some p ∷ ts) = free_slot (i + 1) ts

abbrev pub after_first : Tasks → Tasks
after_first [] = []
after_first (t ∷ ts) = ts

abbrev pub slot_or_eagain : Option ℕ → ℤ
slot_or_eagain none = negsuc 10
slot_or_eagain (some i) = pos i

-- The new `last_pid`, and the slot or -EAGAIN.
unfoldable pub find_empty_process : (fuel last_pid : ℕ) → Tasks → Option (ℕ × ℤ)
unfolding fresh_pid free_slot
find_empty_process fuel last_pid ts = elim (fresh_pid fuel last_pid ts) [
  | none ↦ none
  | some pid ↦ some (pid, slot_or_eagain (free_slot 1 (after_first ts)))
]

-- The task of a new process, as `copy_process` leaves it, but for the saved registers.
unfoldable pub new_task : (last_pid jiffies : ℕ) → (current : Task) → Task
new_task last_pid jiffies current = record current {
  pid = last_pid;
  father = current.pid;
  counter = current.priority;
  signal = 0;
  alarm = 0;
  leader = false;
  utime = 0;
  stime = 0;
  cutime = 0;
  cstime = 0;
  start_time = jiffies;
  state = task_running;
}

abbrev pub put_task : Tasks → ℕ → Option Task → Tasks
put_task [] i t = []
put_task (u ∷ ts) zero t = t ∷ ts
put_task (u ∷ ts) (suc i) t = u ∷ put_task ts i t

-- `f->f_count++` for every open file of the child.
unfoldable pub count_files : List (Option ℕ) → (ℕ → ℕ) → ℕ → ℕ
count_files [] f_count = f_count
count_files (none ∷ fs) f_count = count_files fs f_count
count_files (some f ∷ fs) f_count =
    count_files fs (λ g. if f == g then f_count f + 1 else f_count g)

-- `i_count++` for an inode that is there.
unfoldable pub count_inode : Option ℕ → (ℕ → ℕ) → ℕ → ℕ
count_inode none i_count = i_count
count_inode (some e) i_count = λ g. if e == g then i_count e + 1 else i_count g

-- The use counts of the open files and of the inodes.
pub record Counts : Type 0 where
  pub f_count : ℕ → ℕ
  pub i_count : ℕ → ℕ

-- `copy_process` into the slot `nr`: its value, the table and the counts. `page` tells whether there
-- was a page for the task, and `copied` whether `copy_mem` succeeded.
unfoldable pub copy_process :
    (page copied : Bool) → (nr last_pid jiffies : ℕ) → Task → Tasks → Counts → ℤ × Tasks × Counts
unfolding new_task count_files count_inode
copy_process page copied nr last_pid jiffies current ts counts =
    let p = new_task last_pid jiffies current in
    if not page
    then (negsuc 10, ts, counts)
    else if not copied
    then (negsuc 10, put_task ts nr none, counts)
    else (
      pos last_pid,
      put_task ts nr (some p),
      record {
        f_count = count_files p.filp counts.f_count;
        i_count =
            count_inode current.executable
              (count_inode current.root (count_inode current.pwd counts.i_count));
      },
    )
