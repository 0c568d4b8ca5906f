-- ===== src/Exit/Waiting.antt =====
-- What `waitpid` finds among the children.
use linux_0_11_learning.Base.{ℕ, ◌+◌, ◌≤◌, ◌≡◌, ◌≢◌, none, some, Bool, true, false, if◌then◌else◌}
use linux_0_11_learning.Base.Int.{ℤ, pos, negsuc}
use linux_0_11_learning.Task.{Task, Tasks, task_at, task_zombie, task_stopped, task_interruptible}
use linux_0_11_learning.Exit.{
  release, is_child, Seen, stopped, ended, flag, see, Waited, returns, sleeps,
}

-- A child that `waitpid` names stands in a slot after the first.
pub record Child (pid : ℤ) (here : ℕ) (current : Task) (ts : Tasks) (slot : ℕ) (p : Task)
    : Type 0 where
  pub after_first : 1 ≤ slot
  pub there : task_at ts slot ≡ some p
  pub child : is_child pid here slot current p ≡ true

module _ (pid : ℤ) (untraced : Bool) (here : ℕ) (current : Task) where
  -- The same of the slots from `i` on.
  abbrev ChildFrom : ℕ → Tasks → ℕ → Task → Type 0
  ChildFrom i ts slot p =
      (at : ℕ) × (slot ≡ i + at)
      × (task_at ts at ≡ some p)
      × (is_child pid here slot current p ≡ true)

  -- No child has ended, or stopped where that counts; those of which no flag tells have stopped.
  abbrev Others : ℕ → Tasks → Bool → Type 0
  Others i ts f =
      (slot : ℕ) (p : Task)
      → ChildFrom i ts slot p
      → (p.state ≢ task_zombie)
        × (untraced ≡ true → p.state ≢ task_stopped)
        × (f ≡ false → p.state ≡ task_stopped)

  data Looked (i : ℕ) (ts : Tasks) : Seen → Type 0 where
    is_stopped :
        {slot : ℕ} {p : Task}
        → ChildFrom i ts slot p
        → p.state ≡ task_stopped
        → untraced ≡ true
        → Looked i ts (stopped slot p)
    is_ended :
        {slot : ℕ} {p : Task}
        → ChildFrom i ts slot p
        → p.state ≡ task_zombie
        → Looked i ts (ended slot p)
    runs :
        (slot : ℕ) (p : Task) → ChildFrom i ts slot p → Others i ts true → Looked i ts (flag true)
    nobody : Others i ts false → Looked i ts (flag false)

  abbrev step : ℕ → Task → Seen → Seen
  step i q (stopped slot p) = stopped slot p
  step i q (ended slot p) = ended slot p
  step i q (flag f) = if is_child pid here i current q then see untraced i q f else flag f

-- The outcomes of a pass of `waitpid`.
pub data WaitOut (pid : ℤ) (nohang untraced : Bool) (here : ℕ) (current : Task) (ts : Tasks)
    : Waited → Type 0 where
  -- A child has ended: its times are added, its slot is emptied, and its code is the status.
  reaped :
      {slot : ℕ} {p : Task}
      → Child pid here current ts slot p
      → p.state ≡ task_zombie
      → WaitOut pid nohang untraced here current ts (
          returns
            (pos p.pid)
            (some p.exit_code)
            (record current {
              cutime = current.cutime + p.utime;
              cstime = current.cstime + p.stime;
            })
            (release slot ts))
  traced :
      {slot : ℕ} {p : Task}
      → Child pid here current ts slot p
      → p.state ≡ task_stopped
      → untraced ≡ true
      → WaitOut pid nohang untraced here current ts (returns (pos p.pid) (some 0x7f) current ts)
  -- There is a child, and none has ended.
  waits :
      {slot : ℕ} {p : Task} {w : Waited}
      → Child pid here current ts slot p
      → ((slot' : ℕ) (q : Task) → Child pid here current ts slot' q → q.state ≢ task_zombie)
      → w ≡ (
          if nohang
          then returns (pos 0) none current ts
          else sleeps (record current { state = task_interruptible }))
      → WaitOut pid nohang untraced here current ts w
  -- -ECHILD: every child that is named has stopped.
  no_child :
      ((slot' : ℕ) (q : Task) → Child pid here current ts slot' q → q.state ≡ task_stopped)
      → WaitOut pid nohang untraced here current ts (returns (negsuc 9) none current ts)
