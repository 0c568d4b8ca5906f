-- ===== src/Sched.antt =====
-- kernel/sched.c: the choice of the next task, the wait queues' primitives and the calls on the
-- current task. The timer list is in `Timer`.
pub mod Select
mod Tests
use Prim.Native.Nat.{bit_and}
use mathlib.Core.Option
use linux_0_11_learning.Base.{
  ℕ, zero, suc, ◌+◌, ◌-◌, ◌*◌, ◌/◌, Option, none, some, List, [], ◌∷◌, Bool, true, false, map, ltb,
  leb, ◌==◌, ◌&&◌, not, if◌then◌else◌,
}
use linux_0_11_learning.Base.Int.{ℤ, pos, negsuc, neg_ℕ}
use linux_0_11_learning.Task.{
  Task, Tasks, task_running, task_interruptible, not32, blockable, raise, sigalrm, hz,
}

-- An alarm that is over raises SIGALRM and is cleared.
unfoldable pub check_alarm : ℕ → Task → Task
unfolding raise
check_alarm jiffies p =
    if not (p.alarm == 0) && ltb p.alarm jiffies then record (raise sigalrm p) { alarm = 0 } else p

-- A signal that is not blocked wakes an interruptible sleeper.
unfoldable pub check_signal : Task → Task
check_signal p =
    if not (bit_and p.signal (not32 (bit_and blockable p.blocked)) == 0)
      && p.state == task_interruptible
    then record p { state = task_running }
    else p

-- Every slot but the first, from `LAST_TASK` down. The slots do not affect one another.
abbrev pub sweep : (Task → Task) → Tasks → Tasks
sweep f [] = []
sweep f (t ∷ ts) = t ∷ map (Option.map f) ts

abbrev pub tasks_after_first : Tasks → Tasks
tasks_after_first [] = []
tasks_after_first (t ∷ ts) = ts

-- `counter > c`, where `none` is the first `c`, -1.
abbrev pub above : ℕ → Option ℕ → Bool
above counter none = true
above counter (some c) = ltb c counter

-- The search through the slots from `i` on, the last slot first: the greatest counter of a task
-- that can run, and its slot.
unfoldable pub scan : ℕ → Tasks → Option ℕ × ℕ
scan i [] = (none, 0)
scan i (none ∷ ts) = scan (i + 1) ts
scan i (some p ∷ ts) =
    let (c, next) = scan (i + 1) ts in
    if p.state == task_running && above p.counter c then (some p.counter, i) else (c, next)

unfoldable pub recharge : Task → Task
recharge p = record p { counter = p.counter / 2 + p.priority }

-- `if (c) break`, where -1 breaks too.
abbrev pub is_nonzero : Option ℕ → Bool
is_nonzero none = true
is_nonzero (some zero) = false
is_nonzero (some (suc c)) = true

-- `while (1)` on fuel. The result is `task[]` and the slot to switch to.
unfoldable pub select : ℕ → Tasks → Option (Tasks × ℕ)
unfolding scan recharge
select zero ts = none
select (suc fuel) ts =
    let (c, next) = scan 1 (tasks_after_first ts) in
    elim (is_nonzero c) [ true ↦ some (ts, next) | false ↦ select fuel (sweep recharge ts) ]

-- `schedule()`, up to `switch_to(next)`: two rounds are enough.
unfoldable pub schedule : ℕ → Tasks → Option (Tasks × ℕ)
unfolding check_alarm check_signal select
schedule jiffies ts = select 2 (sweep (λ p. check_signal (check_alarm jiffies p)) ts)

-- The tick of an alarm that `seconds` asks for; 0 is no alarm.
abbrev pub alarm_tick : ℕ → ℤ → ℕ
alarm_tick jiffies (pos zero) = 0
alarm_tick jiffies (pos (suc n)) = jiffies + hz * suc n
alarm_tick jiffies (negsuc n) = 0

-- `(old - jiffies) / HZ`, which C rounds towards 0.
abbrev pub seconds_left : ℕ → ℕ → ℤ
seconds_left jiffies old =
    if leb jiffies old then pos ((old - jiffies) / hz) else neg_ℕ ((jiffies - old) / hz)

-- `sys_alarm`: the old alarm's seconds, and the task with the new one.
unfoldable pub sys_alarm : ℕ → ℤ → Task → ℤ × Task
sys_alarm jiffies seconds p =
    let old = if p.alarm == 0 then pos 0 else seconds_left jiffies p.alarm in
    (old, record p { alarm = alarm_tick jiffies seconds })

-- `sys_nice`
unfoldable pub sys_nice : ℤ → Task → Task
sys_nice (pos n) p = if ltb n p.priority then record p { priority = p.priority - n } else p
sys_nice (negsuc n) p = record p { priority = p.priority + suc n }
