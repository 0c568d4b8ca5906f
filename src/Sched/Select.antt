-- ===== src/Sched/Select.antt =====
-- What `schedule` chooses, and that two rounds of its loop are enough.
use mathlib.Core.Option
use mathlib.Core.Path.{subst}
use linux_0_11_learning.Base.{
  ℕ, zero, suc, ◌+◌, ◌*◌, ◌/◌, ◌≤◌, ◌<◌, ◌≡◌, refl, sym, ap, ◌∙◌, inl, inr, Option, none, some, [],
  ◌∷◌, true, false, map, arith, ◌==◌, ◌&&◌, Bool-cases,
}
use native.Mathlib.Nat.{add_comm}
use native.Mathlib.Numerals.{add-one}
use linux_0_11_learning.Task.{
  Task, Tasks, task_running, task_at, AllTasks, AllTasks-map, AllTasks-task_at, task_at-map,
}
use linux_0_11_learning.Sched.{
  sweep, tasks_after_first, above, scan, recharge, is_nonzero, select, schedule, check_alarm,
  check_signal,
}

abbrev pub CanRun : Task → Type 0
CanRun p = p.state ≡ task_running

abbrev pub CounterAtMost : ℕ → Task → Type 0
CounterAtMost m p = CanRun p → p.counter ≤ m

-- The outcome of the search through `ts`, whose first slot is `i`: nobody can run, or the slot of
-- a task that can and has the greatest counter of those.
abbrev Best : ℕ → Tasks → Option ℕ → ℕ → Type 0
Best i ts none next = (next ≡ 0) × AllTasks (λ p. ¬ (CanRun p)) ts
Best i ts (some m) next =
    (j : ℕ) × (p : Task) × (next ≡ i + j)
    × (task_at ts j ≡ some p)
    × CanRun p
    × (p.counter ≡ m)
    × AllTasks (CounterAtMost m) ts

AllTasks-mono :
    (P Q : Task → Type 0) (ts : Tasks) → ((p : Task) → P p → Q p) → AllTasks P ts → AllTasks Q ts
AllTasks-mono P Q [] step all = tt
AllTasks-mono P Q (none ∷ ts) step all = AllTasks-mono P Q ts step all
AllTasks-mono P Q (some p ∷ ts) step all = (step p all.0, AllTasks-mono P Q ts step all.1)

Best-none :
    (i : ℕ) (ts : Tasks) (c : Option ℕ) (next : ℕ)
    → Best (i + 1) ts c next
    → Best i (none ∷ ts) c next
Best-none i ts none next b = b
Best-none i ts (some m) next (j, p, e, at, run, count, all) =
    (suc j, p, omega arith, at, run, count, all)

-- The search takes the task in front of the slots searched, or passes it over.
Best-take :
    (i : ℕ) (p : Task) (ts : Tasks) (c : Option ℕ) (next : ℕ)
    → Best (i + 1) ts c next
    → (p.state == task_running && above p.counter c) ≡ true
    → Best i (some p ∷ ts) (some p.counter) i
Best-take i p ts none next b e = (
  0,
  p,
  omega arith,
  refl,
  ground arith,
  refl,
  (
    λ run. omega arith,
    AllTasks-mono (λ q. ¬ (CanRun q)) (CounterAtMost p.counter) ts (λ q no' run. absurd (no' run))
        b.1,
  ),
)
Best-take i p ts (some m) next (j, q, at, found, run, count, all) e = (
  0,
  p,
  omega arith,
  refl,
  ground arith,
  refl,
  (
    λ run'. omega arith,
    AllTasks-mono (CounterAtMost m) (CounterAtMost p.counter) ts
        (λ r le run'. let a : r.counter ≤ m = le run' in ground arith) all,
  ),
)

Best-skip :
    (i : ℕ) (p : Task) (ts : Tasks) (c : Option ℕ) (next : ℕ)
    → Best (i + 1) ts c next
    → (p.state == task_running && above p.counter c) ≡ false
    → Best i (some p ∷ ts) c next
Best-skip i p ts none next b e = (b.0, (λ run. ground arith, b.1))
Best-skip i p ts (some m) next (j, q, at, found, run, count, all) e =
    (suc j, q, omega arith, found, run, count, (λ run'. ground arith, all))

scan-Best : (i : ℕ) (ts : Tasks) → Best i ts (scan i ts).0 (scan i ts).1
unfolding scan
scan-Best i [] = (refl, tt)
scan-Best i (none ∷ ts) = Best-none i ts _ _ (scan-Best (i + 1) ts)
scan-Best i (some p ∷ ts) =
    elim (Bool-cases (p.state == task_running && above p.counter (scan (i + 1) ts).0)) [
      | inl e ↦ rw e (Best-take i p ts _ _ (scan-Best (i + 1) ts) e)
      | inr e ↦ rw e (Best-skip i p ts _ _ (scan-Best (i + 1) ts) e)
    ]

-- The task in slot `next` can run, has time left, and nobody that can run has more; or nobody can
-- run and the slot is that of the idle task.
pub data Chosen (ts : Tasks) (next : ℕ) : Type 0 where
  idle : next ≡ 0 → AllTasks (λ p. ¬ (CanRun p)) (tasks_after_first ts) → Chosen ts next
  task :
      (p : Task)
      → task_at ts next ≡ some p
      → CanRun p
      → 0 < p.counter
      → AllTasks (CounterAtMost p.counter) (tasks_after_first ts)
      → Chosen ts next

-- No task that can run has time left, and there is one.
pub record Exhausted (ts : Tasks) : Type 0 where
  pub slot : ℕ
  pub waiting : Task
  pub there : task_at (tasks_after_first ts) slot ≡ some waiting
  pub can_run : CanRun waiting
  pub all_zero : AllTasks (CounterAtMost 0) (tasks_after_first ts)

task_at-after_first :
    (ts : Tasks) (j : ℕ) {p : Task}
    → task_at (tasks_after_first ts) j ≡ some p
    → task_at ts (1 + j) ≡ some p
task_at-after_first [] j e = cc
task_at-after_first (t ∷ ts) j e = rw add_comm (rw add-one e)

Best-Chosen :
    (ts : Tasks) (c : Option ℕ) (next : ℕ)
    → Best 1 (tasks_after_first ts) c next
    → is_nonzero c ≡ true
    → Chosen ts next
Best-Chosen ts none next b e = Chosen.idle b.0 b.1
Best-Chosen ts (some m) next (j, p, at, found, run, count, all) e =
    Chosen.task p (rw at (task_at-after_first ts j found)) run (ground arith) (rw count all)

Best-Exhausted :
    (ts : Tasks) (c : Option ℕ) (next : ℕ)
    → Best 1 (tasks_after_first ts) c next
    → is_nonzero c ≡ false
    → Exhausted ts
Best-Exhausted ts none next b e = cc
Best-Exhausted ts (some zero) next (j, p, at, found, run, count, all) e = record {
  slot = j;
  waiting = p;
  there = found;
  can_run = run;
  all_zero = all;
}
Best-Exhausted ts (some (suc m)) next b e = cc

after_first-sweep :
    (f : Task → Task) (ts : Tasks)
    → tasks_after_first (sweep f ts) ≡ map (Option.map f) (tasks_after_first ts)
after_first-sweep f [] = refl
after_first-sweep f (t ∷ ts) = refl

AllTasks-sweep :
    (P Q : Task → Type 0) (f : Task → Task) (ts : Tasks)
    → ((p : Task) → P p → Q (f p))
    → AllTasks P (tasks_after_first ts)
    → AllTasks Q (tasks_after_first (sweep f ts))
AllTasks-sweep P Q f [] step all = tt
AllTasks-sweep P Q f (t ∷ ts) step all = AllTasks-map P Q f ts step all

abbrev pub HasPriority : Task → Type 0
HasPriority p = 0 < p.priority

-- After a recharge the greatest counter is not zero.
recharged_nonzero :
    (ts : Tasks) (c : Option ℕ) (next : ℕ)
    → AllTasks HasPriority (tasks_after_first ts)
    → Exhausted ts
    → Best 1 (tasks_after_first (sweep recharge ts)) c next
    → is_nonzero c ≡ true
unfolding recharge
recharged_nonzero ts none next prio ex b = refl
recharged_nonzero ts (some (suc m)) next prio ex b = refl
recharged_nonzero ts (some zero) next prio ex (j, p, at, found, run, count, all) =
    let there' : task_at (tasks_after_first (sweep recharge ts)) ex.slot
        ≡ some (recharge ex.waiting) =
      rw (after_first-sweep, task_at-map, ex.there) in
    let low = AllTasks-task_at (CounterAtMost zero) _ ex.slot all there' in
    let up = AllTasks-task_at HasPriority _ ex.slot prio ex.there in
    let z : ex.waiting.counter / 2 + ex.waiting.priority ≤ 0 = low ex.can_run in
    absurd (omega arith)

-- The tasks as the first pass of `schedule` leaves them.
abbrev pub signalled : ℕ → Tasks → Tasks
signalled jiffies = sweep (λ p. check_signal (check_alarm jiffies p))

-- What `schedule` does to `task[]` and what it switches to.
pub data Scheduled (jiffies : ℕ) (ts : Tasks) : Tasks → ℕ → Type 0 where
  at_once :
      {next : ℕ}
      → Chosen (signalled jiffies ts) next
      → Scheduled jiffies ts (signalled jiffies ts) next
  recharged :
      {next : ℕ}
      → Exhausted (signalled jiffies ts)
      → Chosen (sweep recharge (signalled jiffies ts)) next
      → Scheduled jiffies ts (sweep recharge (signalled jiffies ts)) next

select_one :
    (fuel : ℕ) (ts : Tasks)
    → is_nonzero (scan 1 (tasks_after_first ts)).0 ≡ true
    → select (suc fuel) ts ≡ some (ts, (scan 1 (tasks_after_first ts)).1)
unfolding select
select_one fuel ts e = rw (e, select)

select_again :
    (fuel : ℕ) (ts : Tasks)
    → is_nonzero (scan 1 (tasks_after_first ts)).0 ≡ false
    → select (suc fuel) ts ≡ select fuel (sweep recharge ts)
unfolding select
select_again fuel ts e = rw (e, select)

HasPriority-signalled :
    (jiffies : ℕ) (ts : Tasks)
    → AllTasks HasPriority (tasks_after_first ts)
    → AllTasks HasPriority (tasks_after_first (signalled jiffies ts))
unfolding check_alarm check_signal
HasPriority-signalled jiffies ts prio =
    AllTasks-sweep HasPriority HasPriority (λ p. check_signal (check_alarm jiffies p)) ts
      (λ p h. ground arith) prio

select-Scheduled :
    (jiffies : ℕ) (ts : Tasks)
    → AllTasks HasPriority (tasks_after_first (signalled jiffies ts))
    → (r : Tasks × ℕ) × (select 2 (signalled jiffies ts) ≡ some r) × Scheduled jiffies ts r.0 r.1
select-Scheduled jiffies ts prio =
    elim (Bool-cases (is_nonzero (scan 1 (tasks_after_first now)).0)) [
      | inl e ↦ (_, select_one 1 now e, Scheduled.at_once (Best-Chosen now _ _ first e))
      | inr e ↦
          let ex = Best-Exhausted now _ _ first e in
          let e' = recharged_nonzero now _ _ prio ex second in
          (
            _,
            select_again 1 now e ∙ select_one 0 (sweep recharge now) e',
            Scheduled.recharged ex (Best-Chosen (sweep recharge now) _ _ second e'),
          )
    ]
  where
    now : Tasks
    now = signalled jiffies ts

    first :
        Best 1
          (tasks_after_first now)
          (scan 1 (tasks_after_first now)).0
          (scan 1 (tasks_after_first now)).1
    first = scan-Best 1 (tasks_after_first now)

    second :
        Best 1
          (tasks_after_first (sweep recharge now))
          (scan 1 (tasks_after_first (sweep recharge now))).0
          (scan 1 (tasks_after_first (sweep recharge now))).1
    second = scan-Best 1 (tasks_after_first (sweep recharge now))

-- Where every task has a positive priority, the loop of `schedule` ends within two rounds. It then
-- switches to a task that can run, has time left, and has the greatest counter of all that can,
-- or to the idle task where none can; and it has recharged the counters once, if every task that
-- could run had used its time up, and not otherwise.
pub schedule-Scheduled :
    (jiffies : ℕ) (ts : Tasks)
    → AllTasks HasPriority (tasks_after_first ts)
    → (r : Tasks × ℕ) × (schedule jiffies ts ≡ some r) × Scheduled jiffies ts r.0 r.1
unfolding schedule
schedule-Scheduled jiffies ts prio =
    select-Scheduled jiffies ts (HasPriority-signalled jiffies ts prio)

abbrev pub IsCharged : Task → Type 0
IsCharged p = p.counter ≤ 2 * p.priority

IsCharged-signalled :
    (jiffies : ℕ) (ts : Tasks)
    → AllTasks IsCharged (tasks_after_first ts)
    → AllTasks IsCharged (tasks_after_first (signalled jiffies ts))
unfolding check_alarm check_signal
IsCharged-signalled jiffies ts all =
    AllTasks-sweep IsCharged IsCharged (λ p. check_signal (check_alarm jiffies p)) ts
      (λ p h. ground arith) all

Scheduled-IsCharged :
    (jiffies : ℕ) (ts : Tasks) {ts' : Tasks} {next : ℕ}
    → Scheduled jiffies ts ts' next
    → AllTasks IsCharged (tasks_after_first ts)
    → AllTasks IsCharged (tasks_after_first ts')
unfolding recharge
Scheduled-IsCharged jiffies ts (at_once chosen) all = IsCharged-signalled jiffies ts all
Scheduled-IsCharged jiffies ts (recharged ex chosen) all =
    AllTasks-sweep IsCharged IsCharged recharge (signalled jiffies ts) (λ p h. omega arith)
      (IsCharged-signalled jiffies ts all)

-- No counter grows past twice its task's priority, however often a task sleeps through recharges.
pub schedule-IsCharged :
    (jiffies : ℕ) (ts : Tasks) (r : Tasks × ℕ)
    → AllTasks HasPriority (tasks_after_first ts)
    → AllTasks IsCharged (tasks_after_first ts)
    → schedule jiffies ts ≡ some r
    → AllTasks IsCharged (tasks_after_first r.0)
schedule-IsCharged jiffies ts r prio charged e =
    let (r', e', s) = schedule-Scheduled jiffies ts prio in
    let same : r' ≡ r = ap (λ o. Option.get_or o r) (sym e' ∙ e) in
    subst (λ q. AllTasks IsCharged (tasks_after_first q.0)) same
      (Scheduled-IsCharged jiffies ts s charged)
