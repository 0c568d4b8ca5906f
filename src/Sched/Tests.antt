-- ===== src/Sched/Tests.antt =====
-- Runs of the scheduler.
use linux_0_11_learning.Base.{ℕ, ◌^◌, ◌≡◌, refl, none, some, [], ◌∷◌, arith}
use linux_0_11_learning.Base.Bits.{set_bit}
use linux_0_11_learning.Task.{Task, Tasks, blank_task}
use linux_0_11_learning.Sched.{schedule}
use linux_0_11_learning.Sched.Select.{Scheduled, schedule-Scheduled}

-- An idle task, a task that has used its time up, a free slot, one that sleeps with an alarm, and
-- one that sleeps.
abbrev worker : Task
worker = record blank_task { pid = 1 }

abbrev alarmed : Task
alarmed = record blank_task { pid = 2; state = 1; counter = 0; priority = 20; alarm = 7 }

abbrev sleeper : Task
sleeper = record blank_task { pid = 3; state = 1; counter = 9 }

abbrev tasks : Tasks
tasks = some blank_task ∷ some worker ∷ none ∷ some alarmed ∷ some sleeper ∷ []

-- At tick 8 the alarm wakes its task, and both counters are 0, so all are recharged.
abbrev after : Tasks
after =
    some (record blank_task { counter = 0 })
    ∷ some (record worker { counter = 15 })
    ∷ none
    ∷ some (record alarmed { state = 0; counter = 20; alarm = 0; signal = 2 ^ 13 })
    ∷ some (record sleeper { counter = 19 })
    ∷ []

schedule-run : schedule 8 tasks ≡ some (after, 3)
unfolding schedule set_bit
schedule-run = refl

schedule-Scheduled_example :
    (r : Tasks × ℕ) × (schedule 8 tasks ≡ some r) × Scheduled 8 tasks r.0 r.1
schedule-Scheduled_example =
    schedule-Scheduled 8 tasks (omega arith, (omega arith, (omega arith, tt)))
