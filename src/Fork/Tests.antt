-- ===== src/Fork/Tests.antt =====
-- A new process.
use linux_0_11_learning.Base.{ℕ, ◌^◌, ◌≤◌, ◌<◌, ◌≡◌, refl, none, some, [], ◌∷◌, true, false, arith}
use linux_0_11_learning.Base.Int.{ℤ, pos}
use linux_0_11_learning.Task.{Task, Tasks, blank_task}
use linux_0_11_learning.Fork.{pid_used, find_empty_process, Counts, copy_process}
use linux_0_11_learning.Fork.Pid.{Slot, find_empty_process-Slot}
use linux_0_11_learning.Fork.Child.{Forked, copy_process-Forked}

abbrev caller : Task
caller = record blank_task {
  pid = 1;
  filp = some 3 ∷ none ∷ some 3 ∷ [];
  pwd = some 7;
  root = some 7;
}

-- The last process id is the greatest: 1 comes next, which the caller has.
abbrev tasks : Tasks
tasks = some blank_task ∷ some caller ∷ none ∷ []

find_empty_process-run : find_empty_process 65 0x7fffffff tasks ≡ some (2, pos 2)
unfolding find_empty_process
find_empty_process-run = refl

find_empty_process-Slot_example :
    (r : ℕ × ℤ) × (find_empty_process 65 0x7fffffff tasks ≡ some r)
    × (1 ≤ r.0)
    × (r.0 < 2 ^ 31)
    × (pid_used r.0 tasks ≡ false)
    × Slot tasks r.1
find_empty_process-Slot_example =
    find_empty_process-Slot 0x7fffffff (some blank_task) (some caller ∷ none ∷ []) (omega arith)
      (omega arith)

abbrev counts : Counts
counts = record { f_count = λ f. 2; i_count = λ i. 2 }

copy_process-Forked_example :
    let (r, ts', counts') = copy_process true true 2 2 500 caller tasks counts in
    Forked 2 2 caller tasks counts r ts' counts'
copy_process-Forked_example =
    copy_process-Forked true true 2 2 500 caller tasks counts (omega arith) refl
