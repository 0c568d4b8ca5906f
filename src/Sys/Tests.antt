-- ===== src/Sys/Tests.antt =====
-- Runs of the calls on identity, groups and the break.
use linux_0_11_learning.Base.{◌≡◌, ◌⊎◌, some, [], ◌∷◌, arith}
use linux_0_11_learning.Base.Int.{pos}
use linux_0_11_learning.Task.{Task, Tasks, blank_task}
use linux_0_11_learning.Sys.{eperm, sys_setreuid}
use linux_0_11_learning.Sys.Identity.{IdsFit, sys_setreuid-no_gain}

-- A task of user 10 that runs a program of user 20.
abbrev user : Task
user = record blank_task {
  pid = 5;
  uid = 10;
  euid = 20;
  gid = 30;
  egid = 40;
  sgid = 50;
  session = 2;
  start_stack = 0x4000000;
  end_code = 0x1000;
}

user-IdsFit : IdsFit user
user-IdsFit = omega arith

-- The ids are swapped.
sys_setreuid-no_gain_example :
    let (r, q) = sys_setreuid (pos 20) (pos 10) user in
    ((q.uid ≡ user.uid) ⊎ (q.uid ≡ user.euid))
    × ((q.euid ≡ user.uid) ⊎ (q.euid ≡ user.euid))
    × (r ≡ eperm → (q.uid ≡ user.uid) × (q.euid ≡ user.euid))
sys_setreuid-no_gain_example = sys_setreuid-no_gain (pos 20) (pos 10) user user-IdsFit (omega arith)

abbrev child : Task
child = record user { pid = 6 }

abbrev family : Tasks
family = some blank_task ∷ some user ∷ some child ∷ []
