-- ===== src/Kill/Tests.antt =====
-- Runs of `kill`.
use linux_0_11_learning.Base.{◌≡◌, some, [], ◌∷◌}
use linux_0_11_learning.Base.Int.{pos, negsuc}
use linux_0_11_learning.Task.{Task, Tasks, task_at, blank_task}
use linux_0_11_learning.Kill.{sys_kill}
use linux_0_11_learning.Kill.Permission.{reaches, Signalled, sys_kill-Signalled}
use linux_0_11_learning.Kill.Targets.{sys_kill-group}

-- Two tasks of user 10 and one of user 20.
abbrev mine : Task
mine = record blank_task { pid = 4; pgrp = 4; uid = 10; euid = 10 }

abbrev mine_too : Task
mine_too = record blank_task { pid = 5; pgrp = 4; uid = 10; euid = 10 }

abbrev other : Task
other = record blank_task { pid = 6; pgrp = 6; uid = 20; euid = 20 }

abbrev slots : Tasks
slots = some mine ∷ some other ∷ some mine_too ∷ []

sys_kill-Signalled_example :
    Signalled
      (reaches (pos 6) mine)
      (pos 9)
      (task_at (some blank_task ∷ slots) 2)
      (task_at (sys_kill (pos 6) (pos 9) mine (some blank_task ∷ slots)).1 2)
sys_kill-Signalled_example = sys_kill-Signalled (pos 9) mine (pos 6) (some blank_task ∷ slots) 2

-- `kill(-4, 9)`
sys_kill-group_example : sys_kill (negsuc 3) (pos 9) mine slots ≡ (pos 0, slots)
sys_kill-group_example = sys_kill-group 2 (pos 9) mine slots
