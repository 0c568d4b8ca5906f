-- ===== src/Exit/Tests.antt =====
-- A task that ends, and its father.
use linux_0_11_learning.Base.{some, [], ◌∷◌, true}
use linux_0_11_learning.Task.{Task, Tasks, blank_task}

abbrev init : Task
init = record blank_task { pid = 1; pgrp = 1 }

abbrev shell : Task
shell = record blank_task { pid = 4; father = 1; pgrp = 4; leader = true; session = 4 }

abbrev job : Task
job = record blank_task {
  pid = 5;
  father = 4;
  pgrp = 4;
  session = 4;
  state = 3;
  exit_code = 256;
  utime = 7;
}

abbrev tasks : Tasks
tasks = some blank_task ∷ some init ∷ some shell ∷ some job ∷ []
