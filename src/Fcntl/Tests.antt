-- ===== src/Fcntl/Tests.antt =====
-- Descriptors that are copied and closed.
use linux_0_11_learning.Base.{refl, none, some, ◌∷◌, replicate}
use linux_0_11_learning.Task.{blank_task}
use linux_0_11_learning.Fcntl.{Files, dupfd}
use linux_0_11_learning.Fcntl.Dup.{Dup, dupfd-Dup}

abbrev files : Files
files = record {
  current = record blank_task {
    filp = some 5 ∷ some 5 ∷ some 5 ∷ none ∷ some 6 ∷ replicate 15 none;
    close_on_exec = 8;
  };
  file = λ f. record { f_flags = 2; f_count = 3; f_inode = f };
}

dupfd-Dup_example : let (r, s') = dupfd 4 1 files in Dup 4 1 files r s'
dupfd-Dup_example = dupfd-Dup 4 1 files refl
