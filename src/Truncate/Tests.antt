-- ===== src/Truncate/Tests.antt =====
-- A file with a block of its own and one that is found through a block of block numbers.
use linux_0_11_learning.Base.{ℕ, ◌≡◌, refl, Bool, true, false, [], ◌∷◌, ◌==◌, ◌&&◌, if◌then◌else◌}
use linux_0_11_learning.Truncate.{Node, free_direct, truncate, entries_loop}
use linux_0_11_learning.Truncate.Freed.{TruncateOut, truncate-TruncateOut}

abbrev file : Node
file = record {
  i_mode = 0x8000;
  i_size = 9000;
  i_mtime = 0;
  file = record {
    i_zone = λ k. if k == 0 then 50 else if k == 7 then 60 else 0;
    i_ctime = 0;
    i_dirt = false;
    entry = λ b k. if b == 60 && k == 1 then 70 else 0;
    b_dirt = λ b. false;
    free = [];
  };
}

abbrev all_readable : ℕ → Bool
all_readable b = true

-- The first entries of the block of block numbers.
file_entries : entries_loop all_readable file.file.entry (λ z. z ∷ []) 60 0 3 ≡ 70 ∷ []
unfolding entries_loop
file_entries = refl

file_direct : (free_direct 0 7 file.file.i_zone).0 ≡ 50 ∷ []
unfolding free_direct
file_direct = refl

truncate-TruncateOut_example : TruncateOut all_readable 5 file (truncate all_readable 5 file)
truncate-TruncateOut_example = truncate-TruncateOut all_readable 5 file
