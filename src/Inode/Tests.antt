-- ===== src/Inode/Tests.antt =====
-- A file whose block 520 is found through two blocks of block numbers.
use linux_0_11_learning.Base.{ℕ, ◌≡◌, Bool, true, some, [], ◌==◌, if◌then◌else◌, false, arith}
use linux_0_11_learning.Inode.{File, bmap}
use linux_0_11_learning.Inode.Lookup.{way, at, bmap-way}

abbrev file : File
file = record {
  i_zone = λ k. if k == 8 then 100 else 0;
  i_ctime = 0;
  i_dirt = false;
  entry = λ b k. if b == 100 then 200 else if k == 1 then 300 else 0;
  b_dirt = λ b. false;
  free = [];
}

abbrev all_readable : ℕ → Bool
all_readable b = true

bmap-way_example : bmap all_readable 0 520 file ≡ some (at all_readable file (way 520), file)
bmap-way_example = bmap-way all_readable file 0 520 (omega arith)
