-- ===== src/Inodes/Tests.antt =====
-- A table with an unused inode that is dirty, and one that is ready.
use linux_0_11_learning.Base.{◌≡◌, refl, true, false, ◌==◌, if◌then◌else◌, arith, some}
use linux_0_11_learning.Inodes.{Inode, Table, look, nr_inode, get_empty_inode}
use linux_0_11_learning.Inodes.Empty.{EmptyOut, get_empty_inode-EmptyOut}

abbrev in_use : Inode
in_use = record {
  i_dev = 1;
  i_num = 2;
  i_count = 1;
  i_lock = false;
  i_dirt = false;
  i_pipe = false;
  i_mount = false;
}

abbrev table : Table
table = record {
  inode_table = λ k.
      if k == 3
      then record in_use { i_count = 0 }
      else if k == 31
      then record in_use { i_count = 0; i_dirt = true }
      else in_use;
  last_inode = 30;
}

-- The search passes the dirty one and goes on from the start of the table.
table-run : (look nr_inode 30 (some 0) table.inode_table).1 ≡ 3
unfolding look
table-run = refl

get_empty_inode-EmptyOut_example : EmptyOut table (get_empty_inode table)
get_empty_inode-EmptyOut_example = get_empty_inode-EmptyOut table (omega arith)
