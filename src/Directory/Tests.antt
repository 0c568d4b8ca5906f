-- ===== src/Directory/Tests.antt =====
-- A directory of 66 entries whose second block has the name.
use linux_0_11_learning.Base.{
  ◌/◌, ℕ, ◌≡◌, refl, true, false, none, some, count, arith, Option, List, [], ◌∷◌, ◌==◌, ◌&&◌,
  if◌then◌else◌,
}
use linux_0_11_learning.Directory.{Entry, Directory, Found, search}
use linux_0_11_learning.Directory.Adding.{
  Growing, add_entry, add_loop, at_slot, grow, create_block, got_block,
}
use linux_0_11_learning.Directory.Added.{IsGrowing}
use linux_0_11_learning.Directory.Emptying.{EmptyOut, empty_dir, empty_dir-EmptyOut}

abbrev no_entry : Entry
no_entry = record { inode = 0; name = [] }

abbrev usr : List ℕ
usr = 117 ∷ 115 ∷ 114 ∷ []

abbrev root : Directory
root = record {
  i_size = 1056;
  zone = λ k. if k == 0 then 30 else if k == 1 then 31 else 0;
  readable = λ b. true;
  entry = λ b k.
      if b == 31 && k == 1 then record { inode = 9; name = 117 ∷ 115 ∷ 114 ∷ 0 ∷ [] } else no_entry;
}

search-run : search root usr ≡ some (record { block = 31; at = 1 })
unfolding search
search-run = refl

-- A directory whose one block is full, and a block that is free.
abbrev full_root : Growing
full_root = record {
  dir = record {
    i_size = 1024;
    zone = λ k. if k == 0 then 30 else 0;
    readable = λ b. true;
    entry = λ b k. record { inode = 5; name = 46 ∷ 0 ∷ [] };
  };
  free = 40 ∷ [];
  b_dirt = λ b. false;
  i_dirt = false;
  i_mtime = 0;
  i_ctime = 0;
}

abbrev added_usr : Option Found × Growing
added_usr = add_entry 7 usr full_root

-- The slot is the first of the new block.
added_usr-run : added_usr.0 ≡ some (record { block = 40; at = 0 })
unfolding add_entry add_loop at_slot grow create_block got_block
added_usr-run = refl

usr-new : search full_root.dir usr ≡ none
unfolding search
usr-new = refl

full_root-IsGrowing : IsGrowing full_root
unfolding count
full_root-IsGrowing = record {
  apart = λ a b there e. ground arith;
  fresh = λ z there. let e : z ≡ 40 = ground arith in (ground arith, refl, λ b. ground arith);
  whole = refl;
  no_more = λ b le. let later : (b == 0) ≡ false = ground arith in rw later refl;
}

-- A directory with its two entries, and a slot of a file that is gone.
abbrev lone : Directory
lone = record {
  i_size = 48;
  zone = λ k. if k == 0 then 30 else 0;
  readable = λ b. true;
  entry = λ b k.
      if k == 0
      then record { inode = 8; name = 46 ∷ 0 ∷ [] }
      else if k == 1
      then record { inode = 1; name = 46 ∷ 46 ∷ 0 ∷ [] }
      else record { inode = 0; name = 97 ∷ 0 ∷ [] };
}

lone-run : empty_dir 8 lone ≡ true
unfolding empty_dir
lone-run = refl

root-run : empty_dir 8 root ≡ false
unfolding empty_dir
root-run = refl

empty_dir-EmptyOut_example : EmptyOut 8 lone (empty_dir 8 lone)
empty_dir-EmptyOut_example =
    empty_dir-EmptyOut 8 lone (λ k lt. let e : k / 64 ≡ 0 = omega arith in λ z. ground arith)
