-- ===== src/FileData/Tests.antt =====
-- A file with a hole, on a device with two free blocks.
use linux_0_11_learning.Base.{ℕ, ◌≡◌, refl, true, false, List, [], ◌∷◌, ◌==◌, if◌then◌else◌, arith}
use linux_0_11_learning.Base.Int.{pos}
use linux_0_11_learning.FileData.{File, file_read, file_write}
use linux_0_11_learning.FileData.Calls.{OpenFile, sys_lseek, sys_read, to_file}
use linux_0_11_learning.FileData.Reading.{ReadBytes, file_read-ReadBytes}
use linux_0_11_learning.FileData.Storing.{IsFile}

abbrev file : File
file = record {
  zone = λ k. if k == 1 then 50 else 0;
  readable = λ b. true;
  byte = λ b k. 7;
  b_dirt = λ b. false;
  free = 60 ∷ 61 ∷ [];
  i_size = 1500;
  i_dirt = false;
  i_atime = 0;
  i_mtime = 0;
  i_ctime = 0;
  f_pos = 1022;
  o_append = false;
}

-- Two zeros of the hole, and a byte of the block behind it.
file_read-run : (file_read 5 3 file).0 ≡ 0 ∷ 0 ∷ 7 ∷ []
unfolding file_read
file_read-run = refl

file_read-ReadBytes_example : ReadBytes 5 3 file (file_read 5 3 file)
file_read-ReadBytes_example = file_read-ReadBytes 5 3 file

file-IsFile : IsFile file
file-IsFile = record {
  distinct = λ i j n e. ground arith;
  fresh =
      (omega arith, λ k. ground arith, (omega arith, tt), (omega arith, λ k. ground arith, tt, tt));
  can_read = λ b. refl;
}

abbrev abc : List ℕ
abc = 97 ∷ 98 ∷ 99 ∷ []

file_write-run : (file_write 5 abc file).0 ≡ pos 3
unfolding file_write
file_write-run = refl

abbrev on_disk : OpenFile
on_disk = record {
  f_mode = 3;
  f_pos = 1490;
  has_inode = true;
  i_dev = 769;
  i_mode = 33188;
  i_size = 1500;
  i_zone0 = 0;
  i_pipe = false;
}

sys_read-run : sys_read on_disk (pos 100) ≡ to_file 10
unfolding sys_read
sys_read-run = refl

sys_lseek-run : (sys_lseek on_disk (pos 4) 2).0 ≡ pos 1504
unfolding sys_lseek
sys_lseek-run = refl
