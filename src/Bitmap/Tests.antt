-- ===== src/Bitmap/Tests.antt =====
-- Runs of the block allocator.
use linux_0_11_learning.Base.{
  ℕ, zero, suc, ◌^◌, ◌<◌, refl, true, false, none, some, List, [], ◌∷◌, replicate, arith,
  if◌then◌else◌, ◌==◌,
}
use linux_0_11_learning.Bitmap.{Super, Device, new_block}
use linux_0_11_learning.Bitmap.Words.{AllWords}
use linux_0_11_learning.Bitmap.Search.{AllMaps}
use linux_0_11_learning.Bitmap.Blocks.{NewBlock, new_block-NewBlock}
use linux_0_11_learning.Bitmap.Inodes.{Inodes, new_inode, NewInode, new_inode-NewInode}

AllWords-replicate : (n w : ℕ) → w < 2 ^ 32 → AllWords (replicate n w)
AllWords-replicate zero w h = tt
AllWords-replicate (suc n) w h = (h, AllWords-replicate n w h)

-- The first five zones are taken.
abbrev words : List ℕ
words = 31 ∷ replicate 255 0

words-AllWords : AllWords words
words-AllWords = (omega arith, AllWords-replicate 255 0 (omega arith))

abbrev super : Super
super = record {
  s_nzones = 2000;
  s_firstdatazone = 20;
  s_zmap = some (record { words = words; b_dirt = false }) ∷ none ∷ [];
}

abbrev device : Device
device = record {
  super = some super;
  buffers = λ b.
      if b == 22
      then some (record { b_count = 0; b_uptodate = true; b_dirt = true; b_data = [] })
      else none;
}

device-AllMaps : AllMaps super.s_zmap
device-AllMaps = ((words-AllWords, refl), (tt, tt))

new_block-NewBlock_example : NewBlock super device (new_block (λ b. b) device)
new_block-NewBlock_example = new_block-NewBlock (λ b. b) device refl device-AllMaps

abbrev inodes : Inodes
inodes = record { s_ninodes = 300; s_imap = super.s_zmap }

new_inode-NewInode_example :
    NewInode inodes 0x301 10 20 (new_inode true 0x301 10 20 99 (some inodes))
new_inode-NewInode_example = new_inode-NewInode 0x301 10 20 99 inodes device-AllMaps
