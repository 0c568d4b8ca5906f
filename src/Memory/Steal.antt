-- ===== src/Memory/Steal.antt =====
-- `try_to_share` of this tree: the page that it shares.
use linux_0_11_learning.Base.{ℕ, ◌+◌, ◌%◌, ◌≤◌, ◌<◌, ◌≡◌, true, false, arith, ltb, leb, ◌||◌}
use linux_0_11_learning.Memory.{Mem, ok, low_mem, map_nr, update, ◌>>=◌}
use linux_0_11_learning.Memory.Tables.{is_present, write_protect, frame_of, dir_entry, table_offset}
use linux_0_11_learning.Memory.Fault.{Program, try_to_share, is_clean}

-- The directory entries that stand for `address` in the two tasks.
module _ (address : ℕ) (p current : Program) (m : Mem) where
  abbrev pub from_dir : ℕ
  from_dir = dir_entry address + dir_entry p.start_code

  abbrev pub to_dir : ℕ
  to_dir = dir_entry address + dir_entry current.start_code

  -- The entry of `address` in the page table of the current task.
  abbrev pub to_entry : ℕ
  to_entry = frame_of (m.word to_dir) + table_offset address

  -- Where both tasks have a page table, the current task's entry is free, and the page table of
  -- `p` is clean and in main memory, `try_to_share` succeeds, and what it maps at `address` for
  -- the current task is the page table of `p` itself, whatever page `p` has at that address.
  pub try_to_share-page_table :
      is_clean (m.word from_dir) ≡ true
      → low_mem ≤ frame_of (m.word from_dir)
      → frame_of (m.word from_dir) < m.high_memory
      → is_present (m.word to_dir) ≡ true
      → is_present (m.word to_entry) ≡ false
      → (m' : Mem) × (try_to_share address p current m ≡ ok 1 m')
        × (frame_of (m'.word to_entry) ≡ frame_of (m.word from_dir))
        × (m'.mem_map (map_nr (frame_of (m.word from_dir)))
            ≡ (m.mem_map (map_nr (frame_of (m.word from_dir))) + 1) % 256)
  unfolding try_to_share
  try_to_share-page_table clean low high there free =
      let present : is_present (m.word from_dir) ≡ true = ground arith in
      let range : (leb m.high_memory (frame_of (m.word from_dir))
            || ltb (frame_of (m.word from_dir)) low_mem)
          ≡ false =
        ground arith in
      let x = m.word from_dir in
      (
        record m {
          word =
              update (update m.word from_dir (write_protect x)) to_entry
                (update m.word from_dir (write_protect x) from_dir);
          mem_map =
              update m.mem_map (map_nr (frame_of x)) ((m.mem_map (map_nr (frame_of x)) + 1) % 256);
        },
        rw (◌>>=◌, clean, present, range, there, free),
        ground arith,
        ground arith,
      )
