-- ===== src/Memory/Fault.antt =====
-- mm/memory.c: what a page fault does: copy on write, new pages, and shared program pages.
use linux_0_11_learning.Base.{
  ℕ, ◌+◌, ◌-◌, ◌/◌, ◌%◌, Bool, true, false, Option, none, some, List, [], ◌∷◌, ltb, leb, ◌==◌, ◌&&◌,
  ◌||◌, not, if◌then◌else◌,
}
use linux_0_11_learning.Memory.{
  Mem, M, ok, pure, ◌>>=◌, ◌>>◌, panic, oom, load, store, add_user, drop_user, low_mem, map_nr,
  in_page, get_free_page, free_page,
}
use linux_0_11_learning.Memory.Tables.{
  frame_of, is_present, with_flags, write_protect, make_writable, dir_entry, table_offset, put_page,
}

-- `copy_page(from,to)`
abbrev pub copy_page : ℕ → ℕ → M (Unit {0})
copy_page from to m =
    ok tt (record m { word = λ a. if in_page to a then m.word (from + (a - to)) else m.word a })

-- `un_wp_page`, on the address of the page table entry.
unfoldable pub un_wp_page : ℕ → M (Unit {0})
un_wp_page table_entry m =
    let entry = m.word table_entry in
    let old_page = frame_of entry in
    (if leb low_mem old_page && m.mem_map (map_nr old_page) == 1
        then store table_entry (make_writable entry)
        else (do
          new_page ← get_free_page
          if new_page == 0 then oom else (do
            if leb low_mem old_page then drop_user (map_nr old_page) else pure tt
            store table_entry (with_flags new_page)
            copy_page old_page new_page)))
      m

-- The address of the page table entry of `address`.
unfoldable pub do_wp_page : ℕ → M (Unit {0})
unfolding un_wp_page
do_wp_page address = do
  entry ← load (dir_entry address)
  un_wp_page (table_offset address + frame_of entry)

unfoldable pub write_verify : ℕ → M (Unit {0})
unfolding un_wp_page
write_verify address = do
  dir ← load (dir_entry address)
  if not (is_present dir) then pure tt else (do
    page ← load (frame_of dir + table_offset address)
    if page % 4 == 1 then un_wp_page (frame_of dir + table_offset address) else pure tt)

unfoldable pub get_empty_page : ℕ → M (Unit {0})
unfolding put_page
get_empty_page address = do
  tmp ← get_free_page
  if tmp == 0
      then free_page tmp >> oom
      else (do put ← put_page tmp address; if put == 0 then free_page tmp >> oom else pure tt)

abbrev get_mem : M Mem
get_mem m = ok m m

-- What the sharing of pages reads of a task.
pub record Program : Type 0 where
  pub start_code : ℕ
  pub executable : Option ℕ

abbrev pub same_program : Option ℕ → Option ℕ → Bool
same_program none none = true
same_program (some a) (some b) = a == b
same_program _ _ = false

-- `(phys_addr & 0x41) == 0x01`: present, and not dirty.
abbrev pub is_clean : ℕ → Bool
is_clean x = x % 2 == 1 && x / 64 % 2 == 0

-- `try_to_share`, the result 1 or 0. As in this tree's source, `from_page` stays the address of the
-- directory entry: the step to the page table entry is not there.
unfoldable pub try_to_share : ℕ → (p current : Program) → M ℕ
try_to_share address p current = do
  let from_page = dir_entry address + dir_entry p.start_code
  let to_dir = dir_entry address + dir_entry current.start_code
  from ← load from_page
  phys_addr ← load from_page
  m ← get_mem
  if not (is_present from)
      then pure 0
      else if not (is_clean phys_addr)
      then pure 0
      else if leb m.high_memory (frame_of phys_addr) || ltb (frame_of phys_addr) low_mem
      then pure 0
      else (do
        to ← load to_dir
        table ←
            (if is_present to then pure (frame_of to) else (do
              new ← get_free_page
              if new == 0 then oom else (do store to_dir (with_flags new); pure (frame_of new))))
        let to_page = table + table_offset address
        there ← load to_page
        if is_present there then panic else (do
          shared ← load from_page
          store from_page (write_protect shared)
          protected ← load from_page
          store to_page protected
          add_user (map_nr (frame_of phys_addr))
          pure 1))

-- The loop of `share_page` over the other tasks, from the last slot down: `ps` in that order.
-- `current` is not among them; a task of another program is passed over.
unfoldable pub share_with : ℕ → Program → List (Option Program) → M ℕ
unfolding try_to_share
share_with address current [] = pure 0
share_with address current (none ∷ ps) = share_with address current ps
share_with address current (some p ∷ ps) = do
  let rest = share_with address current ps
  if not (same_program p.executable current.executable)
      then rest
      else (do shared ← try_to_share address p current; if shared == 0 then rest else pure 1)

-- `share_page`; `i_count` is the use count of the program's inode.
unfoldable pub share_page : (ℕ → ℕ) → ℕ → Program → List (Option Program) → M ℕ
unfolding share_with
share_page i_count address current ps = elim current.executable [
  | none ↦ pure 0
  | some e ↦ if ltb (i_count e) 2 then pure 0 else share_with address current ps
]
