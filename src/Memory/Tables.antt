-- ===== src/Memory/Tables.antt =====
-- mm/memory.c: page directory and page tables. An address is a 32-bit number; the masks of the
-- source are written with `/` and `%`.
use linux_0_11_learning.Base.{
  ℕ, zero, suc, ◌+◌, ◌-◌, ◌*◌, ◌/◌, ◌%◌, ◌^◌, Bool, ltb, ◌==◌, ◌||◌, not, if◌then◌else◌,
}
use linux_0_11_learning.Base.Int.{ℤ, pos, negsuc}
use linux_0_11_learning.Memory.{
  M, pure, ◌>>=◌, ◌>>◌, panic, load, store, add_user, low_mem, map_nr, get_free_page, free_page,
}

-- `0xfffff000 & x`
abbrev pub frame_of : ℕ → ℕ
frame_of x = x / 4096 * 4096

-- `1 & x`
abbrev pub is_present : ℕ → Bool
is_present x = x % 2 == 1

-- `x | 7`: present, writable and the user's.
abbrev pub with_flags : ℕ → ℕ
with_flags x = x / 8 * 8 + 7

-- `x & ~2`
abbrev pub write_protect : ℕ → ℕ
write_protect x = if x / 2 % 2 == 1 then x - 2 else x

-- `x | 2`
abbrev pub make_writable : ℕ → ℕ
make_writable x = if x / 2 % 2 == 1 then x else x + 2

-- `(address>>20) & 0xffc`: the address of its directory entry.
abbrev pub dir_entry : ℕ → ℕ
dir_entry address = address / 2 ^ 20 % 4096 / 4 * 4

-- `(address>>10) & 0xffc`: the offset of its entry in a page table.
abbrev pub table_offset : ℕ → ℕ
table_offset address = address / 2 ^ 10 % 4096 / 4 * 4

-- The `for (nr...)` of `free_page_tables`: free what the next `nr` entries map, and clear them.
unfoldable pub free_entries : ℕ → ℕ → M (Unit {0})
free_entries zero pg_table = pure tt
free_entries (suc nr) pg_table = do
  entry ← load pg_table
  if is_present entry then free_page (frame_of entry) else pure tt
  store pg_table 0
  free_entries nr (pg_table + 4)

-- `for ( ; size-->0 ; dir++)`
unfoldable pub free_tables : ℕ → ℕ → M (Unit {0})
unfolding free_entries
free_tables zero dir = pure tt
free_tables (suc size) dir = do
  entry ← load dir
  if is_present entry
      then (do free_entries 1024 (frame_of entry); free_page (frame_of entry); store dir 0)
      else pure tt
  free_tables size (dir + 4)

-- `(size + 0x3fffff) >> 22`, in 32 bits
abbrev pub tables_of : ℕ → ℕ
tables_of size = (size + 0x3fffff) % 2 ^ 32 / 2 ^ 22

unfoldable pub free_page_tables : ℕ → ℕ → M (Unit {0})
unfolding free_tables
free_page_tables from size =
    if not (from % 2 ^ 22 == 0)
    then panic
    else if from == 0
    then panic
    else free_tables (tables_of size) (dir_entry from)

-- The `for ( ; nr-- > 0 ; )` of `copy_page_tables`. An entry above `low_mem` becomes read-only on
-- both sides and its page gets one more user.
unfoldable pub copy_entries : ℕ → ℕ → ℕ → M (Unit {0})
copy_entries zero from_page_table to_page_table = pure tt
copy_entries (suc nr) from_page_table to_page_table = do
  this_page ← load from_page_table
  if is_present this_page
      then (do
        let shared = write_protect this_page
        store to_page_table shared
        if ltb low_mem shared
            then (do store from_page_table shared; add_user (map_nr shared))
            else pure tt)
      else pure tt
  copy_entries nr (from_page_table + 4) (to_page_table + 4)

-- `for( ; size-->0 ; from_dir++,to_dir++)`, with `entries` the number of entries of a table that
-- are copied. The result is the function's: 0, or -1 for no memory.
unfoldable pub copy_tables : ℕ → ℕ → ℕ → ℕ → M ℤ
unfolding copy_entries
copy_tables entries zero from_dir to_dir = pure (pos 0)
copy_tables entries (suc size) from_dir to_dir = do
  to_entry ← load to_dir
  from_entry ← load from_dir
  let rest = copy_tables entries size (from_dir + 4) (to_dir + 4)
  if is_present to_entry then panic else if not (is_present from_entry) then rest else (do
    to_page_table ← get_free_page
    if to_page_table == 0 then pure (negsuc 0) else (do
      store to_dir (with_flags to_page_table)
      copy_entries entries (frame_of from_entry) to_page_table
      rest))

unfoldable pub copy_page_tables : ℕ → ℕ → ℕ → M ℤ
unfolding copy_tables
copy_page_tables from to size =
    if not (from % 2 ^ 22 == 0) || not (to % 2 ^ 22 == 0)
    then panic
    else copy_tables (if from == 0 then 0xA0 else 1024) (tables_of size) (dir_entry from)
        (dir_entry to)

-- The page table of an address, gotten where there is none; 0 for no memory.
unfoldable pub table_for : ℕ → M ℕ
table_for address = do
  entry ← load (dir_entry address)
  if is_present entry then pure (frame_of entry) else (do
    tmp ← get_free_page
    if tmp == 0 then pure 0 else (do store (dir_entry address) (with_flags tmp); pure tmp))

-- `page_table[(address>>12) & 0x3ff]`
abbrev pub table_slot : ℕ → ℕ → ℕ
table_slot page_table address = page_table + address / 2 ^ 12 % 1024 * 4

-- `put_page`; its two warnings change nothing.
unfoldable pub put_page : ℕ → ℕ → M ℕ
unfolding table_for
put_page page address = do
  page_table ← table_for address
  if page_table == 0
      then pure 0
      else (do store (table_slot page_table address) (with_flags page); pure page)
