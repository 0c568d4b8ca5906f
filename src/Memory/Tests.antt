-- ===== src/Memory/Tests.antt =====
-- Runs of the memory functions.
use linux_0_11_learning.Base.{
  ℕ, ◌+◌, ◌*◌, ◌<◌, ◌≡◌, ◌≢◌, ◌⊎◌, inl, inr, refl, some, arith, ◌==◌, if◌then◌else◌,
}
use linux_0_11_learning.Memory.{Mem, ok, low_mem, paging_pages, in_page, get_free_page}
use linux_0_11_learning.Memory.Pages.{Gotten, get_free_page-Gotten}
use linux_0_11_learning.Memory.Tables.{copy_entries}
use linux_0_11_learning.Memory.Fault.{Program, un_wp_page}
use linux_0_11_learning.Memory.Map.{Unshared, un_wp_page-Unshared}
use linux_0_11_learning.Memory.Share.{Shared, copy_entries-Shared}

-- 16 MB with one free page, the last but one of the table. The entry at 0x5000 maps the first page
-- above `low_mem`, which has two users.
abbrev word : ℕ → ℕ
word a = if a == 0x5000 then low_mem + 5 else 0

abbrev memory : Mem
memory = record { word = word; mem_map = λ i. if i == 3838 then 0 else 2; high_memory = 0x1000000 }

get_free_page-Gotten_example :
    ((page : ℕ) × (m' : Mem) × (get_free_page memory ≡ ok page m') × Gotten memory page m')
    ⊎ ((get_free_page memory ≡ ok 0 memory) × ((j : ℕ) → j < paging_pages → memory.mem_map j ≢ 0))
get_free_page-Gotten_example = get_free_page-Gotten memory

abbrev page : ℕ
page = low_mem + 4096 * 3838

abbrev after : Mem
after = record {
  word = λ a. if in_page page a then 0 else word a;
  mem_map = λ i. if 3838 == i then 1 else memory.mem_map i;
  high_memory = 0x1000000;
}

page-Gotten : Gotten memory page after
page-Gotten = record {
  index = 3838;
  address = refl;
  in_table = omega arith;
  was_free = refl;
  last = λ j lo hi. ground arith;
  counted = refl;
  cleared = refl;
  same_end = refl;
}

un_wp_page-Unshared_example : Unshared memory 0x5000 (un_wp_page 0x5000 memory)
un_wp_page-Unshared_example =
    un_wp_page-Unshared memory 0x5000 refl (inl (omega arith)) (inr (omega arith))

copy_entries-Shared_example :
    (m' : Mem) × (copy_entries 1024 0x5000 0x6000 memory ≡ ok tt m')
    × Shared 1024 0x5000 0x6000 memory m'
copy_entries-Shared_example = copy_entries-Shared 1024 0x5000 0x6000 memory (inl (omega arith))

-- Two tasks at 64 MB and 128 MB, whose directory entries at 64 and 128 map page tables.
abbrev first : Program
first = record { start_code = 0x4000000; executable = some 1 }

abbrev second : Program
second = record { start_code = 0x8000000; executable = some 1 }

abbrev tables : Mem
tables = record memory {
  word = λ a. if a == 64 then 0x200007 else if a == 128 then 0x300007 else 0;
}
