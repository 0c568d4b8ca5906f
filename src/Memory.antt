-- ===== src/Memory.antt =====
-- mm/memory.c: the physical pages and their use counts, `get_free_page`, `free_page`, `mem_init`
-- and `calc_mem`. `Tables` has the functions on page tables, `Fault` those of the page faults.
pub mod Tables
pub mod Fault
pub mod Pages
pub mod Map
pub mod Share
pub mod Steal
mod Tests
use linux_0_11_learning.Base.{
  ℕ, zero, suc, ◌+◌, ◌-◌, ◌*◌, ◌/◌, ◌%◌, ◌^◌, Bool, true, false, Option, none, some, ltb, leb, ◌==◌,
  ◌&&◌, if◌then◌else◌,
}

abbrev pub low_mem : ℕ
low_mem = 0x100000

abbrev pub paging_pages : ℕ
paging_pages = 15 * 1024 * 1024 / 4096

abbrev pub used : ℕ
used = 100

-- `MAP_NR(addr)`, for an address above `low_mem`
abbrev pub map_nr : ℕ → ℕ
map_nr addr = (addr - low_mem) / 4096

-- Physical memory: the 32-bit word at each address, the use count of each page above `low_mem`,
-- and the end of memory. The page directory stands at address 0.
pub record Mem : Type 0 where
  pub word : ℕ → ℕ
  pub mem_map : ℕ → ℕ
  pub high_memory : ℕ

-- A call returns, panics, or ends the current process (`do_exit(SIGSEGV)` from `oom`).
pub data Run (A : Type 0) : Type 0 where
  ok : A → Mem → Run A
  panicked : Run A
  exited : Mem → Run A

abbrev pub M : Type 0 → Type 0
M A = Mem → Run A

abbrev pub pure : {A : Type 0} → A → M A
pure a m = ok a m

infixl 5 ◌>>=◌ ◌>>◌
abbrev pub ◌>>=◌ : {A B : Type 0} → M A → (A → M B) → M B
◌>>=◌ c k m = elim (c m) [ ok a m' ↦ k a m' | panicked ↦ panicked | exited m' ↦ exited m' ]

abbrev pub ◌>>◌ : {B : Type 0} → M (Unit {0}) → M B → M B
c >> k = c >>= λ _. k

abbrev pub panic : {A : Type 0} → M A
panic m = panicked

abbrev pub oom : {A : Type 0} → M A
oom m = exited m

abbrev pub update : (ℕ → ℕ) → ℕ → ℕ → ℕ → ℕ
update f a v b = if a == b then v else f b

abbrev pub load : ℕ → M ℕ
load a m = ok (m.word a) m

abbrev pub store : ℕ → ℕ → M (Unit {0})
store a v m = ok tt (record m { word = update m.word a v })

-- `mem_map[i]++`, a byte
abbrev pub add_user : ℕ → M (Unit {0})
add_user i m = ok tt (record m { mem_map = update m.mem_map i ((m.mem_map i + 1) % 256) })

-- `mem_map[i]--`, where the count is not 0.
abbrev pub drop_user : ℕ → M (Unit {0})
drop_user i m = ok tt (record m { mem_map = update m.mem_map i (m.mem_map i - 1) })

-- The address lies in the page at `page`.
abbrev pub in_page : ℕ → ℕ → Bool
in_page page a = leb page a && ltb a (page + 4096)

abbrev pub clear_words : ℕ → (ℕ → ℕ) → ℕ → ℕ
clear_words page f a = if in_page page a then 0 else f a

-- `repne scasb` downwards: the greatest index below `n` whose count is 0.
unfoldable pub find_free : ℕ → (ℕ → ℕ) → Option ℕ
find_free zero map = none
find_free (suc n) map = let rest = find_free n map in if map n == 0 then some n else rest

-- The last free page, counted once and cleared; 0 where there is none.
unfoldable pub get_free_page : M ℕ
unfolding find_free
get_free_page m = elim (find_free paging_pages m.mem_map) [
  | none ↦ ok 0 m
  | some n ↦
      let page = low_mem + 4096 * n in
      ok page (record m { mem_map = update m.mem_map n 1; word = clear_words page m.word })
]

unfoldable pub free_page : ℕ → M (Unit {0})
free_page addr m =
    let n = map_nr addr in
    if ltb addr low_mem
    then ok tt m
    else if leb m.high_memory addr
    then panicked
    else if m.mem_map n == 0
    then panicked
    else drop_user n m

-- `while (end_mem-->0) mem_map[i++]=0;`
unfoldable pub clear_map : ℕ → ℕ → (ℕ → ℕ) → ℕ → ℕ
clear_map zero i map = map
clear_map (suc n) i map = clear_map n (i + 1) (update map i 0)

unfoldable pub mem_init : ℕ → ℕ → Mem → Mem
unfolding clear_map
mem_init start_mem end_mem m = record m {
  high_memory = end_mem;
  mem_map =
      clear_map ((end_mem - start_mem) / 4096) (map_nr start_mem)
        (λ i. if ltb i paging_pages then used else m.mem_map i);
}

-- The count of free pages that `calc_mem` prints first.
unfoldable pub count_free : ℕ → (ℕ → ℕ) → ℕ
count_free zero map = 0
count_free (suc n) map = count_free n map + (if map n == 0 then 1 else 0)

-- The pages present in the page table at `table`, of its first `n` entries.
unfoldable pub count_present : ℕ → ℕ → (ℕ → ℕ) → ℕ
count_present zero table word = 0
count_present (suc n) table word =
    count_present n table word + (if word (table + 4 * n) % 2 == 1 then 1 else 0)
