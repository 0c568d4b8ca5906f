-- ===== src/Memory/Pages.antt =====
-- `get_free_page`, `free_page` and `mem_init` against the use counts.
use mathlib.Core.Path.{fun_ext}
use linux_0_11_learning.Base.{
  ℕ, zero, suc, ◌+◌, ◌-◌, ◌*◌, ◌/◌, ◌%◌, ◌≤◌, ◌<◌, ◌≡◌, ◌≢◌, refl, sym, ap, ◌∙◌, ◌⊎◌, ◌↔◌, inl, inr,
  none, some, false, arith, ltb, leb, ◌==◌, ◌&&◌, if◌then◌else◌, Bool-cases, Option-cases,
}
use linux_0_11_learning.Memory.{
  Mem, ok, panicked, low_mem, paging_pages, map_nr, used, update, in_page, clear_words, find_free,
  get_free_page, free_page, clear_map, mem_init, count_free,
}

-- The greatest index below `n` with the count 0.
record LastFree (n : ℕ) (map : ℕ → ℕ) (i : ℕ) : Type 0 where
  below : i < n
  free : map i ≡ 0
  last : (j : ℕ) → i < j → j < n → map j ≢ 0

find_free-LastFree : (n : ℕ) (map : ℕ → ℕ) (i : ℕ) → find_free n map ≡ some i → LastFree n map i
unfolding find_free
find_free-LastFree zero map i e = cc
find_free-LastFree (suc n) map i e = elim (Bool-cases (map n == 0)) [
  | inl zero' ↦
      let same : n ≡ i = ground arith in
      record { below = omega arith; free = ground arith; last = λ j lo hi. absurd (omega arith) }
  | inr other ↦
      let ih = find_free-LastFree n map i (ground arith) in
      record {
        below = omega (arith, ih.below);
        free = ih.free;
        last = λ j lo hi. elim (Bool-cases (j == n)) [
          | inl top ↦ ground arith
          | inr under ↦ ih.last j lo (ground arith)
        ];
      }
]

find_free-none : (n : ℕ) (map : ℕ → ℕ) (j : ℕ) → find_free n map ≡ none → j < n → map j ≢ 0
unfolding find_free
find_free-none zero map j e h = absurd (omega arith)
find_free-none (suc n) map j e h = elim (Bool-cases (map n == 0)) [
  | inl zero' ↦ absurd (ground arith)
  | inr other ↦ elim (Bool-cases (j == n)) [
    | inl top ↦ ground arith
    | inr under ↦ find_free-none n map j (ground arith) (ground arith)
  ]
]

-- What a page gotten from `m` is.
pub record Gotten (m : Mem) (page : ℕ) (m' : Mem) : Type 0 where
  pub index : ℕ
  pub address : page ≡ low_mem + 4096 * index
  pub in_table : index < paging_pages
  pub was_free : m.mem_map index ≡ 0
  pub last : (j : ℕ) → index < j → j < paging_pages → m.mem_map j ≢ 0
  pub counted : m'.mem_map ≡ update m.mem_map index 1
  pub cleared : m'.word ≡ clear_words page m.word
  pub same_end : m'.high_memory ≡ m.high_memory

-- `get_free_page` returns the last page of the table that nobody uses, counted once and full of
-- zeros, with every other count and word as it was; or 0 with nothing changed, and then every page
-- of the table is in use.
pub get_free_page-Gotten :
    (m : Mem)
    → ((page : ℕ) × (m' : Mem) × (get_free_page m ≡ ok page m') × Gotten m page m')
      ⊎ ((get_free_page m ≡ ok 0 m) × ((j : ℕ) → j < paging_pages → m.mem_map j ≢ 0))
unfolding get_free_page
get_free_page-Gotten m = elim (Option-cases (find_free paging_pages m.mem_map)) [
  | inl full ↦ inr (rw (full, get_free_page), λ j h. find_free-none paging_pages m.mem_map j full h)
  | inr (i, found) ↦
      let lf = find_free-LastFree paging_pages m.mem_map i found in
      inl (
        low_mem + 4096 * i,
        record m { mem_map = update m.mem_map i 1; word = clear_words (low_mem + 4096 * i) m.word },
        rw (found, get_free_page),
        record {
          index = i;
          address = refl;
          in_table = lf.below;
          was_free = lf.free;
          last = lf.last;
          counted = refl;
          cleared = refl;
          same_end = refl;
        },
      )
]

map_nr-page : (i : ℕ) → map_nr (low_mem + 4096 * i) ≡ i
map_nr-page i = omega arith

update-update_back : (f : ℕ → ℕ) (i v w : ℕ) → f i ≡ w → update (update f i v) i w ≡ f
update-update_back f i v w e = fun_ext λ j. elim (Bool-cases (i == j)) [
  | inl same ↦ rw same (sym e ∙ ap f (ground arith))
  | inr other ↦ rw other
]

-- A page that was just gotten can be freed once, which gives back the use counts of before, and
-- not a second time.
pub free_page-get_free_page :
    (m : Mem) {page : ℕ} {m' : Mem}
    → Gotten m page m'
    → page < m.high_memory
    → (m'' : Mem) × (free_page page m' ≡ ok tt m'')
      × (m''.mem_map ≡ m.mem_map)
      × (free_page page m'' ≡ panicked)
unfolding free_page
free_page-get_free_page m {page} {m'} g h =
    let n : map_nr page ≡ g.index = ap map_nr g.address ∙ map_nr-page g.index in
    let low : ltb page low_mem ≡ false = let e = g.address in ground arith in
    let high : leb m'.high_memory page ≡ false = let e = g.same_end in ground arith in
    let one : m'.mem_map (map_nr page) ≡ 1 =
      ap m'.mem_map n ∙ ap (λ f. f g.index) g.counted ∙ ground arith in
    let back : update m'.mem_map (map_nr page) 0 ≡ m.mem_map =
      rw (n, g.counted) (update-update_back m.mem_map g.index 1 0 g.was_free) in
    let m'' : Mem = record m' { mem_map = update m'.mem_map (map_nr page) 0 } in
    let none_left : m''.mem_map (map_nr page) ≡ 0 =
      ap m''.mem_map n ∙ ap (λ f. f g.index) back ∙ g.was_free in
    (m'', rw (low, high, one), back, rw (low, high, none_left))

-- Counting is by index, so a change at one index shows there only.
count_free-update_out :
    (n : ℕ) (map : ℕ → ℕ) (i v : ℕ) → n ≤ i → count_free n (update map i v) ≡ count_free n map
unfolding count_free
count_free-update_out zero map i v h = refl
count_free-update_out (suc n) map i v h =
    let other : (i == n) ≡ false = ground arith in
    rw (other, count_free-update_out n map i v (omega arith))

count_free-update_used :
    (n : ℕ) (map : ℕ → ℕ) (i v : ℕ)
    → i < n
    → map i ≡ 0
    → count_free n map ≡ count_free n (update map i (suc v)) + 1
unfolding count_free
count_free-update_used zero map i v h e = absurd (omega arith)
count_free-update_used (suc n) map i v h e = elim (Bool-cases (i == n)) [
  | inl same ↦
      let at : map n ≡ 0 = ap map (ground arith) ∙ e in
      let rest = count_free-update_out n map i (suc v) (ground arith) in ground arith
  | inr other ↦ rw other (omega (arith, count_free-update_used n map i v (ground arith) e))
]

-- `get_free_page` takes one off the number of free pages that `calc_mem` counts.
pub count_free-get_free_page :
    (m : Mem) {page : ℕ} {m' : Mem}
    → Gotten m page m'
    → count_free paging_pages m.mem_map ≡ count_free paging_pages m'.mem_map + 1
count_free-get_free_page m g =
    rw g.counted (count_free-update_used paging_pages m.mem_map g.index 0 g.in_table g.was_free)

clear_map-get :
    (n i : ℕ) (map : ℕ → ℕ) (j : ℕ)
    → clear_map n i map j ≡ (if leb i j && ltb j (i + n) then 0 else map j)
unfolding clear_map
clear_map-get zero i map j = ground arith
clear_map-get (suc n) i map j = ground (arith, clear_map-get n (i + 1) (update map i 0) j)

-- After `mem_init` exactly the pages between the two addresses are free.
pub mem_init-free :
    (start_mem end_mem : ℕ) (m : Mem) (j : ℕ)
    → low_mem ≤ start_mem
    → start_mem ≤ end_mem
    → start_mem % 4096 ≡ 0
    → end_mem % 4096 ≡ 0
    → j < paging_pages
    → ((mem_init start_mem end_mem m).mem_map j ≡ 0)
      ↔ ((start_mem ≤ low_mem + 4096 * j) × (low_mem + 4096 * j < end_mem))
unfolding mem_init
mem_init-free start_mem end_mem m j lo le s e h = ground (
  arith,
  clear_map-get ((end_mem - start_mem) / 4096) (map_nr start_mem)
      (λ (i : ℕ). if ltb i paging_pages then used else m.mem_map i) j,
)

-- The address belongs to nobody's free page.
abbrev pub InUse : Mem → ℕ → Type 0
InUse m x = (x < low_mem) ⊎ (m.mem_map (map_nr x) ≢ 0)

-- No address in use lies in a page that was just gotten.
pub in_page-Gotten :
    (m : Mem) {page : ℕ} {m' : Mem} (x : ℕ) → Gotten m page m' → InUse m x → in_page page x ≡ false
in_page-Gotten m {page} x g (inl low) = let e = g.address in ground arith
in_page-Gotten m {page} x g (inr busy) = elim (Bool-cases (in_page page x)) [
  | inl inside ↦
      let e = g.address in
      let i : map_nr x ≡ g.index = ground arith in absurd (busy (ap m.mem_map i ∙ g.was_free))
  | inr outside ↦ outside
]
