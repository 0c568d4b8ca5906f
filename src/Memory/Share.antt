-- ===== src/Memory/Share.antt =====
-- What `copy_page_tables` makes of one page table: parent and child share the pages, read-only.
use linux_0_11_learning.Base.{
  ℕ, zero, suc, ◌+◌, ◌*◌, ◌%◌, ◌≤◌, ◌<◌, ◌≡◌, ◌≢◌, refl, sym, ◌∙◌, ◌⊎◌, inl, inr, Bool, arith, ltb,
  ◌==◌, ◌&&◌, if◌then◌else◌, Bool-cases,
}
use linux_0_11_learning.Memory.{Mem, ok, low_mem, map_nr, update, ◌>>=◌}
use linux_0_11_learning.Memory.Tables.{is_present, write_protect, copy_entries}

-- The entry maps a page above `low_mem`.
abbrev pub is_shared : ℕ → Bool
is_shared x = is_present x && ltb low_mem (write_protect x)

-- How many of the `nr` entries from `from` on map the page with the index `j`.
unfoldable pub sharers : ℕ → ℕ → (ℕ → ℕ) → ℕ → ℕ
sharers zero from word j = 0
sharers (suc nr) from word j =
    (if is_shared (word from) && map_nr (write_protect (word from)) == j then 1 else 0)
    + sharers nr (from + 4) word j

pub record Shared (nr from to : ℕ) (m m' : Mem) : Type 0 where
  -- The child's entry is the parent's, without the right to write.
  pub child :
      (k : ℕ)
      → k < nr
      → m'.word (to + 4 * k) ≡ (
          if is_present (m.word (from + 4 * k))
          then write_protect (m.word (from + 4 * k))
          else m.word (to + 4 * k))
  -- The parent loses the right to write too, except in low memory.
  pub parent :
      (k : ℕ)
      → k < nr
      → m'.word (from + 4 * k) ≡ (
          if is_shared (m.word (from + 4 * k))
          then write_protect (m.word (from + 4 * k))
          else m.word (from + 4 * k))
  pub elsewhere :
      (a : ℕ)
      → ((k : ℕ) → k < nr → a ≢ from + 4 * k)
      → ((k : ℕ) → k < nr → a ≢ to + 4 * k)
      → m'.word a ≡ m.word a
  -- Each entry that shares a page counts as one more user of it.
  pub counts : (j : ℕ) → m'.mem_map j % 256 ≡ (m.mem_map j + sharers nr from m.word j) % 256
  pub same_end : m'.high_memory ≡ m.high_memory

-- One round of the loop.
abbrev copy_one : ℕ → ℕ → Mem → Mem
copy_one from to m =
    let x = m.word from in
    let word1 = if is_present x then update m.word to (write_protect x) else m.word in
    record m {
      word = if is_shared x then update word1 from (write_protect x) else word1;
      mem_map =
          if is_shared x
          then update m.mem_map (map_nr (write_protect x))
              ((m.mem_map (map_nr (write_protect x)) + 1) % 256)
          else m.mem_map;
    }

copy_entries-suc :
    (nr from to : ℕ) (m : Mem)
    → copy_entries (suc nr) from to m ≡ copy_entries nr (from + 4) (to + 4) (copy_one from to m)
unfolding copy_entries
copy_entries-suc nr from to m = elim (Bool-cases (is_present (m.word from))) [
  | inl there ↦ elim (Bool-cases (ltb low_mem (write_protect (m.word from)))) [
    | inl high ↦ rw (there, ◌>>=◌, high)
    | inr low ↦ rw (there, ◌>>=◌, low)
  ]
  | inr gone ↦ rw (gone, ◌>>=◌)
]

-- The two ranges of entries have nothing in common.
abbrev pub Apart : (nr from to : ℕ) → Type 0
Apart nr from to = (from + 4 * nr ≤ to) ⊎ (to + 4 * nr ≤ from)

copy_one-word :
    (from to : ℕ) (m : Mem) (a : ℕ) → a ≢ from → a ≢ to → (copy_one from to m).word a ≡ m.word a
copy_one-word from to m a nf nt = ground arith

sharers-same :
    (nr from : ℕ) (f g : ℕ → ℕ) (j : ℕ)
    → ((a : ℕ) → from ≤ a → a < from + 4 * nr → f a ≡ g a)
    → sharers nr from f j ≡ sharers nr from g j
unfolding sharers
sharers-same zero from f g j same = refl
sharers-same (suc nr) from f g j same = rw (
  same from (omega arith) (omega arith),
  sharers-same nr (from + 4) f g j (λ a lo hi. same a (omega arith) (omega arith)),
)

module _ (nr from to : ℕ) (m m' : Mem) (apart : Apart (suc nr) from to)
    (s : Shared nr (from + 4) (to + 4) (copy_one from to m) m') where
  next_entry : (x k : ℕ) → x + 4 * suc k ≡ x + 4 + 4 * k
  next_entry x k = omega arith

  same_from :
      (k : ℕ) → k < nr → (copy_one from to m).word (from + 4 + 4 * k) ≡ m.word (from + 4 + 4 * k)
  same_from k h = copy_one-word from to m (from + 4 + 4 * k) (omega arith) (omega arith)

  same_to : (k : ℕ) → k < nr → (copy_one from to m).word (to + 4 + 4 * k) ≡ m.word (to + 4 + 4 * k)
  same_to k h = copy_one-word from to m (to + 4 + 4 * k) (omega arith) (omega arith)

  child_at :
      (k : ℕ)
      → k < suc nr
      → m'.word (to + 4 * k) ≡ (
          if is_present (m.word (from + 4 * k))
          then write_protect (m.word (from + 4 * k))
          else m.word (to + 4 * k))
  child_at zero h =
      let t0 : to + 4 * 0 ≡ to = omega arith in
      let f0 : from + 4 * 0 ≡ from = omega arith in
      let kept = s.elsewhere to (λ k' h'. omega arith) (λ k' h'. omega arith) in
      let ne : from ≢ to = omega arith in rw (t0, f0) (kept ∙ ground arith)
  child_at (suc k) h =
      rw
        (next_entry to k, next_entry from k, ← same_from k (omega arith), ← same_to k (omega arith))
        (s.child k (omega arith))

  parent_at :
      (k : ℕ)
      → k < suc nr
      → m'.word (from + 4 * k) ≡ (
          if is_shared (m.word (from + 4 * k))
          then write_protect (m.word (from + 4 * k))
          else m.word (from + 4 * k))
  parent_at zero h =
      let f0 : from + 4 * 0 ≡ from = omega arith in
      let kept = s.elsewhere from (λ k' h'. omega arith) (λ k' h'. omega arith) in
      let ne : from ≢ to = omega arith in rw f0 (kept ∙ ground arith)
  parent_at (suc k) h =
      rw (next_entry from k, ← same_from k (omega arith)) (s.parent k (omega arith))

  elsewhere_at :
      (a : ℕ)
      → ((k : ℕ) → k < suc nr → a ≢ from + 4 * k)
      → ((k : ℕ) → k < suc nr → a ≢ to + 4 * k)
      → m'.word a ≡ m.word a
  elsewhere_at a nf nt =
      s.elsewhere a (λ k h e. nf (suc k) (omega arith) (e ∙ sym (next_entry from k)))
        (λ k h e. nt (suc k) (omega arith) (e ∙ sym (next_entry to k)))
      ∙ copy_one-word from to m a (λ e. nf 0 (omega arith) (omega arith))
          (λ e. nt 0 (omega arith) (omega arith))

  counts_at : (j : ℕ) → m'.mem_map j % 256 ≡ (m.mem_map j + sharers (suc nr) from m.word j) % 256
  unfolding sharers
  counts_at j =
      let tail =
        sharers-same nr (from + 4) (copy_one from to m).word m.word j
          (λ a lo hi. copy_one-word from to m a (omega arith) (omega arith)) in
      let c = s.counts j in ground arith

  Shared-suc : Shared (suc nr) from to m m'
  Shared-suc = record {
    child = child_at;
    parent = parent_at;
    elsewhere = elsewhere_at;
    counts = counts_at;
    same_end = s.same_end;
  }

-- Copying `nr` entries of a page table to another, which does not overlap it, returns. Then each
-- present entry is the child's too, without the right to write, which the parent has lost as well
-- above low memory; each page above low memory has one more user for each entry that maps it, in
-- a byte; and no other word has changed.
pub copy_entries-Shared :
    (nr from to : ℕ) (m : Mem)
    → Apart nr from to
    → (m' : Mem) × (copy_entries nr from to m ≡ ok tt m') × Shared nr from to m m'
unfolding copy_entries sharers
copy_entries-Shared zero from to m apart = (
  m,
  refl,
  record {
    child = λ k h. absurd (omega arith);
    parent = λ k h. absurd (omega arith);
    elsewhere = λ a nf nt. refl;
    counts = λ j. omega arith;
    same_end = refl;
  },
)
copy_entries-Shared (suc nr) from to m apart =
    let (m', run, s) =
      copy_entries-Shared nr (from + 4) (to + 4) (copy_one from to m) (ground arith) in
    (m', copy_entries-suc nr from to m ∙ run, Shared-suc nr from to m m' apart s)
