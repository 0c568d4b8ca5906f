-- ===== src/Memory/Map.antt =====
-- What copy on write does to the words of memory and to the use counts.
use linux_0_11_learning.Base.{
  ℕ, ◌+◌, ◌-◌, ◌*◌, ◌≤◌, ◌<◌, ◌≡◌, ◌≢◌, ap, ◌∙◌, inl, inr, true, false, arith, ltb, leb, ◌==◌, ◌&&◌,
  if◌then◌else◌, Bool-cases,
}
use linux_0_11_learning.Memory.{
  Mem, Run, ok, exited, low_mem, paging_pages, map_nr, update, in_page, clear_words, get_free_page,
  ◌>>=◌,
}
use linux_0_11_learning.Memory.Pages.{Gotten, get_free_page-Gotten, InUse, in_page-Gotten}
use linux_0_11_learning.Memory.Tables.{frame_of, with_flags, make_writable}
use linux_0_11_learning.Memory.Fault.{un_wp_page}

-- The page of an entry has one user, the entry.
abbrev pub IsSole : Mem → ℕ → Type 0
IsSole m e = (low_mem ≤ frame_of (m.word e)) × (m.mem_map (map_nr (frame_of (m.word e))) ≡ 1)

-- A private copy of the page of the entry at `e`.
pub record Copied (m : Mem) (e : ℕ) (m' : Mem) : Type 0 where
  pub new_page : ℕ
  pub index : ℕ
  pub address : new_page ≡ low_mem + 4096 * index
  pub was_free : m.mem_map index ≡ 0
  -- The entry maps the new page, present and writable.
  pub entry : m'.word e ≡ new_page + 7
  -- The new page holds the old one's words.
  pub same_words : (k : ℕ) → k < 4096 → m'.word (new_page + k) ≡ m.word (frame_of (m.word e) + k)
  -- Nothing else is written.
  pub elsewhere : (a : ℕ) → a ≢ e → in_page new_page a ≡ false → m'.word a ≡ m.word a
  -- The new page has one user, the old one has one less, and no other count changes.
  pub one_user : m'.mem_map index ≡ 1
  pub dropped :
      low_mem ≤ frame_of (m.word e)
      → m'.mem_map (map_nr (frame_of (m.word e))) ≡ m.mem_map (map_nr (frame_of (m.word e))) - 1
  pub other_counts :
      (j : ℕ)
      → j ≢ index
      → (low_mem ≤ frame_of (m.word e) → j ≢ map_nr (frame_of (m.word e)))
      → m'.mem_map j ≡ m.mem_map j

-- The outcomes of a write to a page that is write-protected.
pub data Unshared (m : Mem) (e : ℕ) : Run (Unit {0}) → Type 0 where
  -- The only user gets the page writable, and only the entry changes.
  sole :
      IsSole m e
      → Unshared m e (ok tt (record m { word = update m.word e (make_writable (m.word e)) }))
  copied : {m' : Mem} → ¬ (IsSole m e) → Copied m e m' → Unshared m e (ok tt m')
  -- There is no free page: the process ends.
  no_memory :
      ¬ (IsSole m e) → ((j : ℕ) → j < paging_pages → m.mem_map j ≢ 0) → Unshared m e (exited m)

module _ (m : Mem) (e : ℕ) where
  -- An address in the old page is in use too.
  InUse-frame :
      (k : ℕ) → k < 4096 → InUse m (frame_of (m.word e)) → InUse m (frame_of (m.word e) + k)
  InUse-frame k h (inl low) = inl (omega arith)
  InUse-frame k h (inr busy) = elim (Bool-cases (ltb (frame_of (m.word e)) low_mem)) [
    | inl low ↦ inl (ground arith)
    | inr high ↦
        let same : map_nr (frame_of (m.word e) + k) ≡ map_nr (frame_of (m.word e)) = ground arith in
        inr (rw same busy)
  ]

  abbrev old : ℕ
  old = frame_of (m.word e)

  -- The state after the copy, given the new page and the state that `get_free_page` left.
  abbrev after_copy : ℕ → Mem → Mem
  after_copy new m1 = record m1 {
    word = λ a.
        if in_page new a
        then update m1.word e (with_flags new) (old + (a - new))
        else update m1.word e (with_flags new) a;
    mem_map =
        if leb low_mem old
        then update m1.mem_map (map_nr old) (m1.mem_map (map_nr old) - 1)
        else m1.mem_map;
  }

  un_wp_page-copy :
      {new : ℕ} {m1 : Mem}
      → (leb low_mem old && m.mem_map (map_nr old) == 1) ≡ false
      → get_free_page m ≡ ok new m1
      → (new == 0) ≡ false
      → un_wp_page e m ≡ ok tt (after_copy new m1)
  unfolding un_wp_page
  un_wp_page-copy {new} {m1} shared got nonzero = elim (Bool-cases (leb low_mem old)) [
    | inl high ↦ rw (shared, ◌>>=◌, got, nonzero, high)
    | inr low ↦ rw (shared, ◌>>=◌, got, nonzero, low)
  ]

  module _ {new : ℕ} {m1 : Mem} (g : Gotten m new m1) (apart : in_page old e ≡ false)
      (live : InUse m e) (live_page : InUse m old) where
    copied_words : (k : ℕ) → k < 4096 → (after_copy new m1).word (new + k) ≡ m.word (old + k)
    copied_words k h =
        let inside : in_page new (new + k) ≡ true = ground arith in
        let k' : new + k - new ≡ k = omega arith in
        let out = in_page-Gotten m (old + k) g (InUse-frame k h live_page) in
        let ne : (e == old + k) ≡ false = ground arith in
        let back : m1.word (old + k) ≡ m.word (old + k) =
          ap (λ (f : ℕ → ℕ). f (old + k)) g.cleared ∙ rw (out, clear_words) in
        rw (inside, k', ne) back

    count : (j : ℕ) → m1.mem_map j ≡ update m.mem_map g.index 1 j
    count j = ap (λ (f : ℕ → ℕ). f j) g.counted

    not_new : low_mem ≤ old → map_nr old ≢ g.index
    not_new h i = not_low_free live_page
      where
        not_low_free : InUse m old → ⊥
        not_low_free (inl low) = omega arith
        not_low_free (inr busy) = busy (ap m.mem_map i ∙ g.was_free)

    after_copy-Copied : Copied m e (after_copy new m1)
    after_copy-Copied = record {
      new_page = new;
      index = g.index;
      address = g.address;
      was_free = g.was_free;
      entry = rw (in_page-Gotten m e g live) (let a = g.address in ground arith);
      same_words = copied_words;
      elsewhere = λ a ne out.
          let same : m1.word a ≡ m.word a =
            ap (λ (f : ℕ → ℕ). f a) g.cleared ∙ rw (out, clear_words) in
          let other : (e == a) ≡ false = ground arith in rw (out, other) same;
      one_user = ground (arith, count g.index, not_new);
      dropped = λ high. ground (arith, count (map_nr old), not_new high);
      other_counts = λ j ne ne'. ground (arith, count j);
    }

  un_wp_page-sole :
      (leb low_mem old && m.mem_map (map_nr old) == 1) ≡ true
      → un_wp_page e m ≡ ok tt (record m { word = update m.word e (make_writable (m.word e)) })
  unfolding un_wp_page
  un_wp_page-sole s = rw (s, ◌>>=◌)

  un_wp_page-none :
      (leb low_mem old && m.mem_map (map_nr old) == 1) ≡ false
      → get_free_page m ≡ ok 0 m
      → un_wp_page e m ≡ exited m
  unfolding un_wp_page
  un_wp_page-none s got = rw (s, ◌>>=◌, got)

  -- A write to a present page through the entry at `e`: the only user of a page gets it writable;
  -- otherwise the entry gets a page of its own with the same words, the old page loses a user, and
  -- nothing else changes; or no page is free and the process ends. The entry and its page are in
  -- use, and the entry does not stand in the page that it maps.
  pub un_wp_page-Unshared :
      in_page old e ≡ false → InUse m e → InUse m old → Unshared m e (un_wp_page e m)
  un_wp_page-Unshared apart live live_page =
      elim (Bool-cases (leb low_mem old && m.mem_map (map_nr old) == 1)) [
        | inl s ↦ rw (un_wp_page-sole s) (Unshared.sole (ground arith))
        | inr s ↦ elim (get_free_page-Gotten m) [
          | inl (new, m1, got, g) ↦
              let nonzero : (new == 0) ≡ false = let a = g.address in ground arith in
              rw (un_wp_page-copy s got nonzero)
                (Unshared.copied (λ sole. ground arith) (after_copy-Copied g apart live live_page))
          | inr (got, full) ↦
              rw (un_wp_page-none s got) (Unshared.no_memory (λ sole. ground arith) full)
        ]
      ]
