-- ===== src/Buffer/Getblk.antt =====
-- What a stretch of `getblk` does to the buffer cache.
use linux_0_11_learning.Base.{
  count, ℕ, suc, ◌+◌, ◌-◌, ◌<◌, ◌≡◌, ◌≢◌, refl, true, false, Option, none, some, ◌&&◌, ◌==◌,
  if◌then◌else◌, arith, Bool-cases, Option-cases, inl, inr,
}
use linux_0_11_learning.Buffer.{
  Head, Cache, home, hashfn, holds, put, erase, find_buffer, remove_from_queues, insert_into_queues,
  claim, Stretch, got, waits_for, waits, waits_unused, syncs, count_up, badness, choose,
  found_again, use_unused, choose_unused, getblk,
}
use linux_0_11_learning.Buffer.Choose.{IsBest, Chosen, all_used, best_of, choose-Chosen}
use linux_0_11_learning.Buffer.Queues.{
  count-erase, count-append_one, IsCache, find_buffer-some, find_buffer-none,
}

module _ (i : ℕ) (c : Cache) where
  count-remove_queue :
      (h j : ℕ)
      → count j ((remove_from_queues i c).hash_table h) ≡ (
          if home (c.bufs i) == h && i == j
          then count j (c.hash_table h) - 1
          else count j (c.hash_table h))
  unfolding remove_from_queues
  count-remove_queue h j = elim (Bool-cases (home (c.bufs i) == h)) [
    | inl e ↦
        let same : home (c.bufs i) ≡ h = ground arith in
        rw same (ground (arith, count-erase i j (c.hash_table h)))
    | inr n ↦ rw n (ground arith)
  ]

  count-insert_queue :
      (c.bufs i).b_dev ≢ 0
      → (h j : ℕ)
      → count j ((insert_into_queues i c).hash_table h) ≡ (
          if home (c.bufs i) == h && i == j
          then suc (count j (c.hash_table h))
          else count j (c.hash_table h))
  unfolding insert_into_queues count
  count-insert_queue nz h j =
      let dev : ((c.bufs i).b_dev == 0) ≡ false = ground arith in
      elim (Bool-cases (home (c.bufs i) == h)) [
        | inl e ↦ let same : home (c.bufs i) ≡ h = ground arith in rw (dev, same) (ground arith)
        | inr n ↦ rw (dev, n) (ground arith)
      ]

module _ (dev block i : ℕ) (c : Cache) where
  abbrev claimed : Head
  claimed = record (c.bufs i) {
    b_dev = dev;
    b_blocknr = block;
    b_count = 1;
    b_dirt = false;
    b_uptodate = false;
  }

  pub claim-bufs : (j : ℕ) → (claim dev block i c).bufs j ≡ (if i == j then claimed else c.bufs j)
  unfolding claim remove_from_queues insert_into_queues
  claim-bufs j = ground arith

  pub count-claim_ring :
      (j : ℕ)
      → count j (claim dev block i c).free_list
        ≡ (if i == j then (count j c.free_list - 1) + 1 else count j c.free_list)
  unfolding claim remove_from_queues insert_into_queues
  count-claim_ring j =
      ground (arith, count-append_one i j (erase i c.free_list), count-erase i j c.free_list)

  abbrev clean : Cache
  clean = put i (record (c.bufs i) { b_count = 1; b_dirt = false; b_uptodate = false }) c

  abbrev out : Cache
  out = put i claimed (remove_from_queues i clean)

  self : (i == i) ≡ true
  self = ground arith

  claim-out : claim dev block i c ≡ insert_into_queues i out
  unfolding claim remove_from_queues
  claim-out = rw self refl

  count-claim_queue :
      dev ≢ 0
      → (h j : ℕ)
      → count j ((claim dev block i c).hash_table h)
        ≡ (if hashfn dev block == h && i == j then 1 else 0)
          + (if home (c.bufs i) == h && i == j
              then count j (c.hash_table h) - 1
              else count j (c.hash_table h))
  count-claim_queue nz h j =
      let a = count-insert_queue i out (rw self nz) h j in
      let b = count-remove_queue i clean h j in
      let a' = rw self at a in let b' = rw self at b in rw (claim-out, a', b') (ground arith)

  -- Claiming a buffer for a block that no buffer has keeps the cache in order.
  pub claim-IsCache :
      IsCache c
      → dev ≢ 0
      → 0 < count i c.free_list
      → ((j : ℕ) → holds dev block (c.bufs j) ≡ false)
      → IsCache (claim dev block i c)
  claim-IsCache ok nz there fresh = record {
    placed = λ h j.
        rw (count-claim_queue nz h j, claim-bufs j) (ground (arith, ok.placed h j, ok.once h j));
    once =
        λ h j. rw (count-claim_queue nz h j) (ground (arith, ok.placed h j, ok.once h j, fresh j));
    linked = λ j. rw (claim-bufs j) (
        ground (
          arith,
          count-claim_queue nz (home claimed) j,
          count-claim_queue nz (home (c.bufs j)) j,
          ok.linked j,
        ));
    ring = λ j. rw (count-claim_ring j) (ground (arith, ok.ring j));
    in_ring = λ j. rw (count-claim_ring j, claim-bufs j) (ground (arith, ok.ring j, ok.in_ring j));
    unique =
        λ j k. rw (claim-bufs j, claim-bufs k) (ground (arith, ok.unique j k, fresh j, fresh k));
  }

-- How a stretch of `getblk` from `repeat` on ends.
pub data GetblkOut (dev block : ℕ) (c : Cache) : Stretch → Type 0 where
  -- The block has a buffer, which gets one user more; it is returned unless it is locked.
  cached :
      {i : ℕ}
      → (c.bufs i).b_lock ≡ false
      → holds dev block (c.bufs i) ≡ true
      → GetblkOut dev block c (got i (count_up i c))
  cached_locked :
      {i : ℕ}
      → (c.bufs i).b_lock ≡ true
      → holds dev block (c.bufs i) ≡ true
      → GetblkOut dev block c (waits_for i (count_up i c))
  -- The block has none. Every buffer of the ring is in use; or the best of the unused ones is clean
  -- and becomes the block's; or it is locked or dirty, and so are all that are not in use.
  all_in_use :
      ((j : ℕ) → holds dev block (c.bufs j) ≡ false)
      → ((j : ℕ) → 0 < count j c.free_list → (c.bufs j).b_count ≢ 0)
      → GetblkOut dev block c (waits c)
  fresh :
      {i : ℕ}
      → ((j : ℕ) → holds dev block (c.bufs j) ≡ false)
      → IsBest c.bufs i c.free_list
      → badness (c.bufs i) ≡ 0
      → IsCache (claim dev block i c)
      → GetblkOut dev block c (got i (claim dev block i c))
  locked :
      {i : ℕ}
      → ((j : ℕ) → holds dev block (c.bufs j) ≡ false)
      → IsBest c.bufs i c.free_list
      → (c.bufs i).b_lock ≡ true
      → GetblkOut dev block c (waits_unused i c)
  dirty :
      {i dev' : ℕ}
      → ((j : ℕ) → holds dev block (c.bufs j) ≡ false)
      → IsBest c.bufs i c.free_list
      → (c.bufs i).b_dirt ≡ true
      → dev' ≡ (c.bufs i).b_dev
      → GetblkOut dev block c (syncs i dev' c)

module _ (dev block : ℕ) (c : Cache) (ok : IsCache c) (nz : dev ≢ 0) where
  choose_unused-GetblkOut :
      find_buffer dev block c ≡ none
      → (o : Option ℕ) → choose c.bufs none c.free_list ≡ o
      → Chosen c.bufs c.free_list o
      → GetblkOut dev block c (choose_unused dev block c)
  unfolding choose_unused use_unused
  choose_unused-GetblkOut e none o (all_used h) =
      rw (o, choose_unused) (all_in_use (find_buffer-none dev block c ok nz e) h)
  choose_unused-GetblkOut e (some i) o (best_of b) =
      let none_has = find_buffer-none dev block c ok nz e in
      let free : ((c.bufs i).b_count == 0) ≡ true = let u = b.unused in ground arith in
      elim (Bool-cases (c.bufs i).b_lock) [
        | inl l ↦ rw (o, choose_unused, l) (locked none_has b l)
        | inr nl ↦ elim (Bool-cases (c.bufs i).b_dirt) [
          | inl d ↦ rw (o, choose_unused, nl, free, d) (dirty none_has b d refl)
          | inr nd ↦
              let good : badness (c.bufs i) ≡ 0 = unfold badness in rw (nl, nd) refl in
              let kept = claim-IsCache dev block i c ok nz b.of_list none_has in
              rw (o, choose_unused, nl, free, nd, e, use_unused) (fresh none_has b good kept)
        ]
      ]

  getblk-some :
      {i : ℕ}
      → find_buffer dev block c ≡ some i
      → getblk dev block c ≡ (
          if (c.bufs i).b_lock
          then waits_for i (count_up i c)
          else found_again dev block i (count_up i c))
  unfolding getblk
  getblk-some e = rw (e, getblk) refl

  getblk-none : find_buffer dev block c ≡ none → getblk dev block c ≡ choose_unused dev block c
  unfolding getblk
  getblk-none e = rw (e, getblk) refl

  found_again-count_up :
      {i : ℕ}
      → holds dev block (c.bufs i) ≡ true
      → found_again dev block i (count_up i c) ≡ got i (count_up i c)
  unfolding found_again count_up
  found_again-count_up {i} has =
      let has' : holds dev block ((count_up i c).bufs i) ≡ true = ground arith in rw has' refl

  pub getblk-GetblkOut : GetblkOut dev block c (getblk dev block c)
  getblk-GetblkOut = elim (Option-cases (find_buffer dev block c)) [
    | inl e ↦
        rw (getblk-none e) (choose_unused-GetblkOut e _ refl (choose-Chosen c.bufs c.free_list))
    | inr (i, e) ↦
        let (d, b) = find_buffer-some dev block c e in
        let has : holds dev block (c.bufs i) ≡ true = ground arith in
        elim (Bool-cases (c.bufs i).b_lock) [
          | inl l ↦ rw (getblk-some e, l) (cached_locked l has)
          | inr nl ↦ rw (getblk-some e, nl, found_again-count_up has) (cached nl has)
        ]
  ]
