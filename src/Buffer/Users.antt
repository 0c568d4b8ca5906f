-- ===== src/Buffer/Users.antt =====
-- Users of the buffer cache, in any order: between two sleeps of one the others and the disk change
-- it.
use linux_0_11_learning.Base.{
  count, ℕ, ◌<◌, ◌≡◌, ◌≢◌, refl, ◌∙◌, Bool, false, some, ◌==◌, arith, Bool-cases, Option-cases, inl,
  inr,
}
use linux_0_11_learning.Buffer.{
  Head, Cache, holds, put, find_buffer, claim, Stretch, got, waits_for, waits, waits_unused, syncs,
  again, count_up, count_down, found_again, use_unused, getblk, brelse,
}
use linux_0_11_learning.Buffer.Queues.{IsCache, find_buffer-none}
use linux_0_11_learning.Buffer.Getblk.{
  GetblkOut, cached, cached_locked, all_in_use, fresh, locked, dirty, getblk-GetblkOut, claim-bufs,
  claim-IsCache, count-claim_ring,
}

-- The cache when a stretch ends.
abbrev pub after : Stretch → Cache
after (got i c) = c
after (waits_for i c) = c
after (waits c) = c
after (waits_unused i c) = c
after (syncs i dev c) = c
after (again c) = c

-- A user begins or goes on with `getblk`, or releases a buffer; the disk, or a user who holds a
-- buffer, changes its flags.
pub data Step (c : Cache) : Cache → Type 0 where
  starts : (dev block : ℕ) {c' : Cache} → dev ≢ 0 → c' ≡ after (getblk dev block c) → Step c c'
  woken_for : (dev block i : ℕ) {c' : Cache} → c' ≡ after (found_again dev block i c) → Step c c'
  woken_unused :
      (dev block i : ℕ) {c' : Cache}
      → dev ≢ 0
      → 0 < count i c.free_list
      → c' ≡ after (use_unused dev block i c)
      → Step c c'
  releases : (i : ℕ) {c' : Cache} → brelse i c ≡ some c' → Step c c'
  flags :
      (i : ℕ) (uptodate dirt lock : Bool) {c' : Cache}
      → c' ≡ put i (record (c.bufs i) { b_uptodate = uptodate; b_dirt = dirt; b_lock = lock }) c
      → Step c c'

pub data Reaches (c : Cache) : Cache → Type 0 where
  here : Reaches c c
  there : {c1 c2 : Cache} → Reaches c c1 → Step c1 c2 → Reaches c c2

-- The second cache differs in counts and flags only.
record SameBlocks (c c' : Cache) : Type 0 where
  dev : (i : ℕ) → (c'.bufs i).b_dev ≡ (c.bufs i).b_dev
  block : (i : ℕ) → (c'.bufs i).b_blocknr ≡ (c.bufs i).b_blocknr
  queues : c'.hash_table ≡ c.hash_table
  list : c'.free_list ≡ c.free_list

SameBlocks-refl : (c : Cache) → SameBlocks c c
SameBlocks-refl c = record { dev = λ i. refl; block = λ i. refl; queues = refl; list = refl }

SameBlocks-put :
    (c : Cache) (i : ℕ) (h : Head)
    → h.b_dev ≡ (c.bufs i).b_dev
    → h.b_blocknr ≡ (c.bufs i).b_blocknr
    → SameBlocks c (put i h c)
SameBlocks-put c i h d b = record {
  dev = λ j. ground arith;
  block = λ j. ground arith;
  queues = refl;
  list = refl;
}

SameBlocks-IsCache : {c c' : Cache} → SameBlocks c c' → IsCache c → IsCache c'
SameBlocks-IsCache {c} {c'} s ok = record {
  placed = λ h i. rw (s.queues, s.dev i, s.block i) (ok.placed h i);
  once = λ h i. rw s.queues (ok.once h i);
  linked = λ i. rw (s.queues, s.dev i, s.block i) (ok.linked i);
  ring = λ i. rw s.list (ok.ring i);
  in_ring = λ i. rw (s.list, s.dev i) (ok.in_ring i);
  unique = λ i j. rw (s.dev i, s.dev j, s.block i, s.block j) (ok.unique i j);
}

-- What a step does: it keeps the blocks of all buffers; or it gives a buffer that nobody uses, and
-- that is clean, to a block that no buffer has.
data Effect (c c' : Cache) : Type 0 where
  same : SameBlocks c c' → Effect c c'
  claims :
      (dev block i : ℕ)
      → dev ≢ 0
      → 0 < count i c.free_list
      → (c.bufs i).b_count ≡ 0
      → ((j : ℕ) → holds dev block (c.bufs j) ≡ false)
      → c' ≡ claim dev block i c
      → Effect c c'

Effect-count_up : (c : Cache) (i : ℕ) → Effect c (count_up i c)
unfolding count_up
Effect-count_up c i = same (SameBlocks-put c i _ refl refl)

Effect-count_down : (c : Cache) (i : ℕ) → Effect c (count_down i c)
unfolding count_down
Effect-count_down c i = same (SameBlocks-put c i _ refl refl)

Effect-GetblkOut :
    (dev block : ℕ) (c : Cache)
    → dev ≢ 0
    → (s : Stretch) → GetblkOut dev block c s
    → Effect c (after s)
Effect-GetblkOut dev block c nz (got _ _) (cached {i = i} l h) = Effect-count_up c i
Effect-GetblkOut dev block c nz (waits_for _ _) (cached_locked {i = i} l h) = Effect-count_up c i
Effect-GetblkOut dev block c nz (waits _) (all_in_use h u) = same (SameBlocks-refl c)
Effect-GetblkOut dev block c nz (got _ _) (fresh {i = i} h b g k) =
    claims dev block i nz b.of_list b.unused h refl
Effect-GetblkOut dev block c nz (waits_unused _ _) (locked h b l) = same (SameBlocks-refl c)
Effect-GetblkOut dev block c nz (syncs _ _ _) (dirty h b d e) = same (SameBlocks-refl c)
Effect-GetblkOut dev block c nz (again _) h = elim h [ ]

Effect-found_again : (dev block i : ℕ) (c : Cache) → Effect c (after (found_again dev block i c))
unfolding found_again
Effect-found_again dev block i c = elim (Bool-cases (holds dev block (c.bufs i))) [
  | inl h ↦ rw h (same (SameBlocks-refl c))
  | inr n ↦ rw n (Effect-count_down c i)
]

Effect-use_unused :
    (dev block i : ℕ) (c : Cache)
    → IsCache c
    → dev ≢ 0
    → 0 < count i c.free_list
    → Effect c (after (use_unused dev block i c))
unfolding use_unused
Effect-use_unused dev block i c ok nz in_ring = elim (Bool-cases ((c.bufs i).b_count == 0)) [
  | inr used ↦ rw used (same (SameBlocks-refl c))
  | inl free ↦ elim (Bool-cases (c.bufs i).b_dirt) [
    | inl d ↦ rw (free, d) (same (SameBlocks-refl c))
    | inr nd ↦ elim (Option-cases (find_buffer dev block c)) [
      | inr (j, e) ↦ rw (free, nd, e, use_unused) (same (SameBlocks-refl c))
      | inl e ↦
          let none_has = find_buffer-none dev block c ok nz e in
          rw (free, nd, e, use_unused) (claims dev block i nz in_ring (ground arith) none_has refl)
    ]
  ]
]

Effect-brelse : (i : ℕ) (c : Cache) {c' : Cache} → brelse i c ≡ some c' → Effect c c'
unfolding brelse
Effect-brelse i c {c'} h = elim (Bool-cases ((c.bufs i).b_count == 0)) [
  | inl free ↦ absurd (ground arith)
  | inr used ↦ let e : c' ≡ count_down i c = ground arith in rw e (Effect-count_down c i)
]

Step-Effect : {c c' : Cache} → IsCache c → Step c c' → Effect c c'
Step-Effect {c} ok (starts dev block nz e) =
    rw e (Effect-GetblkOut dev block c nz _ (getblk-GetblkOut dev block c ok nz))
Step-Effect {c} ok (woken_for dev block i e) = rw e (Effect-found_again dev block i c)
Step-Effect {c} ok (woken_unused dev block i nz in_ring e) =
    rw e (Effect-use_unused dev block i c ok nz in_ring)
Step-Effect {c} ok (releases i e) = Effect-brelse i c e
Step-Effect {c} ok (flags i u d l e) = rw e (same (SameBlocks-put c i _ refl refl))

-- A buffer that has a user keeps its block, whatever another user or the disk does next.
pub Step-kept :
    {c c' : Cache}
    → IsCache c
    → Step c c'
    → (i : ℕ) → 0 < (c.bufs i).b_count
    → ((c'.bufs i).b_dev ≡ (c.bufs i).b_dev) × ((c'.bufs i).b_blocknr ≡ (c.bufs i).b_blocknr)
Step-kept {c} {c'} ok s i used = go (Step-Effect ok s)
  where
    go :
        Effect c c'
        → ((c'.bufs i).b_dev ≡ (c.bufs i).b_dev) × ((c'.bufs i).b_blocknr ≡ (c.bufs i).b_blocknr)
    go (same b) = (b.dev i, b.block i)
    go (claims dev block j nz in_ring free h e) =
        let other : (j == i) ≡ false = ground arith in
        rw (e, claim-bufs dev block j c i, other) (refl, refl)

Effect-IsCache :
    {c c' : Cache}
    → IsCache c
    → Effect c c'
    → IsCache c' × ((i : ℕ) → count i c'.free_list ≡ count i c.free_list)
Effect-IsCache ok (same b) = (SameBlocks-IsCache b ok, λ i. rw b.list refl)
Effect-IsCache {c} ok (claims dev block j nz in_ring free h e) = rw e (
  claim-IsCache dev block j c ok nz in_ring h,
  λ i. ground (arith, count-claim_ring dev block j c i),
)

-- However users and the disk go on in turn, the queues stay in order, with one buffer at most for a
-- block, and the ring has the same buffers.
pub Reaches-IsCache :
    {c c' : Cache}
    → IsCache c
    → Reaches c c'
    → IsCache c' × ((i : ℕ) → count i c'.free_list ≡ count i c.free_list)
Reaches-IsCache ok here = (ok, λ i. refl)
Reaches-IsCache ok (there r s) =
    let (ok1, same1) = Reaches-IsCache ok r in
    let (ok2, same2) = Effect-IsCache ok1 (Step-Effect ok1 s) in (ok2, λ i. same2 i ∙ same1 i)
