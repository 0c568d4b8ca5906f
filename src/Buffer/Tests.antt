-- ===== src/Buffer/Tests.antt =====
-- Runs of a buffer cache with two buffers.
use linux_0_11_learning.Base.{count, ℕ, ◌<◌, ◌≡◌, refl, false, [], ◌∷◌, arith}
use linux_0_11_learning.Buffer.{Head, Cache, got, claim, getblk}
use linux_0_11_learning.Buffer.Queues.{IsCache}
use linux_0_11_learning.Buffer.Users.{
  starts, Reaches, here, there, after, Step-kept, Reaches-IsCache,
}

abbrev unused : Head
unused = record {
  b_dev = 0;
  b_blocknr = 0;
  b_uptodate = false;
  b_dirt = false;
  b_count = 0;
  b_lock = false;
}

abbrev initial : Cache
initial = record { bufs = λ i. unused; hash_table = λ h. []; free_list = 0 ∷ 1 ∷ [] }

initial-IsCache : IsCache initial
unfolding count
initial-IsCache = record {
  placed = λ h i p. absurd (omega arith);
  once = λ h i. omega arith;
  linked = λ i p. absurd (p refl);
  ring = λ i. ground arith;
  in_ring = λ i p. absurd (p refl);
  unique = λ i j p. absurd (p refl);
}

-- The first buffer of the ring is taken, and goes to its end.
getblk-run : getblk 769 40 initial ≡ got 0 (claim 769 40 0 initial)
unfolding getblk
getblk-run = refl

ring-run : (claim 769 40 0 initial).free_list ≡ 1 ∷ 0 ∷ []
unfolding claim
ring-run = refl

abbrev first : Cache
first = after (getblk 769 40 initial)

abbrev second : Cache
second = after (getblk 769 41 first)

run : Reaches initial second
run = there (there here (starts 769 40 (omega arith) refl)) (starts 769 41 (omega arith) refl)

Reaches-IsCache_example :
    IsCache second × ((i : ℕ) → count i second.free_list ≡ count i initial.free_list)
Reaches-IsCache_example = Reaches-IsCache initial-IsCache run

first-IsCache : IsCache first
first-IsCache = (Reaches-IsCache initial-IsCache (there here (starts 769 40 (omega arith) refl))).0

first-used : 0 < (first.bufs 0).b_count
unfolding getblk
first-used = omega arith

Step-kept_example :
    ((second.bufs 0).b_dev ≡ (first.bufs 0).b_dev)
    × ((second.bufs 0).b_blocknr ≡ (first.bufs 0).b_blocknr)
Step-kept_example = Step-kept first-IsCache (starts 769 41 (omega arith) refl) 0 first-used
