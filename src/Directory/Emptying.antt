-- ===== src/Directory/Emptying.antt =====
-- fs/namei.c: `empty_dir`.
use linux_0_11_learning.Base.{
  ◌≢◌, ℕ, zero, suc, ◌+◌, ◌/◌, ◌%◌, ◌≤◌, ◌<◌, ◌≡◌, refl, inl, inr, Bool, true, false, ◌&&◌, ◌||◌,
  not, List, [], ◌∷◌, ltb, leb, ◌==◌, if◌then◌else◌, arith, Bool-cases, get_or,
}
use linux_0_11_learning.Directory.{Directory, per_block, entries, has_block}
use linux_0_11_learning.Directory.Finding.{At, At-next}

-- `strcmp` is 0: the bytes are those of the string, with the 0 at its end.
unfoldable pub same_string : (string bs : List ℕ) → Bool
same_string [] bs = get_or bs 0 0 == 0
same_string (c ∷ cs) [] = false
same_string (c ∷ cs) (b ∷ bs) = c == b && same_string cs bs

-- The first two entries are those of the directory and of its parent.
unfoldable pub has_dots : (i_num : ℕ) → Directory → Bool
unfolding same_string
has_dots i_num d =
    let de = d.entry (d.zone 0) in
    (de 0).inode == i_num
    && (not ((de 1).inode == 0)
        && (same_string (46 ∷ []) (de 0).name && same_string (46 ∷ 46 ∷ []) (de 1).name))

-- `while (nr<len)`, on fuel; `k` is the place of `de` in the block, which is at its end at 64. What the
-- loop releases is left out: at a hole the code releases the buffer of the block before a second time,
-- which ends in the panic of `brelse` where nobody else has it. The theorem is about directories
-- without holes.
unfoldable pub empty_loop : (fuel : ℕ) → Directory → (nr k block : ℕ) → Bool
empty_loop zero d nr k block = true
empty_loop (suc fuel) d nr k block =
    let next = d.zone (nr / per_block) in
    let passed = empty_loop fuel d (nr + per_block) k block in
    let in_next = empty_loop fuel d (nr + 1) 1 next in
    let in_block = empty_loop fuel d (nr + 1) (k + 1) block in
    if leb (entries d) nr
    then true
    else if not (k == per_block)
    then (d.entry block k).inode == 0 && in_block
    else if next == 0
    then passed
    else if not (d.readable next)
    then false
    else (d.entry next 0).inode == 0 && in_next

-- `empty_dir`, where a directory without the first two entries is bad.
unfoldable pub empty_dir : (i_num : ℕ) → Directory → Bool
unfolding has_dots empty_loop
empty_dir i_num d =
    if ltb (entries d) 2 || not (has_block d (d.zone 0))
    then false
    else if not (has_dots i_num d)
    then false
    else empty_loop (entries d + 1) d 2 2 (d.zone 0)

-- The slot is in a hole of the directory, or it can be read and has no inode.
abbrev pub unused : Directory → ℕ → Bool
unused d k =
    let block = d.zone (k / 64) in
    block == 0 || (d.readable block && (d.entry block (k % 64)).inode == 0)

-- The slots from `nr` on are unused, or one is not.
data Rest (d : Directory) (nr : ℕ) : Bool → Type 0 where
  all_unused : ((k : ℕ) → nr ≤ k → k < entries d → unused d k ≡ true) → Rest d nr true
  one_used : (k : ℕ) → nr ≤ k → k < entries d → unused d k ≡ false → Rest d nr false

module _ (d : Directory) where
  Rest-later :
      (nr m : ℕ) (b : Bool)
      → nr ≤ m
      → ((k : ℕ) → nr ≤ k → k < m → unused d k ≡ true)
      → Rest d m b
      → Rest d nr b
  Rest-later nr m true le before (all_unused all) = all_unused (λ k from lt.
      elim (Bool-cases (ltb k m)) [
        | inl early ↦ before k from (ground arith)
        | inr late ↦ all k (ground arith) lt
      ])
  Rest-later nr m false le before (one_used k from lt u) = one_used k (omega arith) lt u

  -- The slot `nr` is looked at, in its block.
  Rest-slot :
      (nr k block : ℕ) (later : Bool)
      → nr < entries d
      → k ≡ nr % 64
      → block ≡ d.zone (nr / 64)
      → has_block d block ≡ true
      → Rest d (nr + 1) later
      → Rest d nr ((d.entry block k).inode == 0 && later)
  Rest-slot nr k block later lt e b has rest = elim (Bool-cases ((d.entry block k).inode == 0)) [
    | inl free ↦
        let u : unused d nr ≡ true = rw (← b, ← e) (ground arith) in
        rw free (
          Rest-later nr (nr + 1) later (omega arith)
            (λ q from less. let same : nr ≡ q = omega arith in rw (← same) u) rest)
    | inr taken ↦
        let u : unused d nr ≡ false = rw (← b, ← e) (ground arith) in
        rw taken (one_used nr (omega arith) lt u)
  ]

  empty_loop-Rest :
      (fuel nr k block : ℕ)
      → entries d < fuel + nr
      → At d [] nr k block
      → Rest d nr (empty_loop fuel d nr k block)
  unfolding empty_loop
  empty_loop-Rest zero nr k block h at = all_unused (λ q from lt. absurd (omega arith))
  empty_loop-Rest (suc fuel) nr k block h at = elim (Bool-cases (leb (entries d) nr)) [
    | inl end ↦ rw end (all_unused (λ q from lt. absurd (ground arith)))
    | inr more ↦
        let lt : nr < entries d = ground arith in
        elim at [
          | inr (fits, e, b, has) ↦
              let inside : (k == 64) ≡ false = ground arith in
              let rest =
                empty_loop-Rest fuel (nr + 1) (k + 1) block (omega arith)
                  (At-next d [] nr k block fits e b has) in
              rw (more, inside) (Rest-slot nr k block _ lt e b has rest)
          | inl (e, start) ↦
              let z = d.zone (nr / 64) in
              elim (Bool-cases (z == 0)) [
                | inl hole ↦
                    let rest =
                      empty_loop-Rest fuel (nr + 64) 64 block (omega arith)
                        (inl (refl, omega arith)) in
                    rw (more, e, hole)
                      (Rest-later nr (nr + 64) _ (omega arith)
                        (λ q from less.
                          let same : q / 64 ≡ nr / 64 = omega arith in rw (same, hole) refl)
                        rest)
                | inr some_ ↦ elim (Bool-cases (d.readable z)) [
                  | inr lost ↦
                      rw (more, e, some_, lost)
                        (one_used nr (omega arith) lt (rw (some_, lost) refl))
                  | inl reads ↦
                      let has : has_block d z ≡ true = rw (some_, reads) refl in
                      let rest =
                        empty_loop-Rest fuel (nr + 1) 1 z (omega arith)
                          (At-next d [] nr 0 z (omega arith) (omega arith) refl has) in
                      rw (more, e, some_, reads) (Rest-slot nr 0 z _ lt (omega arith) refl has rest)
                ]
              ]
        ]
  ]

-- What `empty_dir` answers.
pub data EmptyOut (i_num : ℕ) (d : Directory) : Bool → Type 0 where
  too_short : entries d < 2 → EmptyOut i_num d false
  no_block : has_block d (d.zone 0) ≡ false → EmptyOut i_num d false
  no_dots : has_dots i_num d ≡ false → EmptyOut i_num d false
  in_use : (k : ℕ) → 2 ≤ k → k < entries d → unused d k ≡ false → EmptyOut i_num d false
  empty :
      2 ≤ entries d
      → has_dots i_num d ≡ true
      → ((k : ℕ) → 2 ≤ k → k < entries d → unused d k ≡ true)
      → EmptyOut i_num d true

Rest-EmptyOut :
    (i_num : ℕ) (d : Directory) (b : Bool)
    → 2 ≤ entries d
    → has_dots i_num d ≡ true
    → Rest d 2 b
    → EmptyOut i_num d b
Rest-EmptyOut i_num d true le dots (all_unused all) = empty le dots all
Rest-EmptyOut i_num d false le dots (one_used k from lt u) = in_use k from lt u

-- In a directory without holes before its end, `empty_dir` tells that it is empty if the first two
-- entries are those of the directory and its parent, and no other has an inode; and that it is not if
-- there are not two entries, if the first block cannot be read, if the two are not those, or if another
-- slot is in use or in a block that cannot be read.
pub empty_dir-EmptyOut :
    (i_num : ℕ) (d : Directory)
    → ((k : ℕ) → k < entries d → d.zone (k / 64) ≢ 0)
    → EmptyOut i_num d (empty_dir i_num d)
unfolding empty_dir
empty_dir-EmptyOut i_num d no_holes = elim (Bool-cases (ltb (entries d) 2)) [
  | inl short ↦ rw short (too_short (ground arith))
  | inr long ↦ elim (Bool-cases (has_block d (d.zone 0))) [
    | inr lost ↦ rw (long, lost) (no_block lost)
    | inl has ↦ elim (Bool-cases (has_dots i_num d)) [
      | inr none_ ↦ rw (long, has, none_) (no_dots none_)
      | inl dots ↦
          let rest =
            empty_loop-Rest d (entries d + 1) 2 2 (d.zone 0) (omega arith)
              (inr (omega arith, omega arith, refl, has)) in
          rw (long, has, dots) (Rest-EmptyOut i_num d _ (ground arith) dots rest)
    ]
  ]
]
