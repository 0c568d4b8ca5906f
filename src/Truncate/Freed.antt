-- ===== src/Truncate/Freed.antt =====
-- `truncate` gives back every block of the file, as often as the file names it.
use linux_0_11_learning.Base.{
  ℕ, zero, suc, ◌+◌, ◌-◌, ◌*◌, ◌<◌, ◌≡◌, ◌≢◌, refl, ap, ◌∙◌, Bool, true, false, List, [], ◌++◌, ltb,
  leb, ◌==◌, ◌&&◌, if◌then◌else◌, arith, Bool-cases, inl, inr, ==_iff, count, count-append,
  how_many, how_many-add, how_many-agree, some,
}
use linux_0_11_learning.Inode.{File, update, bmap}
use linux_0_11_learning.Inode.Lookup.{named, way, at, bmap-way}
use linux_0_11_learning.Truncate.{Node, has_blocks, free_ind, free_dind, free_direct, truncate}
use linux_0_11_learning.Truncate.Names.{once, free_ind-count, free_dind-count, through_two}

-- The blocks that a file can have.
abbrev pub most_blocks : ℕ
most_blocks = 7 + 512 + 512 * 512

free_direct-count :
    (x : ℕ)
    → x ≢ 0
    → (i n : ℕ) (zone : ℕ → ℕ) → count x (free_direct i n zone).0 ≡ how_many zone x i n
unfolding free_direct count how_many
free_direct-count x nz i zero zone = refl
free_direct-count x nz i (suc n) zone = elim (Bool-cases (zone i == 0)) [
  | inl z ↦
      let off : (zone i == x) ≡ false = ground arith in
      rw (z, off) (free_direct-count x nz (i + 1) n zone)
  | inr other ↦
      let h = free_direct-count x nz (i + 1) n (update zone i 0) in
      let e = how_many-agree (update zone i 0) zone x (i + 1) (i + 1) n (λ k lt. ground arith) in
      rw (other, h ∙ e) refl
]

free_direct-zone :
    (i n : ℕ) (zone : ℕ → ℕ) (k : ℕ)
    → (free_direct i n zone).1 k ≡ (if leb i k && ltb k (i + n) then 0 else zone k)
unfolding free_direct
free_direct-zone i zero zone k = ground arith
free_direct-zone i (suc n) zone k = elim (Bool-cases (zone i == 0)) [
  | inl z ↦
      let h = free_direct-zone (i + 1) n zone k in
      let z0 : zone i ≡ 0 = (==_iff (zone i) 0).0 z in
      let here : i ≡ k → zone k ≡ 0 = λ e. rw e at z0 in
      rw (z, h)
        (elim (Bool-cases (i == k)) [
          | inl same ↦ let zk = here (ground arith) in ground arith
          | inr apart ↦ ground arith
        ])
  | inr other ↦
      let h = free_direct-zone (i + 1) n (update zone i 0) k in rw (other, h) (ground arith)
]

module _ (readable : ℕ → Bool) (s : File) where
  -- The block of the device that has a block of the file, as `bmap` finds it.
  abbrev pub found : ℕ → ℕ
  found b = at readable s (way b)

  -- How often a block is one of those of block numbers.
  abbrev pub as_index : (x : ℕ) → ℕ
  as_index x =
      once (s.i_zone 7 == x)
      + once (s.i_zone 8 == x)
      + how_many (named readable s (s.i_zone 8)) x 0 512

  found-count :
      (x : ℕ)
      → how_many found x 0 most_blocks
        ≡ how_many s.i_zone x 0 7
          + how_many (named readable s (s.i_zone 7)) x 0 512
          + how_many (through_two readable s (s.i_zone 8)) x 0 (512 * 512)
  found-count x =
      let direct =
        how_many-agree found s.i_zone x 0 0 7
          (λ k lt. let low : ltb (0 + k) 7 ≡ true = ground arith in rw low refl) in
      let one = how_many-agree found (named readable s (s.i_zone 7)) x (0 + 7) 0 512 (λ k lt.
        let high : ltb (0 + 7 + k) 7 ≡ false = ground arith in
        let low : ltb (0 + 7 + k) 519 ≡ true = ground arith in
        let less : 0 + 7 + k - 7 ≡ 0 + k = omega arith in rw (high, low, less) refl) in
      let two =
        how_many-agree found (through_two readable s (s.i_zone 8)) x (0 + 7 + 512) 0 (512 * 512)
          (λ k lt.
            let high : ltb (0 + 7 + 512 + k) 7 ≡ false = ground arith in
            let high' : ltb (0 + 7 + 512 + k) 519 ≡ false = ground arith in
            let less : 0 + 7 + 512 + k - 519 ≡ 0 + k = omega arith in
            rw (high, high', less) refl) in
      let split = how_many-add found x 0 (7 + 512) (512 * 512) in
      let split' = how_many-add found x 0 7 512 in omega (arith, direct, one, two, split, split')

-- What `truncate` does to an inode: nothing, if it is neither a file nor a directory. Otherwise it
-- calls `free_block` for a block as often as the file names it, as one of its own or as a block of
-- block numbers, and afterwards the file has no block and no byte.
pub data TruncateOut (readable : ℕ → Bool) (now : ℕ) (node : Node) : List ℕ × Node → Type 0 where
  left : has_blocks node.i_mode ≡ false → TruncateOut readable now node ([], node)
  truncated :
      {r : List ℕ × Node}
      → has_blocks node.i_mode ≡ true
      → ((x : ℕ)
          → x ≢ 0
          → count x r.0
            ≡ how_many (found readable node.file) x 0 most_blocks + as_index readable node.file x)
      → ((later b : ℕ) → b < most_blocks → bmap readable later b r.1.file ≡ some (0, r.1.file))
      → r.1.i_size ≡ 0
      → r.1.i_mtime ≡ now
      → TruncateOut readable now node r

abbrev cleared : File → (ℕ → ℕ) → ℕ → File
cleared f zone now = record f {
  i_zone = update (update zone 7 0) 8 0;
  i_dirt = true;
  i_ctime = now;
}

-- With its zones cleared the file has no blocks.
cleared-bmap :
    (readable : ℕ → Bool) (f : File) (zone : ℕ → ℕ) (now : ℕ)
    → ((k : ℕ) → k < 7 → zone k ≡ 0)
    → (later b : ℕ) → b < most_blocks
    → bmap readable later b (cleared f zone now) ≡ some (0, cleared f zone now)
cleared-bmap readable f zone now none_ later b lt =
    let s = cleared f zone now in
    let none_found : found readable s b ≡ 0 = elim (Bool-cases (ltb b 7)) [
      | inl low ↦
          let off : (7 == b) ≡ false = ground arith in
          let off' : (8 == b) ≡ false = ground arith in rw (low, off, off') (none_ b (ground arith))
      | inr high ↦ elim (Bool-cases (ltb b 519)) [
        | inl one ↦ rw (high, one) refl
        | inr two ↦ rw (high, two) refl
      ]
    ] in
    bmap-way readable s later b lt ∙ ap (λ q. some (q, s)) none_found

freed-count :
    (readable : ℕ → Bool) (f : File) (x : ℕ)
    → x ≢ 0
    → count x (
        (free_direct 0 7 f.i_zone).0
        ++ free_ind readable f.entry ((free_direct 0 7 f.i_zone).1 7)
        ++ free_dind readable f.entry ((free_direct 0 7 f.i_zone).1 8))
      ≡ how_many (found readable f) x 0 most_blocks + as_index readable f x
freed-count readable f x nz =
    let direct = (free_direct 0 7 f.i_zone).0 in
    let ind = free_ind readable f.entry (f.i_zone 7) in
    let dind = free_dind readable f.entry (f.i_zone 8) in
    let split = count-append x (direct ++ ind) dind in
    let split' = count-append x direct ind in
    let d = free_direct-count x nz 0 7 f.i_zone in
    let i = free_ind-count readable f x nz (f.i_zone 7) in
    let dd = free_dind-count readable f x nz (f.i_zone 8) in
    let all = found-count readable f x in
    rw (free_direct-zone 0 7 f.i_zone 7, free_direct-zone 0 7 f.i_zone 8)
      (omega (arith, split, split', d, i, dd, all))

-- For a file or a directory, over blocks of block numbers that may be unreadable, `truncate` frees every
-- block as often as the file names it, and afterwards `bmap` finds no block, and the size is 0; it
-- leaves other inodes as they are.
pub truncate-TruncateOut :
    (readable : ℕ → Bool) (now : ℕ) (node : Node)
    → TruncateOut readable now node (truncate readable now node)
unfolding truncate
truncate-TruncateOut readable now node = elim (Bool-cases (has_blocks node.i_mode)) [
  | inr other ↦ rw other (left other)
  | inl kind ↦
      let f = node.file in
      let zone = (free_direct 0 7 f.i_zone).1 in
      rw kind (
        truncated kind (λ x nz. freed-count readable f x nz)
          (λ later b lt.
            cleared-bmap readable f zone now (λ k l. free_direct-zone 0 7 f.i_zone k ∙ ground arith)
              later b lt)
          refl refl)
]
