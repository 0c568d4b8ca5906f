-- ===== src/Directory/Filled.antt =====
-- The slots before the one that `add_entry` fills stay as they are, and that one has the name.
use linux_0_11_learning.Base.{
  ℕ, zero, suc, ◌+◌, ◌-◌, ◌*◌, ◌/◌, ◌%◌, ◌≤◌, ◌<◌, ◌≡◌, ◌≢◌, refl, sym, ap, ◌∙◌, inl, inr, true,
  false, List, [], ◌∷◌, ◌++◌, ltb, leb, ◌==◌, ◌&&◌, if◌then◌else◌, arith, Bool-cases, ==_iff,
  length, count, replicate, get_or,
}
use linux_0_11_learning.Directory.{Directory, Found, entries, has_block, matches, same_bytes}
use linux_0_11_learning.Directory.Slots.{has_name}
use linux_0_11_learning.Directory.Adding.{
  Growing, padded, got_block, create_block, put_entry, grow, write_name,
}
use linux_0_11_learning.Directory.Added.{slot, IsGrowing}

-- What the callers do with the slot: `de->inode = inode->i_num`.
abbrev pub with_inode : (nr : ℕ) → Found → Directory → Directory
with_inode nr f d = put_entry f.block f.at (record (d.entry f.block f.at) { inode = nr }) d

-- What a block of the file that `create_block` gives changes.
pub record Made (g : Growing) (b z : ℕ) (g1 : Growing) : Type 0 where
  pub zone : (c : ℕ) → g1.dir.zone c ≡ (if b == c then z else g.dir.zone c)
  pub others : (q k : ℕ) → q ≢ z → g1.dir.entry q k ≡ g.dir.entry q k
  pub kept :
      g.dir.zone b ≢ 0 → (z ≡ g.dir.zone b) × ((q k : ℕ) → g1.dir.entry q k ≡ g.dir.entry q k)
  pub fresh : g.dir.zone b ≡ 0 → 0 < count z g.free
  pub reads : (q : ℕ) → g1.dir.readable q ≡ g.dir.readable q
  pub size : g1.dir.i_size ≡ g.dir.i_size

got_block-Made :
    (now b : ℕ) (free : List ℕ) (g : Growing)
    → free ≡ g.free
    → g.dir.zone b ≡ 0
    → (got_block now b free g).0 ≢ 0
    → Made g b (got_block now b free g).0 (got_block now b free g).1
unfolding got_block count
got_block-Made now b [] g is new there = absurd (there refl)
got_block-Made now b (z ∷ zs) g is new there = record {
  zone = λ c. refl;
  others = λ q k apart. ground arith;
  kept = λ old. absurd (old new);
  fresh = λ e. rw (← is) (ground arith);
  reads = λ q. refl;
  size = refl;
}

pub create_block-Made :
    (now b : ℕ) (g : Growing)
    → (create_block now b g).0 ≢ 0
    → Made g b (create_block now b g).0 (create_block now b g).1
unfolding create_block
create_block-Made now b g there = elim (Bool-cases (g.dir.zone b == 0)) [
  | inl new ↦
      rw new
        (got_block-Made now b g.free g refl ((==_iff (g.dir.zone b) 0).0 new) (rw new at there))
  | inr old ↦ rw old (record {
    zone = λ c. elim (Bool-cases (b == c)) [
      | inl same ↦ let e : b ≡ c = ground arith in rw (same, e) refl
      | inr apart ↦ rw apart refl
    ];
    others = λ q k apart. refl;
    kept = λ o. (refl, λ q k. refl);
    fresh = λ e. absurd (ground arith);
    reads = λ q. refl;
    size = refl;
  })
]

-- The directory after the slot `j` was filled.
abbrev pub filled : (now nr : ℕ) → (name : List ℕ) → (j z : ℕ) → Growing → Directory
filled now nr name j z g1 =
    with_inode nr (record { block = z; at = j % 64 })
      (write_name now name z (j % 64) (grow now j z (j % 64) g1)).dir

module _ (now nr : ℕ) (name : List ℕ) (j z : ℕ) (g1 : Growing) where
  filled-entry :
      (q k : ℕ)
      → (filled now nr name j z g1).entry q k ≡ (
          if z == q && j % 64 == k
          then record { inode = nr; name = padded name }
          else g1.dir.entry q k)
  unfolding grow write_name
  filled-entry q k =
      let zz : (z == z) ≡ true = ground arith in
      let kk : (j % 64 == j % 64) ≡ true = ground arith in
      elim (Bool-cases (leb g1.dir.i_size (j * 16))) [
        | inl over ↦ elim (Bool-cases (z == q)) [
          | inl same ↦
              let e : z ≡ q = (==_iff z q).0 same in
              elim (Bool-cases (j % 64 == k)) [
                | inl at ↦ rw (over, same, at, zz, kk) refl
                | inr off ↦ rw (over, same, off, zz) (rw off (ap (λ p. g1.dir.entry p k) e))
              ]
          | inr apart ↦ rw (over, apart) refl
        ]
        | inr inside ↦ elim (Bool-cases (z == q)) [
          | inl same ↦
              let e : z ≡ q = (==_iff z q).0 same in
              elim (Bool-cases (j % 64 == k)) [
                | inl at ↦ rw (inside, same, at, zz, kk) refl
                | inr off ↦ rw (inside, same, off, zz) (rw off (ap (λ p. g1.dir.entry p k) e))
              ]
          | inr apart ↦ rw (inside, apart) refl
        ]
      ]

  filled-zone : (b : ℕ) → (filled now nr name j z g1).zone b ≡ g1.dir.zone b
  unfolding grow write_name
  filled-zone b = elim (Bool-cases (leb g1.dir.i_size (j * 16))) [
    | inl over ↦ rw over refl
    | inr inside ↦ rw inside refl
  ]

  filled-readable : (q : ℕ) → (filled now nr name j z g1).readable q ≡ g1.dir.readable q
  unfolding grow write_name
  filled-readable q = elim (Bool-cases (leb g1.dir.i_size (j * 16))) [
    | inl over ↦ rw over refl
    | inr inside ↦ rw inside refl
  ]

  filled-size :
      (filled now nr name j z g1).i_size
      ≡ (if leb g1.dir.i_size (j * 16) then (j + 1) * 16 else g1.dir.i_size)
  unfolding grow write_name
  filled-size = elim (Bool-cases (leb g1.dir.i_size (j * 16))) [
    | inl over ↦ rw over refl
    | inr inside ↦ rw inside refl
  ]

same_bytes-append : (name rest : List ℕ) → same_bytes name (name ++ rest) ≡ true
unfolding same_bytes
same_bytes-append [] rest = refl
same_bytes-append (c ∷ cs) rest = ground (arith, same_bytes-append cs rest)

get_or-zeros : (name : List ℕ) (n : ℕ) → get_or (name ++ replicate n 0) (length name) 0 ≡ 0
get_or-zeros [] zero = refl
get_or-zeros [] (suc n) = refl
get_or-zeros (c ∷ cs) n = get_or-zeros cs n

-- A slot in use with the name, padded, matches it.
matches-padded :
    (nr : ℕ) (name : List ℕ)
    → nr ≢ 0
    → length name ≤ 14
    → matches name (record { inode = nr; name = padded name }) ≡ true
unfolding matches
matches-padded nr name used short =
    let a : (nr == 0) ≡ false = ground arith in
    let b : ltb 14 (length name) ≡ false = ground arith in
    let z : (get_or (padded name) (length name) 0 == 0) ≡ true =
      rw (get_or-zeros name (14 - length name)) refl in
    let s = same_bytes-append name (replicate (14 - length name) 0) in
    elim (Bool-cases (ltb (length name) 14)) [
      | inl lt ↦ rw (a, b, lt, z) s
      | inr ge ↦ rw (a, b, ge) s
    ]

module _ (now nr : ℕ) (name : List ℕ) (g : Growing) (ok : IsGrowing g) (j z : ℕ) (g1 : Growing)
    (made : Made g (j / 64) z g1) (there : z ≢ 0) (reads : g.dir.readable z ≡ true)
    (start : g.dir.zone (j / 64) ≡ 0 → j % 64 ≡ 0) where
  abbrev d2 : Directory
  d2 = filled now nr name j z g1

  zone-before : (k : ℕ) → k < j → d2.zone (k / 64) ≡ g.dir.zone (k / 64)
  zone-before k lt =
      filled-zone now nr name j z g1 (k / 64)
      ∙ made.zone (k / 64)
      ∙ elim (Bool-cases (j / 64 == k / 64)) [
        | inr apart ↦ rw apart refl
        | inl same ↦
            let e : j / 64 ≡ k / 64 = (==_iff (j / 64) (k / 64)).0 same in
            let old : g.dir.zone (j / 64) ≢ 0 = λ new. let s = start new in absurd (omega arith) in
            rw same ((made.kept old).0 ∙ ap g.dir.zone e)
      ]

  entry-before :
      (k : ℕ)
      → k < j
      → has_block g.dir (g.dir.zone (k / 64)) ≡ true
      → d2.entry (g.dir.zone (k / 64)) (k % 64) ≡ slot g.dir k
  entry-before k lt has =
      filled-entry now nr name j z g1 (g.dir.zone (k / 64)) (k % 64)
      ∙ elim (Bool-cases (z == g.dir.zone (k / 64))) [
        | inr apart ↦ rw apart (made.others (g.dir.zone (k / 64)) (k % 64) (λ e. ground arith))
        | inl same ↦
            let e : z ≡ g.dir.zone (k / 64) = (==_iff z (g.dir.zone (k / 64))).0 same in
            let old : g.dir.zone (j / 64) ≢ 0 =
              λ new. absurd ((ok.fresh z (made.fresh new)).2 (k / 64) (sym e)) in
            let blocks = ok.apart (j / 64) (k / 64) old (sym (made.kept old).0 ∙ e) in
            let off : (j % 64 == k % 64) ≡ false = ground arith in
            rw (same, off) ((made.kept old).1 (g.dir.zone (k / 64)) (k % 64))
      ]

  readable-same : (q : ℕ) → d2.readable q ≡ g.dir.readable q
  readable-same q = filled-readable now nr name j z g1 q ∙ made.reads q

  pub has_name-before : (k : ℕ) → k < j → has_name d2 name k ≡ has_name g.dir name k
  has_name-before k lt = elim (Bool-cases (has_block g.dir (g.dir.zone (k / 64)))) [
    | inl has ↦
        rw (zone-before k lt, readable-same (g.dir.zone (k / 64)), entry-before k lt has) refl
    | inr lost ↦ rw (zone-before k lt, readable-same (g.dir.zone (k / 64)), lost) refl
  ]

  pub zone_j : d2.zone (j / 64) ≡ z
  zone_j =
      let jj : (j / 64 == j / 64) ≡ true = ground arith in
      filled-zone now nr name j z g1 (j / 64) ∙ made.zone (j / 64) ∙ rw jj refl

  pub has_name_j : nr ≢ 0 → length name ≤ 14 → has_name d2 name j ≡ true
  has_name_j used short =
      let zz : (z == z) ≡ true = ground arith in
      let kk : (j % 64 == j % 64) ≡ true = ground arith in
      let nz : (z == 0) ≡ false = ground arith in
      let e = filled-entry now nr name j z g1 z (j % 64) in
      rw (zone_j, readable-same z, nz, reads, e, zz, kk) (matches-padded nr name used short)

  pub inside : j < entries d2
  inside = let s = filled-size now nr name j z g1 in let s' = made.size in ground arith

  pub first_block : has_block g.dir (g.dir.zone 0) ≡ true → has_block d2 (d2.zone 0) ≡ true
  first_block has = elim (Bool-cases (j == 0)) [
    | inl first ↦
        let e : j / 64 ≡ 0 = let j0 : j ≡ 0 = (==_iff j 0).0 first in omega arith in
        let zone_0 : d2.zone 0 ≡ z = rw e at zone_j in
        let nz : (z == 0) ≡ false = ground arith in rw (zone_0, readable-same z, nz, reads) refl
    | inr later ↦
        let zone_0 : d2.zone 0 ≡ g.dir.zone 0 = zone-before 0 (ground arith) in
        rw (zone_0, readable-same (g.dir.zone 0)) has
  ]
