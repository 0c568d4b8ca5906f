-- ===== src/Directory/Added.antt =====
-- `add_entry` takes the first slot that is free, and gets a block for it where there is none.
use linux_0_11_learning.Base.{
  ℕ, zero, suc, ◌+◌, ◌*◌, ◌/◌, ◌%◌, ◌≤◌, ◌<◌, ◌≡◌, ◌≢◌, refl, sym, ap, ◌∙◌, inl, inr, Bool, true,
  false, Option, none, some, List, [], ◌∷◌, leb, ◌==◌, arith, Bool-cases, ==_iff, count,
}
use linux_0_11_learning.Directory.{Entry, Directory, Found, entries, has_block}
use linux_0_11_learning.Directory.Finding.{At, At-next}
use linux_0_11_learning.Directory.Adding.{
  Growing, got_block, create_block, grow, write_name, at_slot, add_loop,
}

abbrev pub slot : Directory → ℕ → Entry
slot d k = d.entry (d.zone (k / 64)) (k % 64)

-- A directory whose blocks are apart, and not among those that are free, which can be read; whose size
-- is one of whole slots, and which has no blocks behind its end.
pub record IsGrowing (g : Growing) : Type 0 where
  pub apart : (a b : ℕ) → g.dir.zone a ≢ 0 → g.dir.zone a ≡ g.dir.zone b → a ≡ b
  pub fresh :
      (z : ℕ)
      → 0 < count z g.free
      → (z ≢ 0) × (g.dir.readable z ≡ true) × ((b : ℕ) → g.dir.zone b ≢ z)
  pub whole : g.dir.i_size % 16 ≡ 0
  pub no_more : (b : ℕ) → entries g.dir ≤ 64 * b → g.dir.zone b ≡ 0

-- The slots before `j` that can be read are in use.
abbrev pub InUse : Growing → ℕ → Type 0
InUse g j =
    (k : ℕ)
    → k < j
    → has_block g.dir (g.dir.zone (k / 64)) ≡ true
    → (k < entries g.dir) × (((slot g.dir k).inode == 0) ≡ false)

-- What the loop ends with: no block for a slot; or the first slot that is free, in the block of the
-- file, or in a new one.
pub data Looped (now : ℕ) (name : List ℕ) (g : Growing) : Option Found × Growing → Type 0 where
  full : {g' : Growing} → g.free ≡ [] → Looped now name g (none, g')
  added :
      (j z : ℕ) {g1 : Growing}
      → create_block now (j / 64) g ≡ (z, g1)
      → z ≢ 0
      → g.dir.readable z ≡ true
      → InUse g j
      → (g.dir.zone (j / 64) ≡ 0 → j % 64 ≡ 0)
      → Looped now name g (
        some (record { block = z; at = j % 64 }),
        write_name now name z (j % 64) (grow now j z (j % 64) g1),
      )

grow-end :
    (now i block k : ℕ) (g : Growing)
    → leb g.dir.i_size (i * 16) ≡ true
    → (((grow now i block k g).dir.entry block k).inode == 0) ≡ true
unfolding grow
grow-end now i block k g over = rw over (ground arith)

grow-inside :
    (now i block k : ℕ) (g : Growing) → leb g.dir.i_size (i * 16) ≡ false → grow now i block k g ≡ g
unfolding grow
grow-inside now i block k g inside = rw inside refl

create_block-old :
    (now b : ℕ) (g : Growing)
    → (g.dir.zone b == 0) ≡ false
    → create_block now b g ≡ (g.dir.zone b, g)
unfolding create_block
create_block-old now b g old = rw old refl

-- A block that was not there: no block is free, or the first of those is full of free entries.
pub data New (g : Growing) (free : List ℕ) : ℕ × Growing → Type 0 where
  none_free : {g1 : Growing} → free ≡ [] → New g free (0, g1)
  got :
      {z : ℕ} {g1 : Growing}
      → 0 < count z free
      → ((k : ℕ) → (g1.dir.entry z k).inode ≡ 0)
      → New g free (z, g1)

got_block-New : (now b : ℕ) (free : List ℕ) (g : Growing) → New g free (got_block now b free g)
unfolding got_block count
got_block-New now b [] g = none_free refl
got_block-New now b (z ∷ zs) g = got (ground arith) (λ k. ground arith)

create_block-New :
    (now b : ℕ) (g : Growing) → (g.dir.zone b == 0) ≡ true → New g g.free (create_block now b g)
unfolding create_block
create_block-New now b g new = rw new (got_block-New now b g.free g)

New-made :
    {g : Growing} {free : List ℕ} {r r' : ℕ × Growing} → r ≡ r' → New g free r → New g free r'
New-made e n = rw (← e) n

New-taken :
    {g g1 : Growing} {free : List ℕ} {z : ℕ}
    → z ≢ 0
    → New g free (z, g1)
    → (k : ℕ) → ((g1.dir.entry z k).inode == 0) ≡ true
New-taken there (none_free e) k = absurd (there refl)
New-taken there (got c zeros) k = let z = zeros k in ground arith

pub clash : {A : Type 0} {b : Bool} → b ≡ true → b ≡ false → A
clash t f = absurd (ground arith)

module _ (now : ℕ) (name : List ℕ) (g : Growing) (ok : IsGrowing g) where
  at_slot-Looped :
      (i k z : ℕ) (g1 : Growing) (later : Growing → Option Found × Growing)
      → create_block now (i / 64) g ≡ (z, g1)
      → z ≢ 0
      → g.dir.readable z ≡ true
      → k ≡ i % 64
      → InUse g i
      → (g.dir.zone (i / 64) ≡ 0 → i % 64 ≡ 0)
      → (i < entries g.dir
          → z ≡ g.dir.zone (i / 64)
          → ((slot g.dir i).inode == 0) ≡ false
          → Looped now name g (later g))
      → Looped now name g (at_slot now name i k z g1 later)
  unfolding at_slot
  at_slot-Looped i k z g1 later made there reads e used start goes_on =
      elim (Bool-cases (((grow now i z k g1).dir.entry z k).inode == 0)) [
        | inl free ↦ rw (free, e) (added i z made there reads used start)
        | inr taken ↦ elim (Bool-cases (leb g1.dir.i_size (i * 16))) [
          | inl over ↦ clash (grow-end now i z k g1 over) taken
          | inr inside ↦
              let same = grow-inside now i z k g1 inside in
              let taken1 : ((g1.dir.entry z k).inode == 0) ≡ false = rw same at taken in
              elim (Bool-cases (g.dir.zone (i / 64) == 0)) [
                | inl new ↦
                    let n = New-made made (create_block-New now (i / 64) g new) in
                    clash (New-taken there n k) taken1
                | inr old ↦
                    let m = sym made ∙ create_block-old now (i / 64) g old in
                    let mz : z ≡ g.dir.zone (i / 64) = ap (λ p. p.0) m in
                    let mg : g1 ≡ g = ap (λ p. p.1) m in
                    let size = ok.whole in
                    let more : i < entries g.dir = let s = rw mg at inside in ground arith in
                    let busy : ((slot g.dir i).inode == 0) ≡ false = rw (mz, mg, e) at taken1 in
                    rw (taken, same, mg) (goes_on more mz busy)
              ]
        ]
      ]

  -- A block that cannot be read is passed over.
  InUse-pass :
      (i : ℕ)
      → i % 64 ≡ 0
      → g.dir.readable (g.dir.zone (i / 64)) ≡ false
      → InUse g i
      → InUse g (i + 64)
  InUse-pass i start lost used k lt has = elim (Bool-cases (leb i k)) [
    | inl behind ↦
        let le : i ≤ k = ground arith in
        let same : k / 64 ≡ i / 64 = omega arith in
        let l = rw (← same) at lost in absurd (ground arith)
    | inr before ↦ used k (ground arith) has
  ]

  InUse-suc :
      (i : ℕ)
      → InUse g i
      → i < entries g.dir
      → ((slot g.dir i).inode == 0) ≡ false
      → InUse g (i + 1)
  InUse-suc i used more busy k lt has = elim (Bool-cases (i == k)) [
    | inl same ↦ let e : i ≡ k = ground arith in (omega arith, rw (← e) busy)
    | inr apart ↦ used k (ground arith) has
  ]

  New-fresh : {z : ℕ} {g1 : Growing} → z ≢ 0 → New g g.free (z, g1) → 0 < count z g.free
  New-fresh there (none_free e) = absurd (there refl)
  New-fresh there (got c zeros) = c

  New-none : {z : ℕ} {g1 : Growing} → z ≡ 0 → New g g.free (z, g1) → g.free ≡ []
  New-none e (none_free f) = f
  New-none e (got c zeros) = absurd ((ok.fresh _ c).0 e)

  no_block : (b : ℕ) → (create_block now b g).0 ≡ 0 → g.free ≡ []
  no_block b e = elim (Bool-cases (g.dir.zone b == 0)) [
    | inl new ↦ New-none e (create_block-New now b g new)
    | inr old ↦
        let z : g.dir.zone b ≡ 0 = sym (ap (λ p. p.0) (create_block-old now b g old)) ∙ e in
        absurd (ground arith)
  ]

  lost-old :
      (b : ℕ)
      → (create_block now b g).0 ≢ 0
      → g.dir.readable (create_block now b g).0 ≡ false
      → (g.dir.zone b == 0) ≡ false
  lost-old b there lost = elim (Bool-cases (g.dir.zone b == 0)) [
    | inl new ↦ clash (ok.fresh _ (New-fresh there (create_block-New now b g new))).1 lost
    | inr old ↦ old
  ]

  below_end : (i : ℕ) → i % 64 ≡ 0 → (g.dir.zone (i / 64) == 0) ≡ false → i < entries g.dir
  below_end i start old = elim (Bool-cases (leb (entries g.dir) i)) [
    | inl behind ↦
        let z = ok.no_more (i / 64) (let b : entries g.dir ≤ i = ground arith in omega arith) in
        absurd (ground arith)
    | inr more ↦ ground arith
  ]

  pub add_loop-Looped :
      (fuel i k block : ℕ)
      → entries g.dir + 64 < fuel + i
      → i ≤ entries g.dir + 64
      → At g.dir name i k block
      → InUse g i
      → Looped now name g (add_loop fuel now name i k block g)
  unfolding add_loop
  add_loop-Looped zero i k block h near at used = absurd (omega arith)
  add_loop-Looped (suc fuel) i k block h near (inr (fits, e, b, has)) used =
      let inside : (k == 64) ≡ false = ground arith in
      let there : block ≢ 0 = λ z. ground arith in
      let reads : g.dir.readable block ≡ true = ground arith in
      let some_ : (block == 0) ≡ false = ground arith in
      let old : (g.dir.zone (i / 64) == 0) ≡ false = rw b at some_ in
      let made : create_block now (i / 64) g ≡ (block, g) =
        rw b (create_block-old now (i / 64) g old) in
      rw inside (
        at_slot-Looped i k block g _ made there reads e used (λ new. absurd (there (b ∙ new)))
          (λ more mz busy.
            add_loop-Looped fuel (i + 1) (k + 1) block (omega arith) (omega arith)
              (At-next g.dir name i k block fits e b has) (InUse-suc i used more busy)))
  add_loop-Looped (suc fuel) i k block h near (inl (e, start)) used =
      let z = (create_block now (i / 64) g).0 in
      let g1 = (create_block now (i / 64) g).1 in
      elim (Bool-cases (z == 0)) [
        | inl none_ ↦ rw (e, none_) (full (no_block (i / 64) ((==_iff z 0).0 none_)))
        | inr there_ ↦
            let there : z ≢ 0 = λ q. ground arith in
            elim (Bool-cases (g.dir.readable z)) [
              | inr lost ↦
                  let old = lost-old (i / 64) there lost in
                  let m = create_block-old now (i / 64) g old in
                  let more = below_end i start old in
                  let lost' : g.dir.readable (g.dir.zone (i / 64)) ≡ false = rw m at lost in
                  let rest =
                    add_loop-Looped fuel (i + 64) 64 block (omega arith) (omega arith)
                      (inl (refl, omega arith)) (InUse-pass i start lost' used) in
                  rw (e, m, old, lost') rest
              | inl reads ↦
                  rw (e, there_, reads)
                    (at_slot-Looped i 0 z g1 _ refl there reads (omega arith) used (λ new. start)
                      (λ more mz busy.
                        add_loop-Looped fuel (i + 1) 1 z (omega arith) (omega arith)
                          (At-next g.dir name i 0 z (omega arith) (omega arith) mz (ground arith))
                          (InUse-suc i used more busy)))
            ]
      ]
