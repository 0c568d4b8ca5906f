-- ===== src/FileData/Storing.antt =====
-- The bytes of a file under the stores of `file_write`, and under a block that is new.
use linux_0_11_learning.Base.{
  ℕ, suc, ◌+◌, ◌/◌, ◌%◌, ◌≤◌, ◌<◌, ◌≡◌, ◌≢◌, refl, sym, ◌∙◌, ◌⊎◌, inl, inr, true, false, List, [],
  ◌∷◌, ◌++◌, ◌==◌, if◌then◌else◌, arith, Bool-cases, length,
}
use linux_0_11_learning.FileData.{File, block_size, update, create_block, store, put_chunk}

-- The byte of the file at a position, where every block can be read: 0 in a hole.
unfoldable pub content : File → ℕ → ℕ
content s p = let nr = s.zone (p / block_size) in if nr == 0 then 0 else s.byte nr (p % block_size)

-- A block of none of the others.
abbrev pub NotIn : ℕ → List ℕ → Type 0
NotIn z [] = Unit {0}
NotIn z (y ∷ ys) = (z ≢ y) × NotIn z ys

-- The blocks to give out are different blocks that the file does not have.
abbrev pub Fresh : (ℕ → ℕ) → List ℕ → Type 0
Fresh zone [] = Unit {0}
Fresh zone (z ∷ zs) = (z ≢ 0) × ((k : ℕ) → zone k ≢ z) × NotIn z zs × Fresh zone zs

-- No block stands for two blocks of the file, and all can be read.
pub record IsFile (s : File) : Type 0 where
  pub distinct : (i j : ℕ) → s.zone i ≢ 0 → s.zone i ≡ s.zone j → i ≡ j
  pub fresh : Fresh s.zone s.free
  pub can_read : (b : ℕ) → s.readable b ≡ true

-- Storing byte by byte.
pub store_outside :
    (bs : List ℕ) (f : ℕ → ℕ) (p q : ℕ) → (q < p) ⊎ (p + length bs ≤ q) → store f p bs q ≡ f q
unfolding store
store_outside [] f p q h = refl
store_outside (b ∷ bs) f p q h =
    let other : (p == q) ≡ false = elim h [ inl lt ↦ ground arith | inr le ↦ ground arith ] in
    store_outside bs (update f p b) (p + 1) q
      (elim h [ inl lt ↦ inl (omega arith) | inr le ↦ inr (omega arith) ])
    ∙ rw other refl

pub store-append :
    (xs ys : List ℕ) (f : ℕ → ℕ) (p : ℕ)
    → store f p (xs ++ ys) ≡ store (store f p xs) (p + length xs) ys
unfolding store
store-append [] ys f p = let e : p + 0 ≡ p = omega arith in rw e refl
store-append (x ∷ xs) ys f p =
    let e : p + 1 + length xs ≡ p + suc (length xs) = omega arith in
    store-append xs ys (update f p x) (p + 1) ∙ rw e refl

-- In one block, storing in the block is storing in the file.
store_block :
    (bs : List ℕ) (f g : ℕ → ℕ) (p q : ℕ)
    → q / block_size ≡ p / block_size
    → p % block_size + length bs ≤ block_size
    → f (q % block_size) ≡ g q
    → store f (p % block_size) bs (q % block_size) ≡ store g p bs q
unfolding store
store_block [] f g p q same fits e = e
store_block (b ∷ []) f g p q same fits e = elim (Bool-cases (p == q)) [
  | inl at ↦
      let here : (p % block_size == q % block_size) ≡ true = ground arith in rw (at, here) refl
  | inr off ↦
      let there : (p % block_size == q % block_size) ≡ false = ground arith in rw (off, there) e
]
store_block (b ∷ c ∷ bs) f g p q same fits e =
    let next : (p + 1) % block_size ≡ p % block_size + 1 = omega arith in
    let e' : update f (p % block_size) b (q % block_size) ≡ update g p b q =
      elim (Bool-cases (p == q)) [
        | inl at ↦
            let here : (p % block_size == q % block_size) ≡ true = ground arith in
            rw (at, here) refl
        | inr off ↦
            let there : (p % block_size == q % block_size) ≡ false = ground arith in
            rw (off, there) e
      ] in
    let ih =
      store_block (c ∷ bs) (update f (p % block_size) b) (update g p b) (p + 1) q (omega arith)
        (omega arith) e' in
    rw next at ih

module _ (s : File) (ok : IsFile s) where
  pub put_chunk-content :
      (block p q : ℕ) (bs : List ℕ)
      → block ≢ 0
      → block ≡ s.zone (p / block_size)
      → p % block_size + length bs ≤ block_size
      → content (put_chunk block p bs s) q ≡ store (content s) p bs q
  unfolding content put_chunk
  put_chunk-content block p q bs nz e fits =
      let there : (block == 0) ≡ false = ground arith in
      elim (Bool-cases (q / block_size == p / block_size)) [
        | inl at ↦
            let same : q / block_size ≡ p / block_size = ground arith in
            let zone : s.zone (q / block_size) ≡ block = rw same (sym e) in
            let self : (block == block) ≡ true = ground arith in
            let old : s.byte block (q % block_size) ≡ content s q =
              rw (content, zone, there) refl in
            rw (zone, there, self) (store_block bs (s.byte block) (content s) p q same fits old)
        | inr off ↦
            let apart : q / block_size ≢ p / block_size = ground arith in
            let out : (q < p) ⊎ (p + length bs ≤ q) = omega arith in
            let other : (block == s.zone (q / block_size)) ≡ false =
              ground (arith, ok.distinct (p / block_size) (q / block_size)) in
            rw other (sym (store_outside bs (content s) p q out))
      ]

  pub put_chunk-IsFile : (block p : ℕ) (bs : List ℕ) → IsFile (put_chunk block p bs s)
  unfolding put_chunk
  put_chunk-IsFile block p bs = record {
    distinct = ok.distinct;
    fresh = ok.fresh;
    can_read = ok.can_read;
  }

Fresh-update :
    (zone : ℕ → ℕ) (k z : ℕ) (zs : List ℕ) → NotIn z zs → Fresh zone zs → Fresh (update zone k z) zs
Fresh-update zone k z [] n f = tt
Fresh-update zone k z (y ∷ ys) n f = (
  f.0,
  λ j. elim (Bool-cases (k == j)) [ inl at ↦ rw at n.0 | inr off ↦ rw off (f.1 j) ],
  f.2,
  Fresh-update zone k z ys n.1 f.3,
)

-- A block of the file is there, and the file has the same bytes; or there is none, and none is free.
pub data Made (k : ℕ) (s : File) : ℕ × File → Type 0 where
  made :
      {b : ℕ} {s' : File}
      → b ≢ 0
      → s'.zone k ≡ b
      → IsFile s'
      → ((q : ℕ) → content s' q ≡ content s q)
      → s'.i_size ≡ s.i_size
      → Made k s (b, s')
  none_free : s.free ≡ [] → Made k s (0, s)

abbrev with_block : (now k z : ℕ) (zs : List ℕ) → File → File
with_block now k z zs s = record s {
  zone = update s.zone k z;
  byte = update s.byte z (λ i. 0);
  b_dirt = update s.b_dirt z true;
  free = zs;
  i_dirt = true;
  i_ctime = now;
}

with_block-IsFile :
    (now k z : ℕ) (zs : List ℕ) (s : File)
    → IsFile s
    → Fresh s.zone (z ∷ zs)
    → IsFile (with_block now k z zs s)
with_block-IsFile now k z zs s ok (nz, new, others, f) = record {
  distinct = λ i j. elim (Bool-cases (k == i)) [
    | inl ei ↦ elim (Bool-cases (k == j)) [
      | inl ej ↦ rw (ei, ej) (λ n e. ground arith)
      | inr nj ↦ rw (ei, nj) (λ n e. absurd (new j (sym e)))
    ]
    | inr ni ↦ elim (Bool-cases (k == j)) [
      | inl ej ↦ rw (ni, ej) (λ n e. absurd (new i e))
      | inr nj ↦ rw (ni, nj) (ok.distinct i j)
    ]
  ];
  fresh = Fresh-update s.zone k z zs others f;
  can_read = ok.can_read;
}

with_block-content :
    (now k z : ℕ) (zs : List ℕ) (s : File)
    → s.zone k ≡ 0
    → Fresh s.zone (z ∷ zs)
    → (q : ℕ) → content (with_block now k z zs s) q ≡ content s q
unfolding content
with_block-content now k z zs s hole (nz, new, others, f) q =
    elim (Bool-cases (k == q / block_size)) [
      | inl at ↦
          let same : k ≡ q / block_size = ground arith in
          let was : s.zone (q / block_size) ≡ 0 = rw (← same) hole in
          let self : (z == z) ≡ true = ground arith in
          let there : (z == 0) ≡ false = ground arith in rw (at, self, there, was) refl
      | inr off ↦
          let apart = new (q / block_size) in
          let other : (z == s.zone (q / block_size)) ≡ false = ground arith in rw (off, other) refl
    ]

create_block-there :
    (now k : ℕ) (s : File) → (s.zone k == 0) ≡ false → create_block now k s ≡ (s.zone k, s)
unfolding create_block
create_block-there now k s e = rw e refl

create_block-hole :
    (now k : ℕ) (s : File)
    → (s.zone k == 0) ≡ true
    → (free : List ℕ) → s.free ≡ free
    → create_block now k s ≡ elim free [ [] ↦ (0, s) | z ∷ zs ↦ (z, with_block now k z zs s) ]
unfolding create_block
create_block-hole now k s e free f = rw (e, f, create_block) refl

pub create_block-Made :
    (now k : ℕ) (s : File)
    → IsFile s
    → (free : List ℕ) → s.free ≡ free
    → Made k s (create_block now k s)
create_block-Made now k s ok free f = elim (Bool-cases (s.zone k == 0)) [
  | inr there ↦ rw (create_block-there now k s there) (made (ground arith) refl ok (λ q. refl) refl)
  | inl hole ↦ rw (create_block-hole now k s hole free f) (gets hole free f)
]
  where
    gets :
        (s.zone k == 0) ≡ true
        → (free : List ℕ) → s.free ≡ free
        → Made k s (elim free [ [] ↦ (0, s) | z ∷ zs ↦ (z, with_block now k z zs s) ])
    gets hole [] f = none_free f
    gets hole (z ∷ zs) f =
        let was : s.zone k ≡ 0 = ground arith in
        let new : Fresh s.zone (z ∷ zs) = rw f at ok.fresh in
        let self : (k == k) ≡ true = ground arith in
        made new.0 (rw self refl) (with_block-IsFile now k z zs s ok new)
          (with_block-content now k z zs s was new) refl
