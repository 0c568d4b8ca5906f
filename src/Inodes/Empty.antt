-- ===== src/Inodes/Empty.antt =====
-- `get_empty_inode` finds an unused inode wherever the search begins, and prefers one that is ready.
use linux_0_11_learning.Base.{
  ℕ, zero, suc, ◌+◌, ◌-◌, ◌%◌, ◌<◌, ◌≡◌, ◌≢◌, refl, inl, inr, Bool, true, false, Option, none, some,
  leb, ◌==◌, not, ◌&&◌, arith, Bool-cases, ==_iff,
}
use linux_0_11_learning.Inodes.{
  Inode, Table, next_inode, look, Stretch, panics, waits_for, writes, got, taken, unlocked,
  found_one, get_empty_inode,
}

-- An inode that nobody uses, and that can be taken at once.
abbrev pub is_ready : Inode → Bool
is_ready i = i.i_count == 0 && (not i.i_dirt && not i.i_lock)

-- The place that the search looks at in step `k`.
abbrev pub step : (last k : ℕ) → ℕ
step last k = (last + 1 + k) % 32

-- What the search has found: an inode that is ready; or nothing more, where all that it saw are in use;
-- or an unused one, where none that it saw is ready.
data Looked (t : ℕ → Inode) (n last : ℕ) (found : Option ℕ) : Option ℕ → Type 0 where
  ready : {i : ℕ} → i < 32 → is_ready (t i) ≡ true → Looked t n last found (some i)
  nothing : ((k : ℕ) → k < n → (t (step last k)).i_count ≢ 0) → Looked t n last found found
  unready :
      {i : ℕ}
      → i < 32
      → (t i).i_count ≡ 0
      → is_ready (t i) ≡ false
      → ((k : ℕ) → k < n → is_ready (t (step last k)) ≡ false)
      → Looked t n last found (some i)

module _ (t : ℕ → Inode) where
  next-step : (last k : ℕ) → last < 32 → step (next_inode last) k ≡ step last (suc k)
  next-step last k lt = elim (Bool-cases (leb 32 (last + 1))) [
    | inl end ↦ rw end (let e : last ≡ 31 = ground arith in omega arith)
    | inr more ↦ rw more (omega arith)
  ]

  next-lt : (last : ℕ) → last < 32 → next_inode last < 32
  next-lt last lt = ground arith

  next-first : (last : ℕ) → last < 32 → next_inode last ≡ step last 0
  next-first last lt = elim (Bool-cases (leb 32 (last + 1))) [
    | inl end ↦ rw end (let e : last ≡ 31 = ground arith in omega arith)
    | inr more ↦ rw more (let e : last + 1 < 32 = ground arith in omega arith)
  ]

  -- A fact on the first step and the later ones.
  all_steps :
      (P : Inode → Type 0) (n last : ℕ)
      → last < 32
      → P (t (next_inode last))
      → ((k : ℕ) → k < n → P (t (step (next_inode last) k)))
      → (k : ℕ) → k < suc n
      → P (t (step last k))
  all_steps P n last lt first later zero less = rw (← next-first last lt) first
  all_steps P n last lt first later (suc k) less =
      rw (← next-step last k lt) (later k (omega arith))

  unready-of : (i : Inode) → i.i_count ≢ 0 → is_ready i ≡ false
  unready-of i used = ground arith

  -- The first step is over an inode in use.
  skip :
      (n last : ℕ) (found o : Option ℕ)
      → last < 32
      → (t (next_inode last)).i_count ≢ 0
      → Looked t n (next_inode last) found o
      → Looked t (suc n) last found o
  skip n last found o lt u (ready i_lt r) = ready i_lt r
  skip n last found o lt u (nothing used) =
      nothing (all_steps (λ i. i.i_count ≢ 0) n last lt u used)
  skip n last found o lt u (unready i_lt free not_ready none_) =
      unready i_lt free not_ready
        (all_steps (λ i. is_ready i ≡ false) n last lt (unready-of (t (next_inode last)) u) none_)

  -- The first step finds an inode that is not ready.
  take_note :
      (n last : ℕ) (found o : Option ℕ)
      → last < 32
      → (t (next_inode last)).i_count ≡ 0
      → is_ready (t (next_inode last)) ≡ false
      → Looked t n (next_inode last) (some (next_inode last)) o
      → Looked t (suc n) last found o
  take_note n last found o lt f r (ready i_lt r') = ready i_lt r'
  take_note n last found o lt f r (nothing used) = unready (next-lt last lt) f r (
      all_steps (λ i. is_ready i ≡ false) n last lt r
        (λ k less. unready-of (t (step (next_inode last) k)) (used k less)))
  take_note n last found o lt f r (unready i_lt free not_ready none_) =
      unready i_lt free not_ready (all_steps (λ i. is_ready i ≡ false) n last lt r none_)

  look-Looked :
      (n last : ℕ) (found : Option ℕ) → last < 32 → Looked t n last found (look n last found t).0
  unfolding look
  look-Looked zero last found lt = nothing (λ k less. absurd (omega arith))
  look-Looked (suc n) last found lt =
      let here = next_inode last in
      elim (Bool-cases ((t here).i_count == 0)) [
        | inr used ↦
            let u : (t here).i_count ≢ 0 = λ e. ground arith in
            rw used (skip n last found _ lt u (look-Looked n here found (next-lt last lt)))
        | inl free ↦
            let f : (t here).i_count ≡ 0 = (==_iff (t here).i_count 0).0 free in
            elim (Bool-cases (not (t here).i_dirt && not (t here).i_lock)) [
              | inl now ↦ rw (free, now) (ready (next-lt last lt) (rw (free, now) refl))
              | inr busy ↦
                  rw (free, busy)
                    (take_note n last found _ lt f (rw (free, busy) refl)
                      (look-Looked n here (some here) (next-lt last lt)))
            ]
      ]

-- How the search ends: all inodes are in use; or it has an unused one, which is ready, and is then taken
-- with a count of 1 and the others left; or which is locked or dirty, where none is ready.
pub data EmptyOut (s : Table) : Stretch → Type 0 where
  all_used : ((k : ℕ) → k < 32 → (s.inode_table k).i_count ≢ 0) → EmptyOut s panics
  taken_one :
      {i : ℕ} {s' : Table}
      → i < 32
      → is_ready (s.inode_table i) ≡ true
      → s'.inode_table i ≡ taken
      → ((k : ℕ) → k ≢ i → s'.inode_table k ≡ s.inode_table k)
      → EmptyOut s (got i s')
  locked_one :
      {i : ℕ} {s' : Table}
      → (s.inode_table i).i_count ≡ 0
      → (s.inode_table i).i_lock ≡ true
      → ((k : ℕ) → k < 32 → is_ready (s.inode_table k) ≡ false)
      → EmptyOut s (waits_for i s')
  dirty_one :
      {i : ℕ} {s' : Table}
      → (s.inode_table i).i_count ≡ 0
      → (s.inode_table i).i_dirt ≡ true
      → ((k : ℕ) → k < 32 → is_ready (s.inode_table k) ≡ false)
      → EmptyOut s (writes i s')

-- The steps come to every inode.
step-all : (last k : ℕ) → last < 32 → k < 32 → step last ((k + 31 - last) % 32) ≡ k
step-all last k lt less = omega arith

-- What holds of all steps holds of all inodes.
all_inodes :
    (t : ℕ → Inode) (P : Inode → Type 0) (last : ℕ)
    → last < 32
    → ((k : ℕ) → k < 32 → P (t (step last k)))
    → (k : ℕ) → k < 32
    → P (t k)
all_inodes t P last lt all k less =
    rw (step-all last k lt less) at (all ((k + 31 - last) % 32) (omega arith))

Looked-EmptyOut :
    (s : Table) (o : Option ℕ) (last : ℕ)
    → s.last_inode < 32
    → Looked s.inode_table 32 s.last_inode none o
    → EmptyOut s (found_one o (record s { last_inode = last }))
unfolding found_one unlocked
Looked-EmptyOut s (some i) last lt (ready i_lt r) =
    let free : ((s.inode_table i).i_count == 0) ≡ true = ground arith in
    let clean : (s.inode_table i).i_dirt ≡ false = ground arith in
    let open_ : (s.inode_table i).i_lock ≡ false = ground arith in
    let same : (i == i) ≡ true = ground arith in
    rw (open_, clean, free)
      (taken_one i_lt r (rw same refl)
        (λ k apart. let off : (i == k) ≡ false = ground arith in rw off refl))
Looked-EmptyOut s none last lt (nothing used) =
    all_used (all_inodes s.inode_table (λ i. i.i_count ≢ 0) s.last_inode lt used)
Looked-EmptyOut s (some i) last lt (unready i_lt free not_ready none_) =
    let none_ready = all_inodes s.inode_table (λ q. is_ready q ≡ false) s.last_inode lt none_ in
    elim (Bool-cases (s.inode_table i).i_lock) [
      | inl locked ↦ rw locked (locked_one free locked none_ready)
      | inr open_ ↦
          let dirty : (s.inode_table i).i_dirt ≡ true = ground arith in
          rw (open_, dirty) (dirty_one free dirty none_ready)
    ]

-- From the place behind the last search, `get_empty_inode` up to its first sleep panics only if all
-- inodes are in use. Otherwise it takes one that is unused, clean and unlocked, and leaves the others;
-- or, if there is none, waits for a locked one or writes a dirty one that is unused. It never goes
-- round unslept.
pub get_empty_inode-EmptyOut : (s : Table) → s.last_inode < 32 → EmptyOut s (get_empty_inode s)
unfolding get_empty_inode
get_empty_inode-EmptyOut s lt =
    Looked-EmptyOut s _ _ lt (look-Looked s.inode_table 32 s.last_inode none lt)
