-- ===== src/Buffer/Choose.antt =====
-- The buffer that `getblk` chooses among those that nobody uses.
use linux_0_11_learning.Base.{
  count, ℕ, ◌≤◌, ◌<◌, ◌≡◌, ◌≢◌, refl, Bool, ◌&&◌, Option, none, some, List, [], ◌∷◌, ◌==◌, arith,
  Bool-cases, inl, inr,
}
use linux_0_11_learning.Buffer.{Head, better, badness, choose}

module _ (bufs : ℕ → Head) where
  -- None of the list is better than the buffer, if they are unused.
  abbrev NoneBetter : ℕ → List ℕ → Type 0
  NoneBetter i xs =
      (j : ℕ) → 0 < count j xs → (bufs j).b_count ≡ 0 → badness (bufs i) ≤ badness (bufs j)

  -- The buffer is one of the list that nobody uses, and the best of these.
  pub record IsBest (i : ℕ) (xs : List ℕ) : Type 0 where
    pub of_list : 0 < count i xs
    pub unused : (bufs i).b_count ≡ 0
    pub best : NoneBetter i xs

  abbrev takes : ℕ → Option ℕ → Bool
  takes tmp bh = (bufs tmp).b_count == 0 && better bufs tmp bh

  -- The result is the best buffer yet, or a better one of the list.
  record From (bh : ℕ) (xs : List ℕ) (i : ℕ) : Type 0 where
    unused : (bufs bh).b_count ≡ 0 → (bufs i).b_count ≡ 0
    not_worse : badness (bufs i) ≤ badness (bufs bh)
    origin : i ≢ bh → 0 < count i xs
    best : NoneBetter i xs

  choose-From :
      (bh : ℕ) (xs : List ℕ) → (i : ℕ) × (choose bufs (some bh) xs ≡ some i) × From bh xs i
  unfolding choose count better
  choose-From bh [] = (
    bh,
    refl,
    record {
      unused = λ e. e;
      not_worse = omega arith;
      origin = λ n. absurd (n refl);
      best = λ j h. absurd (omega arith);
    },
  )
  choose-From bh (x ∷ xs) = elim (Bool-cases (takes x (some bh))) [
    | inl yes_ ↦ elim (Bool-cases (badness (bufs x) == 0)) [
      | inl good ↦ (
        x,
        rw (yes_, good),
        record {
          unused = λ e. ground arith;
          not_worse = ground arith;
          origin = λ n. ground arith;
          best = λ j h u. ground arith;
        },
      )
      | inr bad ↦
          let (i, e, f) = choose-From x xs in
          (
            i,
            rw (yes_, bad) e,
            record {
              unused = λ e. let u = f.unused in ground arith;
              not_worse = let w = f.not_worse in ground arith;
              origin = λ n. elim (Bool-cases (x == i)) [
                | inl same ↦ ground arith
                | inr other ↦ let there = f.origin (λ e'. ground arith) in ground arith
              ];
              best = λ j h u.
                  let w = f.not_worse in
                  elim (Bool-cases (x == j)) [
                    | inl same ↦ ground arith
                    | inr other ↦ f.best j (rw other at h) u
                  ];
            },
          )
    ]
    | inr not_ ↦
        let (i, e, f) = choose-From bh xs in
        (
          i,
          rw not_ e,
          record {
            unused = λ e. let u = f.unused in ground arith;
            not_worse = let w = f.not_worse in ground arith;
            origin = λ n. let there = f.origin n in ground arith;
            best = λ j h u.
                let w = f.not_worse in
                elim (Bool-cases (x == j)) [
                  | inl same ↦ ground arith
                  | inr other ↦ f.best j (rw other at h) u
                ];
          },
        )
  ]

  -- Either every buffer of the list is in use, or the best unused one is chosen.
  pub data Chosen (xs : List ℕ) : Option ℕ → Type 0 where
    all_used : ((j : ℕ) → 0 < count j xs → (bufs j).b_count ≢ 0) → Chosen xs none
    best_of : {i : ℕ} → IsBest i xs → Chosen xs (some i)

  Chosen-cons :
      (x : ℕ) (xs : List ℕ)
      → (bufs x).b_count ≢ 0
      → (o : Option ℕ) → Chosen xs o
      → Chosen (x ∷ xs) o
  unfolding count
  Chosen-cons x xs used none (all_used h) = all_used λ j there. elim (Bool-cases (x == j)) [
    | inl same ↦ λ e. used (ground arith)
    | inr other ↦ h j (rw other at there)
  ]
  Chosen-cons x xs used (some i) (best_of b) = best_of (record {
    of_list = let there = b.of_list in ground arith;
    unused = b.unused;
    best = λ j there u. elim (Bool-cases (x == j)) [
      | inl same ↦ absurd (used (ground arith))
      | inr other ↦ b.best j (rw other at there) u
    ];
  })

  pub choose-Chosen : (xs : List ℕ) → Chosen xs (choose bufs none xs)
  unfolding choose count better
  choose-Chosen [] = all_used (λ j h. absurd (omega arith))
  choose-Chosen (x ∷ xs) = elim (Bool-cases ((bufs x).b_count == 0)) [
    | inr used ↦ rw used (Chosen-cons x xs (ground arith) _ (choose-Chosen xs))
    | inl free ↦ elim (Bool-cases (badness (bufs x) == 0)) [
      | inl good ↦
          rw (free, good)
            (best_of (record {
              of_list = ground arith;
              unused = ground arith;
              best = λ j h u. ground arith;
            }))
      | inr bad ↦
          let (i, e, f) = choose-From x xs in
          rw (free, bad, e)
            (best_of (record {
              of_list = elim (Bool-cases (x == i)) [
                | inl same ↦ ground arith
                | inr other ↦ let there = f.origin (λ e'. ground arith) in ground arith
              ];
              unused = let u = f.unused in ground arith;
              best = λ j h u.
                  let w = f.not_worse in
                  elim (Bool-cases (x == j)) [
                    | inl same ↦ ground arith
                    | inr other ↦ f.best j (rw other at h) u
                  ];
            }))
    ]
  ]
