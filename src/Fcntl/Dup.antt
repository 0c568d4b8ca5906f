-- ===== src/Fcntl/Dup.antt =====
-- Where `dupfd` puts the new descriptor.
use linux_0_11_learning.Base.{
  ℕ, zero, suc, ◌+◌, ◌-◌, ◌≤◌, ◌<◌, ◌≡◌, ◌≢◌, ◌⊎◌, refl, sym, ap, ◌∙◌, inl, inr, Option, none, some,
  List, [], ◌∷◌, false, arith, leb, ◌==◌, if◌then◌else◌, Bool-cases, Option-cases, length,
  get_elem?, set, drop, length-drop, get_elem?-set_self, get_elem?-set_ne,
}
use linux_0_11_learning.Base.Int.{ℤ, pos, negsuc}
use linux_0_11_learning.Base.Bits.{test_bit, clear_bit, test_bit-clear_bit}
use linux_0_11_learning.Task.{nr_open}
use linux_0_11_learning.Fcntl.{Files, change, flat, open_file, first_free, dupfd}

get_elem?-drop : (fs : List (Option ℕ)) (n k : ℕ) → get_elem? (drop n fs) k ≡ get_elem? fs (n + k)
get_elem?-drop fs zero k = let e : 0 + k ≡ k = omega arith in rw e
get_elem?-drop [] (suc n) k = refl
get_elem?-drop (f ∷ fs) (suc n) k =
    let e : suc n + k ≡ suc (n + k) = omega arith in rw e (get_elem?-drop fs n k)

-- The file of a descriptor, in a list of them.
abbrev pub at : List (Option ℕ) → ℕ → Option ℕ
at fs n = flat (get_elem? fs n)

at-cons :
    (f : ℕ) (fs : List (Option ℕ)) (n : ℕ)
    → ((k : ℕ) → k < n → at fs k ≢ none)
    → (k : ℕ) → k < suc n
    → at (some f ∷ fs) k ≢ none
at-cons f fs n busy zero lt e = absurd (ground arith)
at-cons f fs n busy (suc k) lt e = busy k (omega arith) e

first_free-first :
    (i : ℕ) (fs : List (Option ℕ))
    → ((k : ℕ) × (first_free i fs ≡ some (i + k))
        × (k < length fs)
        × (at fs k ≡ none)
        × ((j : ℕ) → j < k → at fs j ≢ none))
      ⊎ ((first_free i fs ≡ none) × ((j : ℕ) → j < length fs → at fs j ≢ none))
unfolding first_free
first_free-first i [] = inr (refl, λ j lt. absurd (omega arith))
first_free-first i (none ∷ fs) =
    inl (0, ap some (omega arith), omega arith, refl, λ j lt. absurd (omega arith))
first_free-first i (some f ∷ fs) = elim (first_free-first (i + 1) fs) [
  | inl (k, e, lt, free, busy) ↦
      inl (suc k, e ∙ ap some (omega arith), omega arith, free, at-cons f fs k busy)
  | inr (e, all) ↦ inr (e, at-cons f fs (length fs) all)
]

-- The descriptors of a task, and their bits in `close_on_exec`, with the descriptor `n` for `f`.
pub record Opened (n f : ℕ) (s s' : Files) : Type 0 where
  pub descriptors :
      (j : ℕ) → open_file s'.current j ≡ (if n == j then some f else open_file s.current j)
  pub bits :
      (j : ℕ)
      → test_bit j s'.current.close_on_exec
        ≡ (if n == j then false else test_bit j s.current.close_on_exec)
  pub counts : (g : ℕ) → (s'.file g).f_count ≡ (s.file g).f_count + (if f == g then 1 else 0)

-- The outcomes of `dupfd`.
pub data Dup (fd arg : ℕ) (s : Files) : ℤ → Files → Type 0 where
  not_open : open_file s.current fd ≡ none → Dup fd arg s (negsuc 8) s
  bad_arg : nr_open ≤ arg → Dup fd arg s (negsuc 21) s
  all_open :
      ((j : ℕ) → arg ≤ j → j < nr_open → open_file s.current j ≢ none) → Dup fd arg s (negsuc 23) s
  dup :
      {n f : ℕ} {s' : Files}
      → open_file s.current fd ≡ some f
      → arg ≤ n
      → n < nr_open
      → open_file s.current n ≡ none
      → ((j : ℕ) → arg ≤ j → j < n → open_file s.current j ≢ none)
      → Opened n f s s'
      → Dup fd arg s (pos n) s'

module _ (s : Files) (len : length s.current.filp ≡ nr_open) where
  at-set :
      (n f j : ℕ)
      → n < nr_open
      → at (set s.current.filp n (some f)) j ≡ (if n == j then some f else at s.current.filp j)
  at-set n f j lt = elim (Bool-cases (n == j)) [
    | inl same ↦
        let e : j ≡ n = ground arith in
        let stored = get_elem?-set_self s.current.filp n (some f) (omega arith) in
        rw same (rw (e, stored))
    | inr other ↦
        let stored = get_elem?-set_ne s.current.filp {i = n} {j = j} (some f) (ground arith) in
        rw (other, stored)
  ]

  -- The search from `arg` on.
  free_from :
      (arg : ℕ)
      → arg < nr_open
      → ((n : ℕ) × (first_free arg (drop arg s.current.filp) ≡ some n)
          × (arg ≤ n)
          × (n < nr_open)
          × (open_file s.current n ≡ none)
          × ((j : ℕ) → arg ≤ j → j < n → open_file s.current j ≢ none))
        ⊎ ((first_free arg (drop arg s.current.filp) ≡ none)
            × ((j : ℕ) → arg ≤ j → j < nr_open → open_file s.current j ≢ none))
  free_from arg h = elim (first_free-first arg (drop arg s.current.filp)) [
    | inl (k, e, lt, free, busy) ↦
        let len' = length-drop arg s.current.filp in
        inl (
          arg + k,
          e,
          omega arith,
          omega arith,
          ap flat (sym (get_elem?-drop s.current.filp arg k)) ∙ free,
          λ j lo hi e'. busy (j - arg) (omega arith) (moved j lo ∙ e'),
        )
    | inr (e, all) ↦
        let len' = length-drop arg s.current.filp in
        inr (e, λ j lo hi e'. all (j - arg) (omega arith) (moved j lo ∙ e'))
  ]
    where
      moved : (j : ℕ) → arg ≤ j → at (drop arg s.current.filp) (j - arg) ≡ open_file s.current j
      moved j lo =
          let back : arg + (j - arg) ≡ j = omega arith in
          ap flat (get_elem?-drop s.current.filp arg (j - arg)) ∙ rw back

  abbrev dupped : (n f : ℕ) → Files
  dupped n f = record {
    current = record s.current {
      close_on_exec = clear_bit n s.current.close_on_exec;
      filp = set s.current.filp n (some f);
    };
    file = change s.file f (record (s.file f) { f_count = (s.file f).f_count + 1 });
  }

  Opened-dupped : (n f : ℕ) → n < nr_open → Opened n f s (dupped n f)
  Opened-dupped n f lt = record {
    descriptors = λ j. at-set n f j lt;
    bits = λ j. test_bit-clear_bit n j s.current.close_on_exec;
    counts = λ g. elim (Bool-cases (f == g)) [
      | inl same ↦ let e : f ≡ g = ground arith in rw same (ap (λ h. (s.file h).f_count + 1) e)
      | inr other ↦ rw other (omega arith)
    ];
  }

-- `dupfd` gives the first free descriptor from `arg` on to the file of `fd`, which counts one user
-- more; the new descriptor stays open in a new program, and no other descriptor changes. It changes
-- nothing where `fd` is not open, `arg` is out of range, or all descriptors from `arg` on are open.
pub dupfd-Dup :
    (fd arg : ℕ) (s : Files)
    → length s.current.filp ≡ nr_open
    → let (r, s') = dupfd fd arg s in Dup fd arg s r s'
unfolding dupfd
dupfd-Dup fd arg s len = elim (Option-cases (open_file s.current fd)) [
  | inl shut ↦ rw (shut, dupfd) (Dup.not_open shut)
  | inr (f, opened) ↦ elim (Bool-cases (leb nr_open arg)) [
    | inl far ↦ rw (opened, dupfd, far) (Dup.bad_arg (ground arith))
    | inr near ↦ elim (free_from s len arg (ground arith)) [
      | inl (n, e, lo, hi, free, busy) ↦
          rw (opened, dupfd, near, e) (Dup.dup opened lo hi free busy (Opened-dupped s len n f hi))
      | inr (e, all) ↦ rw (opened, dupfd, near, e) (Dup.all_open all)
    ]
  ]
]
