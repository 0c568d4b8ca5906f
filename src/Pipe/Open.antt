-- ===== src/Pipe/Open.antt =====
-- fs/pipe.c: `sys_pipe`, which opens both ends of a pipe.
use linux_0_11_learning.Base.{
  ℕ, zero, suc, ◌+◌, ◌<◌, ◌≡◌, ◌≢◌, refl, sym, ◌∙◌, inl, inr, Option, none, some, List, [], ◌∷◌,
  arith, ◌==◌, if◌then◌else◌, Bool-cases, Option-cases, get_elem?, set, length, length-set,
  get_elem?-set_self, get_elem?-set_ne,
}

-- An entry of the file table.
pub record Entry : Type 0 where
  pub f_mode : ℕ
  pub f_count : ℕ
  pub f_inode : Option ℕ
  pub f_pos : ℕ

-- `current->filp` and `file_table`.
pub record Table : Type 0 where
  pub filp : List (Option ℕ)
  pub file_table : List Entry

-- The loop over the file table: the first entries without a user, `j` at most, from index `i` on.
unfoldable pub free_entries : (j i : ℕ) → List Entry → List ℕ
free_entries zero i es = []
free_entries (suc j) i [] = []
free_entries (suc j) i (e ∷ es) =
    let found = i ∷ free_entries j (i + 1) es in
    let next = free_entries (suc j) (i + 1) es in if e.f_count == 0 then found else next

-- The loop over the descriptors.
unfoldable pub free_fds : (j i : ℕ) → List (Option ℕ) → List ℕ
free_fds zero i fs = []
free_fds (suc j) i [] = []
free_fds (suc j) i (none ∷ fs) = i ∷ free_fds j (i + 1) fs
free_fds (suc j) i (some f ∷ fs) = free_fds (suc j) (i + 1) fs

-- `if (j<2)`
abbrev pub two : List ℕ → Option (ℕ × ℕ)
two (a ∷ b ∷ []) = some (a, b)
two _ = none

abbrev pub end_of : (mode inode : ℕ) → Entry
end_of mode inode = record { f_mode = mode; f_count = 1; f_inode = some inode; f_pos = 0 }

-- The two descriptors, for reading and for writing; `none` is -1. `inode` is what `get_pipe_inode`
-- returns. What a failure has taken is given back.
unfoldable pub sys_pipe : (inode : Option ℕ) → Table → Option (ℕ × ℕ) × Table
sys_pipe inode s = elim (two (free_entries 2 0 s.file_table)) [
  | none ↦ (none, s)
  | some (f0, f1) ↦ elim (two (free_fds 2 0 s.filp)) [
    | none ↦ (none, s)
    | some (fd0, fd1) ↦ elim inode [
      | none ↦ (none, s)
      | some i ↦ (
        some (fd0, fd1),
        record {
          filp = set (set s.filp fd0 (some f0)) fd1 (some f1);
          file_table = set (set s.file_table f0 (end_of 1 i)) f1 (end_of 2 i);
        },
      )
    ]
  ]
]

two-inv : (l : List ℕ) (a b : ℕ) → two l ≡ some (a, b) → l ≡ a ∷ b ∷ []
two-inv [] a b e = absurd (ground arith)
two-inv (x ∷ []) a b e = absurd (ground arith)
two-inv (x ∷ y ∷ []) a b e = ground arith
two-inv (x ∷ y ∷ z ∷ l) a b e = absurd (ground arith)

-- One free descriptor, or two, in order.
free_fds-one :
    (i : ℕ) (fs : List (Option ℕ)) (a : ℕ)
    → free_fds 1 i fs ≡ a ∷ []
    → (k : ℕ) × (a ≡ i + k) × (get_elem? fs k ≡ some none)
unfolding free_fds
free_fds-one i [] a e = absurd (ground arith)
free_fds-one i (none ∷ fs) a e = (0, ground arith, refl)
free_fds-one i (some f ∷ fs) a e =
    let (k, at, free) = free_fds-one (i + 1) fs a e in (suc k, omega arith, free)

free_fds-two :
    (i : ℕ) (fs : List (Option ℕ)) (a b : ℕ)
    → free_fds 2 i fs ≡ a ∷ b ∷ []
    → (k l : ℕ) × (a ≡ i + k)
      × (b ≡ i + l)
      × (k < l)
      × (get_elem? fs k ≡ some none)
      × (get_elem? fs l ≡ some none)
unfolding free_fds
free_fds-two i [] a b e = absurd (ground arith)
free_fds-two i (none ∷ fs) a b e =
    let (l, at, free) = free_fds-one (i + 1) fs b (ground arith) in
    (0, suc l, ground arith, omega arith, omega arith, refl, free)
free_fds-two i (some f ∷ fs) a b e =
    let (k, l, ak, bl, lt, x, y) = free_fds-two (i + 1) fs a b e in
    (suc k, suc l, omega arith, omega arith, omega arith, x, y)

-- The same of the entries of the file table.
abbrev pub IsUnused : List Entry → ℕ → Type 0
IsUnused es k = (e : Entry) × (get_elem? es k ≡ some e) × (e.f_count ≡ 0)

free_entries-one :
    (i : ℕ) (es : List Entry) (a : ℕ)
    → free_entries 1 i es ≡ a ∷ []
    → (k : ℕ) × (a ≡ i + k) × IsUnused es k
unfolding free_entries
free_entries-one i [] a e = absurd (ground arith)
free_entries-one i (x ∷ es) a e = elim (Bool-cases (x.f_count == 0)) [
  | inl unused ↦ (0, ground arith, (x, refl, ground arith))
  | inr used ↦
      let (k, at, free) = free_entries-one (i + 1) es a (ground arith) in (suc k, omega arith, free)
]

free_entries-two :
    (i : ℕ) (es : List Entry) (a b : ℕ)
    → free_entries 2 i es ≡ a ∷ b ∷ []
    → (k l : ℕ) × (a ≡ i + k) × (b ≡ i + l) × (k < l) × IsUnused es k × IsUnused es l
unfolding free_entries
free_entries-two i [] a b e = absurd (ground arith)
free_entries-two i (x ∷ es) a b e = elim (Bool-cases (x.f_count == 0)) [
  | inl unused ↦
      let (l, at, free) = free_entries-one (i + 1) es b (ground arith) in
      (0, suc l, ground arith, omega arith, omega arith, (x, refl, ground arith), free)
  | inr used ↦
      let (k, l, ak, bl, lt, y, z) = free_entries-two (i + 1) es a b (ground arith) in
      (suc k, suc l, omega arith, omega arith, omega arith, y, z)
]

module _ {ℓ} {A : Type ℓ} where
  get_elem?-lt : (xs : List A) (i : ℕ) {x : A} → get_elem? xs i ≡ some x → i < length xs
  get_elem?-lt [] i e = cc
  get_elem?-lt (y ∷ xs) zero e = omega arith
  get_elem?-lt (y ∷ xs) (suc i) e = omega (arith, get_elem?-lt xs i e)

  -- Two places written, one after the other.
  get_elem?-set_two :
      (xs : List A) (i j : ℕ) (v w : A)
      → i < j
      → j < length xs
      → (get_elem? (set (set xs i v) j w) i ≡ some v)
        × (get_elem? (set (set xs i v) j w) j ≡ some w)
        × ((k : ℕ) → k ≢ i → k ≢ j → get_elem? (set (set xs i v) j w) k ≡ get_elem? xs k)
  get_elem?-set_two xs i j v w lt h = (
    get_elem?-set_ne (set xs i v) {i = j} {j = i} w (λ e. omega arith)
        ∙ get_elem?-set_self xs i v (omega arith),
    get_elem?-set_self (set xs i v) j w (omega (arith, length-set xs i v)),
    λ k ni nj.
        get_elem?-set_ne (set xs i v) {i = j} {j = k} w (λ e. nj (sym e))
        ∙ get_elem?-set_ne xs {i = i} {j = k} v (λ e. ni (sym e)),
  )

-- The outcomes of `sys_pipe`.
pub data PipeOut (inode : Option ℕ) (s : Table) : Option (ℕ × ℕ) → Table → Type 0 where
  failed : PipeOut inode s none s
  opened :
      (fd0 fd1 f0 f1 i : ℕ) {s' : Table}
      → inode ≡ some i
      → fd0 < fd1
      → get_elem? s.filp fd0 ≡ some none
      → get_elem? s.filp fd1 ≡ some none
      → IsUnused s.file_table f0
      → IsUnused s.file_table f1
      → (get_elem? s'.filp fd0 ≡ some (some f0))
        × (get_elem? s'.filp fd1 ≡ some (some f1))
        × ((k : ℕ) → k ≢ fd0 → k ≢ fd1 → get_elem? s'.filp k ≡ get_elem? s.filp k)
      → (get_elem? s'.file_table f0 ≡ some (end_of 1 i))
        × (get_elem? s'.file_table f1 ≡ some (end_of 2 i))
        × ((k : ℕ) → k ≢ f0 → k ≢ f1 → get_elem? s'.file_table k ≡ get_elem? s.file_table k)
      → PipeOut inode s (some (fd0, fd1)) s'

sys_pipe-opened :
    (i : ℕ) (s : Table) (fd0 fd1 f0 f1 : ℕ)
    → free_entries 2 0 s.file_table ≡ f0 ∷ f1 ∷ []
    → free_fds 2 0 s.filp ≡ fd0 ∷ fd1 ∷ []
    → PipeOut (some i) s (some (fd0, fd1)) (record {
      filp = set (set s.filp fd0 (some f0)) fd1 (some f1);
      file_table = set (set s.file_table f0 (end_of 1 i)) f1 (end_of 2 i);
    })
sys_pipe-opened i s fd0 fd1 f0 f1 es fs =
    let (k, l, e0, e1, lt, a, b) = free_fds-two 0 s.filp fd0 fd1 fs in
    let (k', l', e0', e1', lt', a', b') = free_entries-two 0 s.file_table f0 f1 es in
    let ek : fd0 ≡ k = omega arith in
    let el : fd1 ≡ l = omega arith in
    let ek' : f0 ≡ k' = omega arith in
    let el' : f1 ≡ l' = omega arith in
    rw (ek, el, ek', el')
      (PipeOut.opened k l k' l' i refl lt a b a' b'
        (get_elem?-set_two s.filp k l (some k') (some l') lt (get_elem?-lt s.filp l b))
        (get_elem?-set_two s.file_table k' l' (end_of 1 i) (end_of 2 i) lt'
          (get_elem?-lt s.file_table l' b'.1)))

-- `pipe` opens two descriptors, the second above the first, which both were free, on two entries of
-- the file table without users, for reading and for writing the pipe, each with one user; or it
-- fails, and nothing has changed. No other descriptor and no other entry changes.
pub sys_pipe-PipeOut :
    (inode : Option ℕ) (s : Table) → let (r, s') = sys_pipe inode s in PipeOut inode s r s'
unfolding sys_pipe
sys_pipe-PipeOut inode s = elim (Option-cases (two (free_entries 2 0 s.file_table))) [
  | inl few ↦ rw (few, sys_pipe) PipeOut.failed
  | inr ((f0, f1), es) ↦ elim (Option-cases (two (free_fds 2 0 s.filp))) [
    | inl few ↦ rw (es, few, sys_pipe) PipeOut.failed
    | inr ((fd0, fd1), fs) ↦ elim (Option-cases inode) [
      | inl none_there ↦ rw (es, fs, none_there, sys_pipe) PipeOut.failed
      | inr (i, there) ↦
          rw (es, fs, there, sys_pipe)
            (sys_pipe-opened i s fd0 fd1 f0 f1 (two-inv _ f0 f1 es) (two-inv _ fd0 fd1 fs))
    ]
  ]
]
