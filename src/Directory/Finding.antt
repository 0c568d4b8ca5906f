-- ===== src/Directory/Finding.antt =====
-- The loop of `search` finds the first slot with the name.
use mathlib.Core.Option
use linux_0_11_learning.Base.{
  ℕ, zero, suc, ◌+◌, ◌-◌, ◌/◌, ◌%◌, ◌≤◌, ◌<◌, ◌≡◌, ◌≢◌, refl, sym, ap, ◌∙◌, ◌⊎◌, inl, inr, true,
  false, Option, none, some, List, [], ◌∷◌, leb, Bool, ◌==◌, if◌then◌else◌, arith, Bool-cases,
  ==_iff, take, length,
}
use linux_0_11_learning.Directory.{
  Directory, Found, name_len, entries, has_block, matches, look, find_loop, search, is_dotdot,
}
use linux_0_11_learning.Directory.Slots.{
  place, has_name, first_from, first_from-skip, IsFirst, first_from-IsFirst,
}

module _ (d : Directory) (name : List ℕ) where
  -- `de` is at the end of a block, or at the slot `i` of a block that is read.
  abbrev pub At : (i k block : ℕ) → Type 0
  At i k block =
      ((k ≡ 64) × (i % 64 ≡ 0))
      ⊎ ((k < 64) × (k ≡ i % 64) × (block ≡ d.zone (i / 64)) × (has_block d block ≡ true))

  abbrev found : Option ℕ → Option Found
  found o = Option.map (place d) o

  pub At-next :
      (i k block : ℕ)
      → k < 64
      → k ≡ i % 64
      → block ≡ d.zone (i / 64)
      → has_block d block ≡ true
      → At (i + 1) (k + 1) block
  At-next i k block lt e b has = elim (Bool-cases (k + 1 == 64)) [
    | inl last ↦ inl (ground arith, omega (arith, (==_iff (k + 1) 64).0 last))
    | inr more ↦
        let n : k + 1 ≢ 64 = ground arith in
        let same : (i + 1) / 64 ≡ i / 64 = omega arith in
        inr (omega arith, omega arith, rw same b, has)
  ]

  first_from-suc :
      (i : ℕ)
      → i < entries d
      → first_from d name (entries d - i) i
        ≡ (if has_name d name i then some i else first_from d name (entries d - (i + 1)) (i + 1))
  unfolding first_from
  first_from-suc i lt = let e : entries d - i ≡ suc (entries d - (i + 1)) = omega arith in rw e refl

  -- The slot `i` is looked at, in the block that is read.
  look-first :
      (i k block : ℕ) (later : Option Found)
      → i < entries d
      → k < 64
      → k ≡ i % 64
      → block ≡ d.zone (i / 64)
      → has_block d block ≡ true
      → later ≡ found (first_from d name (entries d - (i + 1)) (i + 1))
      → look d name block k later ≡ found (first_from d name (entries d - i) i)
  look-first i k block later lt fits e b has rest =
      elim (Bool-cases (matches name (d.entry block k))) [
        | inl m ↦
            let here : has_name d name i ≡ true = rw (← b, ← e, has, m) refl in
            rw (first_from-suc i lt, here, m) (rw (← b, ← e) refl)
        | inr m ↦
            let here : has_name d name i ≡ false = rw (← b, ← e, has, m) refl in
            rw (first_from-suc i lt, here, m) rest
      ]

  first_from-end : (i : ℕ) → entries d ≤ i → first_from d name (entries d - i) i ≡ none
  unfolding first_from
  first_from-end i h = let e : entries d - i ≡ 0 = omega arith in rw e refl

  -- A block that cannot be read has no slot with the name.
  unreadable :
      (i : ℕ)
      → i % 64 ≡ 0
      → has_block d (d.zone (i / 64)) ≡ false
      → (k : ℕ) → i ≤ k
      → k < i + 64
      → has_name d name k ≡ false
  unreadable i start lost k le lt = let same : k / 64 ≡ i / 64 = omega arith in rw (same, lost) refl

  find_loop-first :
      (fuel i k block : ℕ)
      → entries d < fuel + i
      → At i k block
      → find_loop fuel d name i k block ≡ found (first_from d name (entries d - i) i)
  unfolding find_loop
  find_loop-first zero i k block h at = rw (first_from-end i (omega arith)) refl
  find_loop-first (suc fuel) i k block h at = elim (Bool-cases (leb (entries d) i)) [
    | inl end ↦ rw (end, first_from-end i (ground arith)) refl
    | inr more ↦
        let lt : i < entries d = ground arith in
        elim at [
          | inl (e, start) ↦
              let z = d.zone (i / 64) in
              elim (Bool-cases (has_block d z)) [
                | inl has ↦
                    let next = At-next i 0 z (omega arith) (omega arith) refl has in
                    let rest = find_loop-first fuel (i + 1) 1 z (omega arith) next in
                    rw (more, e, has)
                      (look-first i 0 z _ lt (omega arith) (omega arith) refl has rest)
                | inr lost ↦
                    let skip =
                      first_from-skip d name 64 (entries d - i) i (unreadable i start lost) in
                    let left : entries d - i - 64 ≡ entries d - (i + 64) = omega arith in
                    let rest =
                      find_loop-first fuel (i + 64) 64 block (omega arith)
                        (inl (refl, omega arith)) in
                    rw (more, e, lost) (rest ∙ ap found (sym (skip ∙ rw left refl)))
              ]
          | inr (fits, e, b, has) ↦
              let inside : (k == 64) ≡ false = ground arith in
              let rest =
                find_loop-first fuel (i + 1) (k + 1) block (omega arith)
                  (At-next i k block fits e b has) in
              rw (more, inside) (look-first i k block _ lt fits e b has rest)
        ]
  ]

-- What the search finds: the first slot of the directory with the name, cut to 14 bytes, or nothing
-- where the name is empty, the first block cannot be read, or no slot has the name.
pub data FindOut (d : Directory) (name : List ℕ) : Option Found → Type 0 where
  no_name : name ≡ [] → FindOut d name none
  no_block : has_block d (d.zone 0) ≡ false → FindOut d name none
  searched :
      {o : Option ℕ}
      → IsFirst d (take name_len name) 0 (entries d) o
      → FindOut d name (Option.map (place d) o)

-- In a directory of any size, over blocks that are missing or cannot be read, the search finds the
-- first slot with the name, or nothing if there is none; it finds nothing for an empty name, or where
-- the first block cannot be read.
pub search-FindOut : (d : Directory) (name : List ℕ) → FindOut d name (search d name)
unfolding search
search-FindOut d [] = no_name refl
search-FindOut d (c ∷ cs) =
    let name' = take name_len (c ∷ cs) in
    let given : (length name' == 0) ≡ false = ground arith in
    elim (Bool-cases (has_block d (d.zone 0))) [
      | inr lost ↦ rw (given, lost) (no_block lost)
      | inl has ↦
          let e =
            find_loop-first d name' (entries d + 1) 0 0 (d.zone 0) (omega arith)
              (inr (omega arith, omega arith, refl, has)) in
          let all : entries d - 0 ≡ entries d = omega arith in
          rw (given, has, e, all)
            (searched (first_from-IsFirst d name' (entries d) 0 (entries d) (omega arith)))
    ]

-- What `find_entry` does with a name: a search for it in the directory; for `..` in the root of the task
-- a search for `.`; or for `..` in the root of a device a search in the directory that the device is
-- mounted on, of as many slots as the first directory has.
pub data EntryOut (is_root : Bool) (mounted_on : Option Directory) (d : Directory) (name : List ℕ)
    : Directory × Option Found → Type 0 where
  plain :
      {o : Option Found}
      → (is_dotdot (take name_len name) ≡ false) ⊎ ((is_root ≡ false) × (mounted_on ≡ none))
      → FindOut d name o
      → EntryOut is_root mounted_on d name (d, o)
  pseudo_root :
      {o : Option Found}
      → is_dotdot (take name_len name) ≡ true
      → is_root ≡ true
      → FindOut d (46 ∷ []) o
      → EntryOut is_root mounted_on d name (d, o)
  over_mount :
      {o : Option Found} (d' : Directory)
      → is_dotdot (take name_len name) ≡ true
      → is_root ≡ false
      → mounted_on ≡ some d'
      → FindOut (record d' { i_size = d.i_size }) name o
      → EntryOut is_root mounted_on d name (d', o)
