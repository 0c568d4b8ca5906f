-- ===== src/Directory/AddFind.antt =====
-- What `add_entry` adds, `search` finds.
use linux_0_11_learning.Base.{
  ℕ, ◌+◌, ◌/◌, ◌%◌, ◌≤◌, ◌<◌, ◌≡◌, ◌≢◌, refl, ap, ◌∙◌, inl, inr, true, false, Option, none, some,
  List, [], ◌∷◌, ltb, ◌==◌, arith, Bool-cases, length, take, length-take,
}
use linux_0_11_learning.Directory.{Directory, Found, name_len, entries, has_block, search}
use linux_0_11_learning.Directory.Slots.{place, has_name, here, nowhere}
use linux_0_11_learning.Directory.Finding.{FindOut, no_name, no_block, searched, search-FindOut}
use linux_0_11_learning.Directory.Adding.{Growing, add_entry}
use linux_0_11_learning.Directory.Added.{IsGrowing, Looped, full, added, add_loop-Looped, clash}
use linux_0_11_learning.Directory.Filled.{
  with_inode, Made, create_block-Made, filled, first_block, inside, has_name_j, has_name-before,
  zone_j,
}

-- A directory without the name has it in no slot.
FindOut-none :
    (d : Directory) (name : List ℕ) (o : Option Found)
    → name ≢ []
    → has_block d (d.zone 0) ≡ true
    → FindOut d name o
    → o ≡ none
    → (k : ℕ) → k < entries d
    → has_name d (take name_len name) k ≡ false
FindOut-none d name o some_ has (no_name e) n k lt = absurd (some_ e)
FindOut-none d name o some_ has (no_block lost) n k lt = absurd (ground arith)
FindOut-none d name o some_ has (searched {o = some j} first) n k lt = absurd (ground arith)
FindOut-none d name o some_ has (searched {o = none} (nowhere none_)) n k lt =
    none_ k (omega arith) lt

-- A directory that has the name in the slot `j`, and not before, has it there.
FindOut-first :
    (d : Directory) (name : List ℕ) (j : ℕ) (o : Option Found)
    → name ≢ []
    → has_block d (d.zone 0) ≡ true
    → j < entries d
    → has_name d (take name_len name) j ≡ true
    → ((k : ℕ) → k < j → has_name d (take name_len name) k ≡ false)
    → FindOut d name o
    → o ≡ some (place d j)
FindOut-first d name j o some_ has lt it before (no_name e) = absurd (some_ e)
FindOut-first d name j o some_ has lt it before (no_block lost) = absurd (ground arith)
FindOut-first d name j o some_ has lt it before
      (searched {o = some i} (here le le' has_i before_i)) =
    elim (Bool-cases (ltb i j)) [
      | inl less ↦ clash has_i (before i (ground arith))
      | inr more ↦ elim (Bool-cases (ltb j i)) [
        | inl less ↦ clash it (before_i j (omega arith) (ground arith))
        | inr not_less ↦ let e : i ≡ j = ground arith in ap (λ q. some (place d q)) e
      ]
    ]
FindOut-first d name j o some_ has lt it before (searched {o = none} (nowhere none_)) =
    let n = none_ j (omega arith) lt in absurd (ground arith)

-- What `add_entry` does: nothing for an empty name, or where the first block cannot be read; it fails
-- where it needs a block and none is free; or, once the slot has the inode, `search` finds it.
pub data AddOut (nr : ℕ) (name : List ℕ) (g : Growing) : Option Found × Growing → Type 0 where
  unnamed : name ≡ [] → AddOut nr name g (none, g)
  no_first : has_block g.dir (g.dir.zone 0) ≡ false → AddOut nr name g (none, g)
  no_room : {g' : Growing} → g.free ≡ [] → AddOut nr name g (none, g')
  put_in :
      {f : Found} {g' : Growing}
      → search (with_inode nr f g'.dir) name ≡ some f
      → AddOut nr name g (some f, g')

Looped-AddOut :
    (now nr : ℕ) (name : List ℕ) (g : Growing) (r : Option Found × Growing)
    → IsGrowing g
    → nr ≢ 0
    → name ≢ []
    → has_block g.dir (g.dir.zone 0) ≡ true
    → search g.dir name ≡ none
    → Looped now (take name_len name) g r
    → AddOut nr name g r
Looped-AddOut now nr name g r ok used some_ has new (full e) = no_room e
Looped-AddOut now nr name g r ok used some_ has new
      (added j z {g1 = g1} created there reads in_use start) =
    let name' = take name_len name in
    let made : Made g (j / 64) z g1 =
      rw created at (create_block-Made now (j / 64) g (rw created there)) in
    let d = filled now nr name' j z g1 in
    let short : length name' ≤ 14 = let l = length-take 14 name in omega arith in
    let before : (k : ℕ) → k < j → has_name d name' k ≡ false = λ k lt.
      has_name-before now nr name' g ok j z g1 made there reads start k lt
      ∙ elim (Bool-cases (has_block g.dir (g.dir.zone (k / 64)))) [
        | inl h ↦
            FindOut-none g.dir name _ some_ has (search-FindOut g.dir name) new k (in_use k lt h).0
        | inr lost ↦ rw lost refl
      ] in
    let found =
      FindOut-first d name j (search d name) some_
        (first_block now nr name' g ok j z g1 made there reads start has)
        (inside now nr name' g ok j z g1 made there reads start)
        (has_name_j now nr name' g ok j z g1 made there reads start used short) before
        (search-FindOut d name) in
    let at_z = zone_j now nr name' g ok j z g1 made there reads start in
    put_in (found ∙ ap (λ q. some (record { block = q; at = j % 64 })) at_z)

-- In a directory in order that lacks the name, `add_entry` finds a slot for it, or no block is free; it
-- does nothing for an empty name, or where the first block cannot be read. When the caller has put the
-- number of an inode into the slot, the search of `find_entry` finds the name there.
pub add_entry-AddOut :
    (now nr : ℕ) (name : List ℕ) (g : Growing)
    → IsGrowing g
    → nr ≢ 0
    → search g.dir name ≡ none
    → AddOut nr name g (add_entry now name g)
unfolding add_entry
add_entry-AddOut now nr [] g ok used new = unnamed refl
add_entry-AddOut now nr (c ∷ cs) g ok used new =
    let name = c ∷ cs in
    let name' = take name_len name in
    let given : (length name' == 0) ≡ false = ground arith in
    elim (Bool-cases (has_block g.dir (g.dir.zone 0))) [
      | inr lost ↦ rw (given, lost) (no_first lost)
      | inl has ↦
          let l =
            add_loop-Looped now name' g ok (entries g.dir + 64 + 1) 0 0 (g.dir.zone 0) (omega arith)
              (omega arith) (inr (omega arith, omega arith, refl, has))
              (λ k lt. absurd (omega arith)) in
          rw (given, has) (Looped-AddOut now nr name g _ ok used (λ e. ground arith) has new l)
    ]
