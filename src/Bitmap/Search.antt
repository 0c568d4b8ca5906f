-- ===== src/Bitmap/Search.antt =====
-- The search of `new_block` through the zone maps, read as one bit for each zone.
use linux_0_11_learning.Base.{
  ℕ, zero, suc, ◌+◌, ◌/◌, ◌%◌, ◌≤◌, ◌<◌, ◌≡◌, ◌≢◌, inl, inr, ap, ◌∙◌, Bool, true, false, List, [],
  ◌∷◌, Option, none, some, arith, ltb, ◌==◌, if◌then◌else◌, Bool-cases, get_elem?, set, length,
  get_elem?-set_self, get_elem?-set_ne,
}
use linux_0_11_learning.Bitmap.{Map, find_first_zero, find_map, bits_per_block}
use linux_0_11_learning.Bitmap.Words.{AllWords, bit_at, find_first_zero-first}

-- The bit of a zone; a zone without a map has none.
abbrev pub map_bit : Option (Option Map) → ℕ → Option Bool
map_bit none j = none
map_bit (some none) j = none
map_bit (some (some map)) j = some (bit_at j map.words)

abbrev pub zone_bit : List (Option Map) → ℕ → Option Bool
zone_bit maps zone = map_bit (get_elem? maps (zone / bits_per_block)) (zone % bits_per_block)

-- A map has 256 words.
abbrev pub IsMap : Option Map → Type 0
IsMap none = Unit {0}
IsMap (some map) = AllWords map.words × (length map.words ≡ 256)

abbrev pub AllMaps : List (Option Map) → Type 0
AllMaps [] = Unit {0}
AllMaps (m ∷ ms) = IsMap m × AllMaps ms

pub AllMaps-get :
    (maps : List (Option Map)) (i : ℕ) {map : Map}
    → AllMaps maps
    → get_elem? maps i ≡ some (some map)
    → (i < length maps) × AllWords map.words × (length map.words ≡ 256)
AllMaps-get [] i all e = cc
AllMaps-get (none ∷ ms) zero all e = absurd (ground arith)
AllMaps-get (some m ∷ ms) zero {map} all e =
    let same : m ≡ map = ground arith in (omega arith, rw (← same) all.0.0, rw (← same) all.0.1)
AllMaps-get (m ∷ ms) (suc i) all e =
    let (lt, words, len) = AllMaps-get ms i all.1 e in (omega arith, words, len)

-- A map with one bit changed changes the bit of one zone.
pub zone_bit-set :
    (maps : List (Option Map)) (zone z : ℕ) (v : Bool) {map : Map} (map' : Map)
    → get_elem? maps (zone / bits_per_block) ≡ some (some map)
    → zone / bits_per_block < length maps
    → ((k : ℕ)
        → bit_at k map'.words ≡ (if zone % bits_per_block == k then v else bit_at k map.words))
    → zone_bit (set maps (zone / bits_per_block) (some map')) z
      ≡ (if zone == z then some v else zone_bit maps z)
zone_bit-set maps zone z v {map} map' there lt change =
    elim (Bool-cases (zone / bits_per_block == z / bits_per_block)) [
      | inl same ↦
          let q : z / bits_per_block ≡ zone / bits_per_block = ground arith in
          rw (q, get_elem?-set_self maps (zone / bits_per_block) (some map') lt, there)
            (ap some (change (z % bits_per_block)) ∙ ground arith)
      | inr other ↦
          let ne : zone / bits_per_block ≢ z / bits_per_block = ground arith in
          let differ : (zone == z) ≡ false = ground arith in
          rw (get_elem?-set_ne maps (some map') ne, differ)
    ]

-- The first `k` maps have no clear bit.
abbrev pub FullBefore : ℕ → List (Option Map) → Type 0
FullBefore zero ms = Unit {0}
FullBefore (suc k) [] = Unit {0}
FullBefore (suc k) (none ∷ ms) = FullBefore k ms
FullBefore (suc k) (some m ∷ ms) = (bits_per_block ≤ find_first_zero 0 m.words) × FullBefore k ms

-- Below the first clear bit of a map every bit is set.
pub bit_at-below :
    (words : List ℕ) (j : ℕ) → AllWords words → j < find_first_zero 0 words → bit_at j words ≡ true
bit_at-below words j all lt =
    let (k, e, le, clear, below) = find_first_zero-first 0 words all in below j (omega arith)

pub map_bit-full :
    (k : ℕ) (maps : List (Option Map)) (i j : ℕ)
    → FullBefore k maps
    → AllMaps maps
    → i < k
    → j < bits_per_block
    → map_bit (get_elem? maps i) j ≢ some false
map_bit-full zero maps i j full all lt h = absurd (omega arith)
map_bit-full (suc k) [] i j full all lt h = λ e. ground arith
map_bit-full (suc k) (none ∷ ms) zero j full all lt h = λ e. ground arith
map_bit-full (suc k) (none ∷ ms) (suc i) j full all lt h =
    map_bit-full k ms i j full all.1 (omega arith) h
map_bit-full (suc k) (some m ∷ ms) zero j full all lt h =
    λ e. let one = bit_at-below m.words j all.0.0 (let f = full.0 in omega arith) in ground arith
map_bit-full (suc k) (some m ∷ ms) (suc i) j full all lt h =
    map_bit-full k ms i j full.1 all.1 (omega arith) h

-- Where the search through the maps ends.
pub record Found (i : ℕ) (maps : List (Option Map)) (i' : ℕ) (map : Map) (j : ℕ) : Type 0 where
  pub slot : ℕ
  pub at : i' ≡ i + slot
  pub there : get_elem? maps slot ≡ some (some map)
  pub bit : j ≡ find_first_zero 0 map.words
  pub below : j < bits_per_block
  pub full_before : FullBefore slot maps

pub find_map-Found :
    (i : ℕ) (maps : List (Option Map)) (i' : ℕ) (map : Map) (j : ℕ)
    → find_map i maps ≡ some (i', map, j)
    → Found i maps i' map j
unfolding find_map
find_map-Found i [] i' map j e = absurd (ground arith)
find_map-Found i (none ∷ ms) i' map j e =
    let f = find_map-Found (i + 1) ms i' map j e in
    let a = f.at in
    record {
      slot = suc f.slot;
      at = omega arith;
      there = f.there;
      bit = f.bit;
      below = f.below;
      full_before = f.full_before;
    }
find_map-Found i (some m ∷ ms) i' map j e =
    elim (Bool-cases (ltb (find_first_zero 0 m.words) bits_per_block)) [
      | inl here ↦ record {
        slot = 0;
        at = ground arith;
        there = ground arith;
        bit = ground arith;
        below = ground arith;
        full_before = tt;
      }
      | inr full ↦
          let f = find_map-Found (i + 1) ms i' map j (ground arith) in
          let a = f.at in
          record {
            slot = suc f.slot;
            at = omega arith;
            there = f.there;
            bit = f.bit;
            below = f.below;
            full_before = (ground arith, f.full_before);
          }
    ]

pub find_map-none :
    (i : ℕ) (maps : List (Option Map)) → find_map i maps ≡ none → FullBefore (length maps) maps
unfolding find_map
find_map-none i [] e = tt
find_map-none i (none ∷ ms) e = find_map-none (i + 1) ms e
find_map-none i (some m ∷ ms) e =
    elim (Bool-cases (ltb (find_first_zero 0 m.words) bits_per_block)) [
      | inl here ↦ absurd (ground arith)
      | inr full ↦ (ground arith, find_map-none (i + 1) ms (ground arith))
    ]
