-- ===== src/Bitmap/Blocks.antt =====
-- What `new_block` and `free_block` promise of the zone bitmap.
use linux_0_11_learning.Base.{
  ℕ, zero, suc, ◌+◌, ◌-◌, ◌*◌, ◌/◌, ◌%◌, ◌≤◌, ◌<◌, ◌≡◌, ◌≢◌, sym, inl, inr, refl, ap, ◌∙◌, Bool,
  true, false, List, [], ◌∷◌, Option, none, some, arith, ltb, leb, ◌==◌, if◌then◌else◌, Bool-cases,
  Option-cases, get_elem?, set, length,
}
use linux_0_11_learning.Bitmap.{
  Map, Super, Head, Device, Result, ok, panicked, bts, find_map, bits_per_block, users, zero_block,
  take_zone, new_block, update,
}
use linux_0_11_learning.Bitmap.Words.{bit_at, find_first_zero-first, bit_at-bts}
use linux_0_11_learning.Bitmap.Search.{
  zone_bit, AllMaps, AllMaps-get, zone_bit-set, FullBefore, map_bit-full, Found, find_map-Found,
  find_map-none, bit_at-below,
}

get_elem?_past : (maps : List (Option Map)) (i : ℕ) → length maps ≤ i → get_elem? maps i ≡ none
get_elem?_past [] i h = refl
get_elem?_past (m ∷ ms) zero h = absurd (omega arith)
get_elem?_past (m ∷ ms) (suc i) h = get_elem?_past ms i (omega arith)

-- The device with its zone maps changed so that one zone's bit is `v`.
pub record Marked (sb : Super) (zone : ℕ) (v : Bool) (d d' : Device) : Type 0 where
  pub sb' : Super
  pub super : d'.super ≡ some sb'
  pub bits : (z : ℕ) → zone_bit sb'.s_zmap z ≡ (if zone == z then some v else zone_bit sb.s_zmap z)
  pub same_nzones : sb'.s_nzones ≡ sb.s_nzones
  pub same_first : sb'.s_firstdatazone ≡ sb.s_firstdatazone

-- The first zone whose bit is clear.
pub record FirstClear (sb : Super) (zone : ℕ) : Type 0 where
  pub clear : zone_bit sb.s_zmap zone ≡ some false
  pub before : (z : ℕ) → z < zone → zone_bit sb.s_zmap z ≢ some false

-- The outcomes of `new_block`.
pub data NewBlock (sb : Super) (d : Device) : Result ℕ → Type 0 where
  -- Every bit is set.
  no_block : ((z : ℕ) → zone_bit sb.s_zmap z ≢ some false) → NewBlock sb d (ok 0 d)
  -- The first clear bit is past the last zone: it is set all the same.
  beyond :
      (zone : ℕ) {d' : Device}
      → FirstClear sb zone
      → sb.s_nzones ≤ zone + sb.s_firstdatazone - 1
      → Marked sb zone true d d'
      → NewBlock sb d (ok 0 d')
  -- Somebody uses the buffer of the free block.
  counted :
      (zone : ℕ)
      → FirstClear sb zone
      → users (d.buffers (zone + sb.s_firstdatazone - 1)) ≢ 1
      → NewBlock sb d panicked
  -- The block of the first clear bit, which is set; its buffer is full of zeros, dirty, and free.
  allocated :
      (zone : ℕ) {d' : Device}
      → FirstClear sb zone
      → zone + sb.s_firstdatazone - 1 < sb.s_nzones
      → Marked sb zone true d d'
      → d'.buffers (zone + sb.s_firstdatazone - 1)
        ≡ some (record { b_count = 0; b_uptodate = true; b_dirt = true; b_data = zero_block })
      → NewBlock sb d (ok (zone + sb.s_firstdatazone - 1) d')

module _ (evict : (ℕ → Option Head) → ℕ → Option Head) (sb : Super) (d : Device)
    (maps : AllMaps sb.s_zmap) (i : ℕ) (map : Map) (j : ℕ) (f : Found 0 sb.s_zmap i map j) where
  abbrev zone : ℕ
  zone = j + i * bits_per_block

  zone_slot : zone / bits_per_block ≡ i
  zone_slot = let b = f.below in omega arith

  zone_rest : zone % bits_per_block ≡ j
  zone_rest = let b = f.below in omega arith

  here : get_elem? sb.s_zmap i ≡ some (some map)
  here = let slot : i ≡ f.slot = let a = f.at in omega arith in rw slot f.there

  clear_bit_lem : bit_at j map.words ≡ false
  clear_bit_lem =
      let (lt, all, len) = AllMaps-get sb.s_zmap i maps here in
      let (k, e, le, clear, below) = find_first_zero-first 0 map.words all in
      let same : j ≡ k = let b = f.bit in omega arith in
      rw same (clear (let b = f.below in omega arith))

  not_before : (z : ℕ) → z < zone → zone_bit sb.s_zmap z ≢ some false
  not_before z lt = elim (Bool-cases (ltb (z / bits_per_block) i)) [
    | inl earlier ↦
        map_bit-full f.slot sb.s_zmap (z / bits_per_block) (z % bits_per_block) f.full_before maps
          (let a = f.at in ground arith) (omega arith)
    | inr same ↦ λ e.
        let (len, all, words) = AllMaps-get sb.s_zmap i maps here in
        let q : z / bits_per_block ≡ i = let b = f.below in ground arith in
        let one = bit_at-below map.words (z % bits_per_block) all (let b = f.bit in omega arith) in
        let bit : zone_bit sb.s_zmap z ≡ some true = rw (q, here) (ap some one) in
        absurd (ground arith)
  ]

  pub first_clear : FirstClear sb zone
  first_clear = record {
    clear = rw (zone_slot, zone_rest, here) (ap some clear_bit_lem);
    before = not_before;
  }

  abbrev fresh : Head
  fresh = record { b_count = 0; b_uptodate = true; b_dirt = true; b_data = zero_block }

  abbrev marked_map : Map
  marked_map = record map { words = (bts j map.words).1; b_dirt = true }

  abbrev marked_super : Super
  marked_super = record sb { s_zmap = set sb.s_zmap i (some marked_map) }

  -- One zone has another bit.
  pub marked_bits :
      (z : ℕ)
      → zone_bit marked_super.s_zmap z ≡ (if zone == z then some true else zone_bit sb.s_zmap z)
  marked_bits z =
      let (len, all, words) = AllMaps-get sb.s_zmap i maps here in
      let there : get_elem? sb.s_zmap (zone / bits_per_block) ≡ some (some map) =
        rw zone_slot here in
      let change : (k : ℕ)
          → bit_at k marked_map.words
            ≡ (if zone % bits_per_block == k then true else bit_at k map.words) =
        λ k. rw zone_rest (bit_at-bts j k map.words (let b = f.below in omega arith)).1 in
      ap (λ (n : ℕ). zone_bit (set sb.s_zmap n (some marked_map)) z) (sym zone_slot)
      ∙ zone_bit-set sb.s_zmap zone z true marked_map there (rw zone_slot len) change

  marked :
      (buffers : ℕ → Option Head)
      → Marked sb zone true d (record { super = some marked_super; buffers = buffers })
  marked buffers = record {
    sb' = marked_super;
    super = refl;
    bits = marked_bits;
    same_nzones = refl;
    same_first = refl;
  }

  pub old_bit : (bts j map.words).0 ≡ false
  old_bit =
      let (len, all, words) = AllMaps-get sb.s_zmap i maps here in
      (bit_at-bts j j map.words (let b = f.below in omega arith)).0 ∙ clear_bit_lem

  take_zone-NewBlock : NewBlock sb d (take_zone evict sb i map j d)
  unfolding take_zone
  take_zone-NewBlock = elim (Bool-cases (leb sb.s_nzones (zone + sb.s_firstdatazone - 1))) [
    | inl past ↦
        rw (old_bit, past) (NewBlock.beyond zone first_clear (ground arith) (marked d.buffers))
    | inr inside ↦ elim (Bool-cases (users (d.buffers (zone + sb.s_firstdatazone - 1)) == 1)) [
      | inl free ↦
          rw (old_bit, inside, free)
            (NewBlock.allocated zone first_clear (ground arith)
              (marked (update (evict d.buffers) (zone + sb.s_firstdatazone - 1) fresh))
              (ground arith))
      | inr busy ↦
          rw (old_bit, inside, busy) (NewBlock.counted zone first_clear (λ e. ground arith))
    ]
  ]

new_block-none :
    (evict : (ℕ → Option Head) → ℕ → Option Head) (d : Device) {sb : Super}
    → d.super ≡ some sb
    → find_map 0 sb.s_zmap ≡ none
    → new_block evict d ≡ ok 0 d
unfolding new_block
new_block-none evict d {sb} there full = ground arith

new_block-some :
    (evict : (ℕ → Option Head) → ℕ → Option Head) (d : Device) {sb : Super} {i : ℕ} {map : Map}
    {j : ℕ}
    → d.super ≡ some sb
    → find_map 0 sb.s_zmap ≡ some (i, map, j)
    → new_block evict d ≡ take_zone evict sb i map j d
unfolding new_block
new_block-some evict d there found = ground arith

-- A zone past the maps has no bit.
pub zone_bit-full :
    (maps : List (Option Map)) (z : ℕ)
    → AllMaps maps
    → FullBefore (length maps) maps
    → zone_bit maps z ≢ some false
zone_bit-full maps z all full = elim (Bool-cases (ltb (z / bits_per_block) (length maps))) [
  | inl inside ↦
      map_bit-full (length maps) maps (z / bits_per_block) (z % bits_per_block) full all
        (ground arith) (omega arith)
  | inr outside ↦ λ e.
      let past = get_elem?_past maps (z / bits_per_block) (ground arith) in
      let bit : zone_bit maps z ≡ none = rw past in absurd (ground arith)
]

-- On a device whose maps have 256 words, `new_block` finds the first zone whose bit is clear, sets
-- this bit and no other, and returns its block, below the number of zones, with a buffer of zeros
-- that is dirty and free. It returns 0 where no bit is clear, with nothing changed, or where the
-- zone lies past the last one, with the bit set; and it panics where the buffer has other users.
pub new_block-NewBlock :
    (evict : (ℕ → Option Head) → ℕ → Option Head) (d : Device) {sb : Super}
    → d.super ≡ some sb
    → AllMaps sb.s_zmap
    → NewBlock sb d (new_block evict d)
new_block-NewBlock evict d {sb} there maps = elim (Option-cases (find_map 0 sb.s_zmap)) [
  | inl full ↦
      rw (new_block-none evict d there full)
        (NewBlock.no_block λ z. zone_bit-full sb.s_zmap z maps (find_map-none 0 sb.s_zmap full))
  | inr ((i, map, j), found) ↦
      rw (new_block-some evict d there found)
        (take_zone-NewBlock evict sb d maps i map j (find_map-Found 0 sb.s_zmap i map j found))
]
