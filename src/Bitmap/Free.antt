-- ===== src/Bitmap/Free.antt =====
-- What `free_block` does to the zone bitmap and to the block's buffer.
use linux_0_11_learning.Base.{
  ℕ, ◌+◌, ◌-◌, ◌/◌, ◌%◌, ◌≤◌, ◌<◌, ◌≡◌, ◌≢◌, ◌⊎◌, true, false, none, some, get_elem?, set,
}
use linux_0_11_learning.Bitmap.{
  Map, Super, Head, Device, Result, ok, panicked, fault, btr, bits_per_block, update,
}
use linux_0_11_learning.Bitmap.Search.{zone_bit, AllMaps}
use linux_0_11_learning.Bitmap.Blocks.{Marked}

-- What comes of clearing the bit of a zone.
pub data Cleared (sb : Super) (zone : ℕ) (d : Device) : Result (Unit {0}) → Type 0 where
  cleared :
      {d' : Device}
      → zone_bit sb.s_zmap zone ≡ some true
      → Marked sb zone false d d'
      → d'.buffers ≡ d.buffers
      → Cleared sb zone d (ok tt d')
  -- "bit already cleared"
  clear_already : zone_bit sb.s_zmap zone ≡ some false → Cleared sb zone d panicked
  no_map : zone_bit sb.s_zmap zone ≡ none → Cleared sb zone d fault

module _ (sb : Super) (zone : ℕ) (d : Device) (maps : AllMaps sb.s_zmap) where
  abbrev slot : ℕ
  slot = zone / bits_per_block

  module _ (map : Map) (there : get_elem? sb.s_zmap slot ≡ some (some map)) where
    abbrev bit : ℕ
    bit = zone % bits_per_block

    abbrev cleared_map : Map
    cleared_map = record map { words = (btr bit map.words).1; b_dirt = true }

    abbrev cleared_device : Device
    cleared_device = record d {
      super = some (record sb { s_zmap = set sb.s_zmap slot (some cleared_map) });
    }

-- The outcomes of `free_block`.
pub data Freed (sb : Super) (block : ℕ) (d : Device) : Result (Unit {0}) → Type 0 where
  -- "trying to free block not in datazone"
  outside : (block < sb.s_firstdatazone) ⊎ (sb.s_nzones ≤ block) → Freed sb block d panicked
  -- Somebody uses the buffer: the block is not freed, and the user that the call added to the
  -- buffer stays counted.
  kept :
      (bh : Head)
      → d.buffers block ≡ some bh
      → bh.b_count ≢ 0
      → Freed sb block d (
          ok tt (record d {
            buffers = update d.buffers block (record bh { b_count = bh.b_count + 1 });
          }))
  no_buffer :
      {r : Result (Unit {0})}
      → d.buffers block ≡ none
      → Cleared sb (block + 1 - sb.s_firstdatazone) d r
      → Freed sb block d r
  -- A buffer that nobody uses will not be written or read.
  forgotten :
      (bh : Head) {r : Result (Unit {0})}
      → d.buffers block ≡ some bh
      → bh.b_count ≡ 0
      → Cleared sb
          (block + 1 - sb.s_firstdatazone)
          (record d {
            buffers = update d.buffers block (record bh { b_dirt = false; b_uptodate = false });
          })
          r
      → Freed sb block d r
