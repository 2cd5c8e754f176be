-- ===== src/Memory/Map.antt =====
-- The BIOS memory map of kernel/src/memory/map.rs, read from the block that the boot sector leaves
-- in low memory. A `MemoryMap` keeps its live regions as a list, which stands for the array and
-- `len` of the source.
pub mod Handoff
pub mod Totals
mod Tests
use goatos.Base.{
  ℕ, zero, suc, ◌+◌, ◌-◌, ◌*◌, ◌^◌, min, max, bit_and, Bool, true, false, not, ◌||◌, List, [], ◌∷◌,
  ◌==◌, ltb, if◌then◌else◌,
}
use goatos.Memory.Ram.{Ram, read_u32, read_u64}

abbrev pub handoff_addr : ℕ
handoff_addr = 0x500

abbrev pub signature : ℕ
signature = 0x5441_4f47

abbrev pub max_entries : ℕ
max_entries = 32

abbrev pub entries_offset : ℕ
entries_offset = 8

abbrev pub entry_size : ℕ
entry_size = 24

pub data RegionKind : Type 0 where
  usable reserved acpi_reclaimable acpi_nvs bad_memory : RegionKind
  unknown : ℕ → RegionKind

unfoldable pub from_raw : ℕ → RegionKind
from_raw raw =
    if raw == 1
    then usable
    else if raw == 2
    then reserved
    else if raw == 3
    then acpi_reclaimable
    else if raw == 4
    then acpi_nvs
    else if raw == 5
    then bad_memory
    else unknown raw

pub record Region : Type 0 where
  pub base : ℕ
  pub size : ℕ
  pub kind : RegionKind

-- `Region::end`, a `u64` that saturates.
unfoldable pub end_of : Region → ℕ
end_of r = min (r.base + r.size) (2 ^ 64 - 1)

unfoldable pub is_usable : Region → Bool
is_usable r = elim (r.kind) [ usable ↦ true | _ ↦ false ]

pub record MemoryMap : Type 0 where
  pub regions : List Region
  pub reported : ℕ
  pub available : Bool

unfoldable pub empty : MemoryMap
empty = record { regions = []; reported = 0; available = false }

unfoldable pub truncated : MemoryMap → Bool
truncated m = ltb max_entries m.reported

-- The fold of `total_usable`, from left to right and saturating.
unfoldable pub add_usable : ℕ → List Region → ℕ
add_usable total [] = total
add_usable total (r ∷ rs) =
    add_usable (if is_usable r then min (total + r.size) (2 ^ 64 - 1) else total) rs

unfoldable pub total_usable : MemoryMap → ℕ
unfolding add_usable is_usable
total_usable m = add_usable 0 m.regions

-- The maximum of the regions' ends, 0 for an empty map.
unfoldable pub highest : ℕ → List Region → ℕ
highest top [] = top
highest top (r ∷ rs) = highest (max top (end_of r)) rs

unfoldable pub highest_address : MemoryMap → ℕ
unfolding highest end_of
highest_address m = highest 0 m.regions

-- The loop of `load` from entry `index` on, with `left` entries to go.
unfoldable pub load_entries : Ram → ℕ → ℕ → List Region
unfolding from_raw
load_entries ram index zero = []
load_entries ram index (suc left) =
    let entry = handoff_addr + entries_offset + index * entry_size in
    let size = read_u64 ram (entry + 8) in
    let attributes = read_u32 ram (entry + 20) in
    let rest = load_entries ram (index + 1) left in
    if size == 0 || bit_and attributes 1 == 0
    then rest
    else record {
      base = read_u64 ram entry;
      size = size;
      kind = from_raw (read_u32 ram (entry + 16));
    }
      ∷ rest

unfoldable pub load : Ram → MemoryMap
unfolding empty load_entries
load ram =
    if read_u32 ram handoff_addr == signature
    then (let reported = read_u32 ram (handoff_addr + 4) in
        record {
          regions = load_entries ram 0 (min reported max_entries);
          reported = reported;
          available = true;
        })
    else empty
