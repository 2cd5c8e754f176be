-- ===== src/Memory/Map/Tests.antt =====
-- A handoff block, and the theorems about it there.
use goatos.Base.{
  ℕ, ◌^◌, ◌≡◌, ◌≢◌, refl, true, List, [], ◌∷◌, ◌-◌, arith, get_or, length, min, All, ◌≤◌,
}
use goatos.Memory.Ram.{Ram, read_u32}
use goatos.Memory.Map.{
  MemoryMap, load, handoff_addr, max_entries, empty, end_of, highest_address, total_usable,
}
use goatos.Memory.Map.Totals.{usable_sum, load_summary}
use goatos.Memory.Map.Handoff.{Entry, kept, block_bytes, entries_bytes, load-kept, load-empty}

-- Low memory, a region to ignore, and one above 4 GiB.
abbrev reported : List Entry
reported =
    record { base = 0; size = 0x9fc00; kind = 1; attributes = 1 }
    ∷ record { base = 0xf0000; size = 0x10000; kind = 2; attributes = 0 }
    ∷ record { base = 0x1_0000_0000; size = 0x4000_0000; kind = 1; attributes = 1 }
    ∷ []

abbrev block : Ram
block a = get_or (block_bytes 3 reported) (a - handoff_addr) 0

abbrev reported_map : MemoryMap
reported_map = record { regions = kept reported; reported = 3; available = true }

load-kept_example : load block ≡ record { regions = kept reported; reported = 3; available = true }
unfolding entries_bytes
load-kept_example = load-kept block 3 reported (omega arith) (omega arith) refl (ground arith)

load-empty_example : load (λ a. 0) ≡ empty
unfolding read_u32
load-empty_example = load-empty (λ a. 0) (omega arith)

load_summary_example :
    (length (load block).regions ≤ max_entries)
    × All (λ r. r.size ≢ 0) (load block).regions
    × (total_usable (load block) ≡ min (usable_sum (load block).regions) (2 ^ 64 - 1))
    × All (λ r. end_of r ≤ highest_address (load block)) (load block).regions
    × ((bound : ℕ)
        → All (λ r. end_of r ≤ bound) (load block).regions
        → highest_address (load block) ≤ bound)
load_summary_example = load_summary block
