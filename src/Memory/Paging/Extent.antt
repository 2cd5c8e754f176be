-- ===== src/Memory/Paging/Extent.antt =====
-- The end of the identity map.
use goatos.Base.{
  ℕ, ◌-◌, ◌*◌, ◌/◌, ◌^◌, ◌≤◌, ◌<◌, ◌≡◌, min, max, true, List, [], ◌∷◌, if◌then◌else◌, arith, All,
  All-map,
}
use goatos.Memory.Map.{Region, MemoryMap, is_usable, end_of}
use goatos.Memory.Paging.{entries, bytes_per_directory_entry, highest_usable, identity_map_end}

-- Every usable region ends below this, or at 4 GiB.
abbrev CoveredBy : ℕ → Region → Type 0
CoveredBy top r = is_usable r ≡ true → min (end_of r) (2 ^ 32) ≤ top

highest_usable-CoveredBy :
    (rs : List Region) (end : ℕ)
    → (end ≤ highest_usable end rs) × All (CoveredBy (highest_usable end rs)) rs
unfolding highest_usable
highest_usable-CoveredBy [] end = (omega arith, tt)
highest_usable-CoveredBy (r ∷ rs) end =
    let deep =
      highest_usable-CoveredBy rs
        (if is_usable r then max end (min (end_of r) (2 ^ 32)) else end) in
    (ground (arith, deep.0), ((λ u. ground (arith, deep.0, u)), deep.1))

-- The end of the map is a whole number of tables, less than 1024 of them.
pub identity_map_end-tables :
    (map : MemoryMap)
    → (identity_map_end map
        ≡ identity_map_end map / bytes_per_directory_entry * bytes_per_directory_entry)
      × (identity_map_end map / bytes_per_directory_entry < entries)
unfolding identity_map_end
identity_map_end-tables map = (ground arith, ground arith)

pub identity_map_end-covers :
    (map : MemoryMap)
    → All
        (λ r.
          is_usable r ≡ true
          → min (end_of r) (2 ^ 32 - bytes_per_directory_entry) ≤ identity_map_end map)
        map.regions
unfolding identity_map_end
identity_map_end-covers map =
    All-map _ _ map.regions (λ r c u. ground (arith, c u))
      (highest_usable-CoveredBy map.regions 0).1
