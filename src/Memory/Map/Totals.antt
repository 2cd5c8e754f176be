-- ===== src/Memory/Map/Totals.antt =====
-- The summaries of a memory map: what the saturating fold and the maximum amount to.
use goatos.Base.{
  ℕ, ◌+◌, ◌-◌, ◌^◌, ◌≤◌, ◌<◌, min, max, ◌≡◌, inl, inr, List, [], ◌∷◌, arith, if◌then◌else◌, All,
  length, ◌≢◌, Bool-cases,
}
use goatos.Memory.Ram.{Ram}
use goatos.Memory.Map.Handoff.{load-bounds}
use goatos.Memory.Map.{
  load, max_entries, Region, MemoryMap, is_usable, end_of, add_usable, total_usable, highest,
  highest_address,
}

-- The plain sum of the usable sizes.
pub usable_sum : List Region → ℕ
usable_sum [] = 0
usable_sum (r ∷ rs) = (if is_usable r then r.size else 0) + usable_sum rs

add_usable_lem :
    (total : ℕ) (rs : List Region)
    → total < 2 ^ 64
    → add_usable total rs ≡ min (total + usable_sum rs) (2 ^ 64 - 1)
unfolding add_usable usable_sum
add_usable_lem total [] h = omega arith
add_usable_lem total (r ∷ rs) h = elim (Bool-cases (is_usable r)) [
  | inl e ↦
      rw e (omega (arith, add_usable_lem (min (total + r.size) (2 ^ 64 - 1)) rs (omega arith)))
  | inr e ↦ rw e (omega (arith, add_usable_lem total rs h))
]

-- The total is the sum of the sizes of the usable regions, cut off at the largest `u64`.
pub total_usable_lem : (m : MemoryMap) → total_usable m ≡ min (usable_sum m.regions) (2 ^ 64 - 1)
unfolding total_usable
total_usable_lem m = omega (arith, add_usable_lem 0 m.regions (omega arith))

highest-bounds :
    (top : ℕ) (rs : List Region) → (top ≤ highest top rs) × All (λ r. end_of r ≤ highest top rs) rs
unfolding highest
highest-bounds top [] = (omega arith, tt)
highest-bounds top (r ∷ rs) =
    let rest = highest-bounds (max top (end_of r)) rs in
    (omega (arith, rest.0), (omega (arith, rest.0), rest.1))

highest-least :
    (top : ℕ) (rs : List Region) (bound : ℕ)
    → top ≤ bound
    → All (λ r. end_of r ≤ bound) rs
    → highest top rs ≤ bound
unfolding highest
highest-least top [] bound h a = h
highest-least top (r ∷ rs) bound h a =
    highest-least (max top (end_of r)) rs bound (omega (arith, h, a.0)) a.1

-- The highest address is the least upper bound of the ends of all regions.
pub highest_address_lem :
    (m : MemoryMap)
    → All (λ r. end_of r ≤ highest_address m) m.regions
      × ((bound : ℕ) → All (λ r. end_of r ≤ bound) m.regions → highest_address m ≤ bound)
unfolding highest_address
highest_address_lem m =
    ((highest-bounds 0 m.regions).1, λ bound a. highest-least 0 m.regions bound (omega arith) a)

-- Whatever the block holds, the map that `load` reads has at most 32 regions and none of them is empty;
-- its total is the sum of the sizes of the usable regions, cut off at the largest `u64`, and its highest
-- address is the least upper bound of the ends of all regions.
pub load_summary :
    (ram : Ram)
    → (let m = load ram in
        (length m.regions ≤ max_entries)
        × All (λ r. r.size ≢ 0) m.regions
        × (total_usable m ≡ min (usable_sum m.regions) (2 ^ 64 - 1))
        × All (λ r. end_of r ≤ highest_address m) m.regions
        × ((bound : ℕ) → All (λ r. end_of r ≤ bound) m.regions → highest_address m ≤ bound))
load_summary ram =
    let (few, sizes) = load-bounds ram in
    let (upper, least) = highest_address_lem (load ram) in
    (few, sizes, total_usable_lem (load ram), upper, least)
