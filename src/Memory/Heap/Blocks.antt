-- ===== src/Memory/Heap/Blocks.antt =====
-- Lists of blocks by address: taking the first that fits, and putting one back with its neighbours
-- joined, as the free list's operations should work.
use goatos.Base.{
  ℕ, suc, ◌+◌, ◌-◌, ◌*◌, ◌≤◌, ◌<◌, ◌⊎◌, Option, none, some, List, [], ◌∷◌, ◌==◌, ltb, leb,
  if◌then◌else◌, arith, length, All,
}
use goatos.Memory.Heap.{Heap, header_size, steps}

pub record Block : Type 0 where
  pub start : ℕ
  pub size : ℕ

abbrev pub end_of : Block → ℕ
end_of b = b.start + b.size

-- Each block has room for a header and they follow one another from `lo` on, with a gap between any
-- two.
abbrev pub Spaced : ℕ → List Block → Type 0
Spaced lo [] = Unit {0}
Spaced lo (b ∷ bs) = (lo ≤ b.start) × (header_size ≤ b.size) × Spaced (suc (end_of b)) bs

abbrev pub Below : ℕ → Block → Type 0
Below limit b = end_of b ≤ limit

unfoldable pub total : List Block → ℕ
total [] = 0
total (b ∷ bs) = b.size + total bs

-- Two blocks have no byte in common.
abbrev pub ApartFrom : Block → Block → Type 0
ApartFrom a b = (end_of a ≤ b.start) ⊎ (end_of b ≤ a.start)

pub Spaced-le : (bs : List Block) (lo hi : ℕ) → lo ≤ hi → Spaced hi bs → Spaced lo bs
Spaced-le [] lo hi h s = tt
Spaced-le (b ∷ bs) lo hi h s = (omega (arith, s.0), s.1, s.2)

-- A block below all of the list has nothing in common with it.
pub Spaced-apart :
    (bs : List Block) (lo : ℕ) (x : Block) → end_of x ≤ lo → Spaced lo bs → All (ApartFrom x) bs
Spaced-apart [] lo x h s = tt
Spaced-apart (b ∷ bs) lo x h s =
    (omega (arith, s.0), Spaced-apart bs (suc (end_of b)) x (omega (arith, s.0, s.1)) s.2)

length-Spaced_gap :
    (bs : List Block) (lo limit : ℕ)
    → Spaced lo bs
    → All (Below limit) bs
    → header_size * length bs ≤ limit + 1 - lo
length-Spaced_gap [] lo limit s w = omega arith
length-Spaced_gap (b ∷ bs) lo limit s w =
    omega (arith, length-Spaced_gap bs (suc (end_of b)) limit s.2 w.1, s.0, s.1, w.0)

pub length-Spaced :
    (bs : List Block) (lo limit : ℕ)
    → Spaced lo bs
    → All (Below limit) bs
    → header_size * length bs ≤ limit - lo
length-Spaced [] lo limit s w = omega arith
length-Spaced (b ∷ bs) lo limit s w =
    omega (arith, length-Spaced_gap bs (suc (end_of b)) limit s.2 w.1, s.0, s.1, w.0)

-- No free list is as long as the loops can take steps.
pub length-steps :
    (h : Heap) (bs : List Block)
    → Spaced h.heap_start bs
    → All (Below h.heap_end) bs
    → length bs < steps h
unfolding steps
length-steps h bs s w = omega (arith, length-Spaced bs h.heap_start h.heap_end s w)

unfoldable pub keep : Block → Option (Block × List Block) → Option (Block × List Block)
keep b none = none
keep b (some (taken, rest)) = some (taken, b ∷ rest)

-- The first block that has `needed` bytes: what is taken of it, and what is left of the list.
unfoldable pub fit : ℕ → List Block → Option (Block × List Block)
fit needed [] = none
fit needed (b ∷ bs) =
    let later = keep b (fit needed bs) in
    if leb needed b.size
    then (if leb header_size (b.size - needed)
        then some (
          record { start = b.start; size = needed },
          record { start = b.start + needed; size = b.size - needed } ∷ bs,
        )
        else some (b, bs))
    else later

-- A block in front of a list, joined with the first if they touch.
unfoldable pub join : Block → List Block → List Block
join x [] = x ∷ []
join x (y ∷ ys) =
    if end_of x == y.start
    then record { start = x.start; size = x.size + y.size } ∷ ys
    else x ∷ y ∷ ys

-- A block behind `b` among the blocks that follow it.
unfoldable pub insert_after : Block → List Block → Block → List Block
insert_after b [] x = join b (join x [])
insert_after b (c ∷ cs) x =
    let later = insert_after c cs x in
    if ltb c.start x.start then b ∷ later else join b (join x (c ∷ cs))

unfoldable pub insert : List Block → Block → List Block
insert [] x = x ∷ []
insert (b ∷ bs) x =
    let later = insert_after b bs x in if ltb b.start x.start then later else join x (b ∷ bs)
