-- ===== src/Memory/Heap/Owners.antt =====
-- Who owns the heap's bytes: the blocks that have been handed out and the free list share out the
-- heap between them.
use goatos.Base.{
  ℕ, suc, ◌+◌, ◌-◌, ◌%◌, ◌^◌, ◌≤◌, ◌<◌, ◌≡◌, refl, ap₂, ◌∙◌, List, [], ◌∷◌, arith, All,
}
use goatos.Memory.Ram.{Ram}
use goatos.Memory.Heap.{Heap, header_size, size_of, set_size, init}
use goatos.Memory.Heap.Blocks.{Block, end_of, Spaced, Below, ApartFrom, total}
use goatos.Memory.Heap.Chain.{Chain, size_of-set_size, size_of-set_next, next_of-set_next}

abbrev pub Aligned : Block → Type 0
Aligned b = (b.start % 8 ≡ 0) × (b.size % 8 ≡ 0)

-- A block that a caller has: in the heap, its size in the header, apart from every free block.
pub record Live (ram : Ram) (h : Heap) (fs : List Block) (b : Block) : Type 0 where
  pub above : h.heap_start ≤ b.start
  pub below : end_of b ≤ h.heap_end
  pub large : header_size ≤ b.size
  pub header : size_of ram b.start ≡ b.size
  pub apart : All (ApartFrom b) fs

abbrev pub Pairwise : List Block → Type 0
Pairwise [] = Unit {0}
Pairwise (b ∷ bs) = All (ApartFrom b) bs × Pairwise bs

-- The heap with the blocks `live` handed out and the blocks `fs` free.
pub record Owned (ram : Ram) (h : Heap) (live fs : List Block) : Type 0 where
  pub chain : Chain ram h.free_list fs
  pub spaced : Spaced h.heap_start fs
  pub within : All (Below h.heap_end) fs
  pub base : 8 ≤ h.heap_start
  pub ready : h.heap_start < h.heap_end
  pub words : h.heap_end ≤ 2 ^ 32 - 1
  pub lives : All (Live ram h fs) live
  pub pairwise : Pairwise live
  pub free_aligned : All Aligned fs
  pub live_aligned : All Aligned live
  pub counted : h.used ≡ total live
  pub complete : total live + total fs ≡ h.heap_end - h.heap_start

-- A block's bytes are the same in the two memories.
abbrev pub Kept : Ram → Ram → Block → Type 0
Kept ram ram' b = (y : ℕ) → b.start ≤ y → y < end_of b → ram' y ≡ ram y

-- `init` hands nothing out: the free list is one block that covers the region it was given.
pub init-Owned :
    (ram : Ram) (h : Heap) (start size : ℕ)
    → header_size ≤ size
    → 8 ≤ start
    → start + size ≤ 2 ^ 32 - 1
    → start % 8 ≡ 0
    → size % 8 ≡ 0
    → Owned
        (init ram h start size).0
        (init ram h start size).1
        []
        (record { start = start; size = size } ∷ [])
unfolding init total
init-Owned ram h start size large base words a b =
    let ram1 = set_size ram start size in
    record {
      chain = (
        refl,
        size_of-set_next ram1 start 0 ∙ size_of-set_size ram start size (omega arith),
        next_of-set_next ram1 start 0 (omega arith),
      );
      spaced = (omega arith, large, tt);
      within = (omega arith, tt);
      base = base;
      ready = omega arith;
      words = words;
      lives = tt;
      pairwise = tt;
      free_aligned = ((a, b), tt);
      live_aligned = tt;
      counted = refl;
      complete = omega arith;
    }

-- Blocks with gaps between them have less room than one block.
total-Spaced :
    (bs : List Block) (lo limit : ℕ) → Spaced lo bs → All (Below limit) bs → total bs ≤ limit - lo
unfolding total
total-Spaced [] lo limit s w = omega arith
total-Spaced (b ∷ bs) lo limit s w =
    omega (arith, s.0, w.0, total-Spaced bs (suc (end_of b)) limit s.2 w.1)

single :
    (fs : List Block) (lo limit : ℕ)
    → Spaced lo fs
    → All (Below limit) fs
    → lo < limit
    → total fs ≡ limit - lo
    → fs ≡ record { start = lo; size = limit - lo } ∷ []
unfolding total
single [] lo limit s w l t = absurd (omega arith)
single (b ∷ []) lo limit s w l t =
    ap₂ (λ x y. record { start = x; size = y } ∷ []) (omega (arith, s.0, w.0)) (omega (arith, t))
single (b ∷ c ∷ cs) lo limit s w l t = absurd (
    omega (
      arith,
      s.0,
      s.1,
      s.2.0,
      s.2.1,
      w.0,
      w.1.0,
      total-Spaced cs (suc (end_of c)) limit s.2.2 w.1.1,
    ))

-- Once every block is back, the free list is one block that covers the heap.
pub Owned-whole :
    (ram : Ram) (h : Heap) (fs : List Block)
    → Owned ram h [] fs
    → fs ≡ record { start = h.heap_start; size = h.heap_end - h.heap_start } ∷ []
unfolding total
Owned-whole ram h fs o =
    single fs h.heap_start h.heap_end o.spaced o.within o.ready (omega (arith, o.complete))
