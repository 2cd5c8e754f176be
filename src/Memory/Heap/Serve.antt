-- ===== src/Memory/Heap/Serve.antt =====
-- An allocation takes a block out of the free list and gives it to the caller, and nobody else's
-- bytes change.
use goatos.Base.{
  ℕ, ◌+◌, ◌%◌, ◌^◌, ◌≤◌, ◌<◌, ◌≡◌, ◌≢◌, ◌⊎◌, inl, inr, refl, sym, ◌∙◌, subst, Option, none, some,
  List, ◌∷◌, arith, All, All-map, All-zip,
}
use goatos.Memory.Ram.{Ram}
use goatos.Memory.Heap.{
  Heap, align, header_size, is_ready, align_up, aligned_block_size, search, steps, allocate,
}
use goatos.Memory.Heap.Blocks.{Block, end_of, ApartFrom, total, fit, insert, length-steps}
use goatos.Memory.Heap.Chain.{link, Outside, size_of-same}
use goatos.Memory.Heap.Back.{PutBack, fit-PutBack}
use goatos.Memory.Heap.Take.{Taken}
use goatos.Memory.Heap.Fit.{Searched, search-Searched}
use goatos.Memory.Heap.Owners.{Live, Owned, Kept}
use goatos.Memory.Heap.Fitted.{Fitted, FitResult, fit-FitResult}

-- What `aligned_block_size` finds room for.
pub aligned_block_size_bounds :
    (payload needed : ℕ)
    → aligned_block_size payload ≡ some needed
    → (payload + header_size ≤ needed)
      × (needed < payload + header_size + align)
      × (needed % align ≡ 0)
      × (needed < 2 ^ 32)
unfolding aligned_block_size align_up
aligned_block_size_bounds payload needed e = ground (arith, e)

-- A request that is turned down changes nothing, and no free block has room for it.
abbrev pub Refused : Ram → Heap → ℕ → List Block → Ram × Heap × ℕ → Type 0
Refused ram h size fs r =
    (r ≡ (ram, h, 0))
    × ((needed : ℕ) → aligned_block_size size ≡ some needed → All (λ b. b.size < needed) fs)

-- A request that is met: a new block has been handed out, every other one has its bytes as they
-- were, and putting the block back would restore the free list.
pub record Granted (ram : Ram) (h : Heap) (size : ℕ) (live fs : List Block) (r : Ram × Heap × ℕ)
    : Type 0 where
  pub block : Block
  pub rest : List Block
  pub pointer : r.2 ≡ block.start + header_size
  pub room : size + header_size ≤ block.size
  pub owned : Owned r.0 r.1 (block ∷ live) rest
  pub kept : All (Kept ram r.0) live
  pub back : insert rest block ≡ fs

apart-Outside :
    (fs : List Block) (q : Block) (y : ℕ)
    → q.start ≤ y
    → y < end_of q
    → All (ApartFrom q) fs
    → All (Outside y) fs
apart-Outside fs q y l u a = All-map (ApartFrom q) (Outside y) fs (λ b p. omega (arith, p)) a

-- A live block whose bytes are kept is live in the new memory.
pub Live-kept :
    (ram ram' : Ram) (h : Heap) (fs rest : List Block) (q : Block)
    → Live ram h fs q
    → Kept ram ram' q
    → All (ApartFrom q) rest
    → Live ram' h rest q
Live-kept ram ram' h fs rest q l k a = record {
  above = l.above;
  below = l.below;
  large = l.large;
  header = size_of-same ram ram' q.start (λ y p r. k y p (omega (arith, l.large))) ∙ l.header;
  apart = a;
}

module _ (ram : Ram) (h : Heap) (live fs : List Block) (o : Owned ram h live fs) (t : Block)
    (rest : List Block) (needed : ℕ) (lower : header_size ≤ needed)
    (f : Fitted needed h.heap_start h.heap_end fs t rest) where
  taken-Owned :
      (r : Ram × Heap × ℕ)
      → Taken ram h 0 fs t rest r
      → Owned r.0 r.1 (t ∷ live) rest × All (Kept ram r.0) live
  unfolding link total
  taken-Owned r w =
      let kept : All (Kept ram r.0) live =
        All-map (Live ram h fs) (Kept ram r.0) live
          (λ q l y p u. w.frame y (inl refl) (apart-Outside fs q y p u l.apart)) o.lives in
      let g : Heap = record h {
        free_list = r.1.free_list;
        used = h.used + t.size;
        allocations = (h.allocations + 1) % 2 ^ 32;
      } in
      let lives : All (Live r.0 h rest) live =
        All-map (λ q. Live ram h fs q × Kept ram r.0 q) (Live r.0 h rest) live
          (λ q p. Live-kept ram r.0 h fs rest q p.0 p.1 ((f.others q p.0.large p.0.apart).1))
          (All-zip (Live ram h fs) (Kept ram r.0) live o.lives kept) in
      (
        subst (λ k. Owned r.0 k (t ∷ live) rest) (sym w.heap)
            (record {
              chain = w.linked;
              spaced = f.spaced;
              within = f.within;
              base = o.base;
              ready = o.ready;
              words = o.words;
              lives = (
                record {
                  above = f.above;
                  below = f.below;
                  large = omega (arith, f.lower);
                  header = w.header;
                  apart = f.apart;
                },
                All-map (Live r.0 h rest) (Live r.0 g rest) live
                    (λ q l. record {
                      above = l.above;
                      below = l.below;
                      large = l.large;
                      header = l.header;
                      apart = l.apart;
                    })
                    lives,
              );
              pairwise = (
                All-map (Live ram h fs) (ApartFrom t) live
                    (λ q l. omega (arith, (f.others q l.large l.apart).0)) o.lives,
                o.pairwise,
              );
              free_aligned = f.rest_aligned;
              live_aligned = (f.aligned, o.live_aligned);
              counted = omega (arith, o.counted);
              complete = omega (arith, o.complete, f.sum);
            }),
        kept,
      )

module _ (ram : Ram) (h : Heap) (size layout_align : ℕ) where
  -- The guards turn down a heap that is not ready, an empty request and a coarse alignment.
  pub allocate_refused :
      (h.heap_end ≤ h.heap_start) ⊎ ((size ≡ 0) ⊎ (align < layout_align))
      → allocate ram h size layout_align ≡ (ram, h, 0)
  unfolding allocate is_ready
  allocate_refused o = ground (arith, o)

  module _ (ready : h.heap_start < h.heap_end) (positive : size ≢ 0)
      (fine : layout_align ≤ align) where
    allocate_overflow :
        aligned_block_size size ≡ none → allocate ram h size layout_align ≡ (ram, h, 0)
    unfolding allocate is_ready
    allocate_overflow e = ground (arith, ready, positive, fine, e)

    allocate-search :
        (needed : ℕ)
        → aligned_block_size size ≡ some needed
        → allocate ram h size layout_align ≡ search (steps h) ram h needed 0 h.free_list
    unfolding allocate is_ready
    allocate-search needed e = ground (arith, ready, positive, fine, e)

some_injective : (a b : ℕ) → some a ≡ some b → a ≡ b
some_injective a b e = ground (arith, e)

granted :
    (ram : Ram) (h : Heap) (live fs : List Block) (size needed : ℕ) (r : Ram × Heap × ℕ)
    → Owned ram h live fs
    → aligned_block_size size ≡ some needed
    → (o : Option (Block × List Block)) → FitResult needed h.heap_start h.heap_end fs o
    → Searched ram h 0 fs o r
    → PutBack fs o
    → Refused ram h size fs r ⊎ Granted ram h size live fs r
granted ram h live fs size needed r o e none f w p =
    inl (w, λ n k. subst (λ m. All (λ b. b.size < m) fs) (some_injective needed n (sym e ∙ k)) f)
granted ram h live fs size needed r o e (some (t, rest)) f w p =
    let bounds = aligned_block_size_bounds size needed e in
    let done = taken-Owned ram h live fs o t rest needed (omega (arith, bounds)) f r w in
    inr (record {
      block = t;
      rest = rest;
      pointer = w.pointer;
      room = omega (arith, bounds, f.lower);
      owned = done.0;
      kept = done.1;
      back = p;
    })

-- On a heap that the blocks handed out and the free blocks share out, with no byte in two of them, a
-- request for some bytes with an alignment of at most 8 has one of two outcomes. Either nothing
-- changes, the pointer is null, and no free block is as large as the request needs. Or the pointer is
-- that of a new block with room for the request behind its header, the blocks with the new one share
-- out the heap as before, and every other block that was handed out keeps its bytes. The search needs
-- no more fuel than `allocate` gives it.
pub allocate-Owned :
    (ram : Ram) (h : Heap) (live fs : List Block) (size layout_align : ℕ)
    → Owned ram h live fs
    → size ≢ 0
    → layout_align ≤ align
    → Refused ram h size fs (allocate ram h size layout_align)
      ⊎ Granted ram h size live fs (allocate ram h size layout_align)
unfolding link
allocate-Owned ram h live fs size layout_align o positive fine =
    by_room (aligned_block_size size) refl
  where
    by_room :
        (n : Option ℕ)
        → aligned_block_size size ≡ n
        → Refused ram h size fs (allocate ram h size layout_align)
          ⊎ Granted ram h size live fs (allocate ram h size layout_align)
    by_room none e = inl (
      allocate_overflow ram h size layout_align o.ready positive fine e,
      λ n k. absurd (ground (arith, sym e ∙ k)),
    )
    by_room (some needed) e =
        let bounds = aligned_block_size_bounds size needed e in
        let lower : header_size ≤ needed = omega (arith, bounds) in
        rw (allocate-search ram h size layout_align o.ready positive fine needed e) (
          granted ram h live fs size needed (search (steps h) ram h needed 0 h.free_list) o e
            (fit needed fs)
            (fit-FitResult needed h.heap_end fs h.heap_start lower (omega (arith, bounds)) o.spaced
              o.within o.free_aligned)
            (search-Searched (steps h) h.heap_end fs ram h needed 0 h.free_list h.heap_start
              (length-steps h fs o.spaced o.within) o.words o.base lower o.spaced o.within o.chain
              refl)
            ((fit-PutBack needed fs h.heap_start o.spaced).1))
