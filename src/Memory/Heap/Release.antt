-- ===== src/Memory/Heap/Release.antt =====
-- Giving a block back: it joins the free list, and nobody else's bytes change.
use goatos.Base.{
  ℕ, suc, ◌+◌, ◌-◌, ◌%◌, ◌^◌, ◌≤◌, ◌<◌, ◌≡◌, ◌≢◌, ◌⊎◌, inl, inr, refl, sym, ◌∙◌, subst, List, [],
  ◌∷◌, arith, All, All-map, All-zip,
}
use goatos.Memory.Ram.{Ram}
use goatos.Memory.Heap.{
  Heap, header_size, size_of, next_of, is_ready, insert_free, allocate, deallocate,
}
use goatos.Memory.Heap.Blocks.{Block, end_of, Spaced, ApartFrom, total, insert, length-steps}
use goatos.Memory.Heap.Chain.{Chain}
use goatos.Memory.Heap.Join.{OffHeader}
use goatos.Memory.Heap.Place.{Inserted, insert_free-Inserted}
use goatos.Memory.Heap.Owners.{Aligned, Live, Pairwise, Owned, Kept, Owned-whole}
use goatos.Memory.Heap.Serve.{Live-kept, Refused, allocate-Owned}
use goatos.Memory.Heap.Made.{Good, Made, insert-Made}

-- `rest` is `bs` without the block `x`.
abbrev pub Without : Block → List Block → List Block → Type 0
Without x [] rest = ⊥
Without x (b ∷ bs) rest =
    ((x ≡ b) × (rest ≡ bs)) ⊎ ((fewer : List Block) × (rest ≡ b ∷ fewer) × Without x bs fewer)

Without-All :
    (P : Block → Type 0) (x : Block) (bs rest : List Block)
    → Without x bs rest
    → All P bs
    → P x × All P rest
Without-All P x [] rest w a = absurd w
Without-All P x (b ∷ bs) rest (inl (e, r)) a = (subst P (sym e) a.0, subst (All P) (sym r) a.1)
Without-All P x (b ∷ bs) rest (inr (fewer, r, w)) a =
    let deep = Without-All P x bs fewer w a.1 in (deep.0, subst (All P) (sym r) (a.0, deep.1))

Without-total :
    (x : Block) (bs rest : List Block) → Without x bs rest → total bs ≡ x.size + total rest
unfolding total
Without-total x [] rest w = absurd w
Without-total x (b ∷ bs) rest (inl (e, r)) = rw (e, r) refl
Without-total x (b ∷ bs) rest (inr (fewer, r, w)) = rw r (omega (arith, Without-total x bs fewer w))

Without-Pairwise :
    (x : Block) (bs rest : List Block)
    → Without x bs rest
    → Pairwise bs
    → All (ApartFrom x) rest × Pairwise rest
Without-Pairwise x [] rest w p = absurd w
Without-Pairwise x (b ∷ bs) rest (inl (e, r)) p = rw (e, r) p
Without-Pairwise x (b ∷ bs) rest (inr (fewer, r, w)) p =
    let deep = Without-Pairwise x bs fewer w p.1 in
    let here = Without-All (ApartFrom b) x bs fewer w p.0 in
    rw r ((omega (arith, here.0), deep.0), (here.1, deep.1))

module _ (ram : Ram) (h : Heap) (ptr : ℕ) where
  -- A null pointer and a pointer to no payload of the heap are ignored.
  pub deallocate_ignored :
      (ptr ≡ 0) ⊎ ((ptr < h.heap_start + header_size) ⊎ (h.heap_end + header_size ≤ ptr))
      → h.heap_end + header_size ≤ 2 ^ 32
      → ptr < 2 ^ 32
      → deallocate ram h ptr ≡ (ram, h)
  unfolding deallocate
  deallocate_ignored o base small = ground (arith, o, base, small)

deallocate_block :
    (ram : Ram) (h : Heap) (x : Block)
    → h.heap_start < h.heap_end
    → h.heap_end ≤ 2 ^ 32 - 1
    → 8 ≤ h.heap_start
    → Live ram h [] x
    → deallocate ram h (x.start + header_size)
      ≡ insert_free ram (record h { used = h.used - x.size }) x.start x.size
unfolding deallocate is_ready
deallocate_block ram h x ready words base l =
    let back : (x.start + 8 + 2 ^ 32 - 8) % 2 ^ 32 ≡ x.start =
      omega (arith, l.below, l.large, words) in
    rw (back, l.header) (ground (arith, ready, words, base, l.above, l.below, l.large))

-- No byte of a live block is in the header of a free block or of another live block.
off_headers :
    (fs : List Block) (lo : ℕ) (q : Block) (y : ℕ)
    → q.start ≤ y
    → y < end_of q
    → Spaced lo fs
    → All (ApartFrom q) fs
    → All (OffHeader y) fs
off_headers [] lo q y l u s a = tt
off_headers (b ∷ bs) lo q y l u s a =
    (omega (arith, a.0, s.1), off_headers bs (suc (end_of b)) q y l u s.2 a.1)

released :
    (ram : Ram) (h : Heap) (live fs rest : List Block) (x : Block)
    → Owned ram h live fs
    → header_size ≤ x.size
    → All (Live ram h fs) rest
    → All Aligned rest
    → All (ApartFrom x) rest
    → Pairwise rest
    → total live ≡ x.size + total rest
    → Made h.heap_start h.heap_end x fs (insert fs x)
    → (r : Ram × Heap) → Inserted ram (record h { used = h.used - x.size }) fs x r
    → Owned r.0 r.1 rest (insert fs x) × All (Kept ram r.0) rest
released ram h live fs rest x o large lives evens apart pairs sum made r i =
    let both = All-zip (Live ram h fs) (ApartFrom x) rest lives apart in
    let kept : All (Kept ram r.0) rest =
      All-map (λ q. Live ram h fs q × ApartFrom x q) (Kept ram r.0) rest
        (λ q p y l u.
          i.1 y (omega (arith, p.1, large))
            (off_headers fs h.heap_start q y l u o.spaced p.0.apart))
        both in
    let g : Heap = record h { free_list = r.1.free_list; used = h.used - x.size } in
    let lives_now : All (Live r.0 g (insert fs x)) rest =
      All-map (λ q. (Live ram h fs q × ApartFrom x q) × Kept ram r.0 q) (Live r.0 g (insert fs x))
        rest
        (λ q p.
          let l =
            Live-kept ram r.0 h fs (insert fs x) q p.0.0 p.1
              (made.others q p.0.0.large (omega (arith, p.0.1)) p.0.0.apart) in
          record {
            above = l.above;
            below = l.below;
            large = l.large;
            header = l.header;
            apart = l.apart;
          })
        (All-zip (λ q. Live ram h fs q × ApartFrom x q) (Kept ram r.0) rest both kept) in
    (
      subst (λ k. Owned r.0 k rest (insert fs x)) (sym i.2)
          (record {
            chain = i.0;
            spaced = made.good.spaced;
            within = made.good.within;
            base = o.base;
            ready = o.ready;
            words = o.words;
            lives = lives_now;
            pairwise = pairs;
            free_aligned = made.good.aligned;
            live_aligned = evens;
            counted = omega (arith, o.counted, sum);
            complete = omega (arith, o.complete, sum, made.sum);
          }),
      kept,
    )

-- On a heap that the blocks share out, giving back any block that was handed out puts it where
-- `insert` puts it in the sorted free list, joined with the free neighbours that it touches; the
-- blocks left share out the heap as before, with the right count of used bytes, and every other block
-- that is handed out keeps its bytes. The walk needs no more fuel than `deallocate` gives it.
pub deallocate-Owned :
    (ram : Ram) (h : Heap) (live fs rest : List Block) (x : Block)
    → Owned ram h live fs
    → Without x live rest
    → (let r = deallocate ram h (x.start + header_size) in
        Owned r.0 r.1 rest (insert fs x) × All (Kept ram r.0) rest)
deallocate-Owned ram h live fs rest x o w =
    let lives = Without-All (Live ram h fs) x live rest w o.lives in
    let evens = Without-All Aligned x live rest w o.live_aligned in
    let pairs = Without-Pairwise x live rest w o.pairwise in
    let l = lives.0 in
    let g : Heap = record h { used = h.used - x.size } in
    let good : Good h.heap_start h.heap_end fs = record {
      spaced = o.spaced;
      within = o.within;
      aligned = o.free_aligned;
    } in
    let made =
      insert-Made h.heap_end x l.large l.below evens.0 h.heap_start fs l.above good l.apart in
    let inserted =
      insert_free-Inserted h.heap_end fs ram g x h.heap_start (length-steps g fs o.spaced o.within)
        l.large l.below o.words o.within l.apart o.base l.above o.spaced o.chain in
    rw
      (deallocate_block ram h x o.ready o.words o.base (record {
        above = l.above;
        below = l.below;
        large = l.large;
        header = l.header;
        apart = tt;
      }))
      (released ram h live fs rest x o l.large lives.1 evens.1 pairs.0 pairs.1
        (Without-total x live rest w) made (insert_free ram g x.start x.size) inserted)

-- On a heap that the blocks share out, a request for some bytes with an alignment of at most 8 is
-- turned down, or giving its block back at once leaves the heap as it was: the same blocks are handed
-- out, with the same bytes, and the same ones are free.
pub allocate-deallocate :
    (ram : Ram) (h : Heap) (live fs : List Block) (size layout_align : ℕ)
    → Owned ram h live fs
    → size ≢ 0
    → layout_align ≤ 8
    → (let r = allocate ram h size layout_align in
        let s = deallocate r.0 r.1 r.2 in
        Refused ram h size fs r ⊎ (Owned s.0 s.1 live fs × All (Kept ram s.0) live))
allocate-deallocate ram h live fs size layout_align o positive fine =
    elim (allocate-Owned ram h live fs size layout_align o positive fine) [
      | inl refused ↦ inl refused
      | inr g ↦
          let r = allocate ram h size layout_align in
          let d =
            deallocate-Owned r.0 r.1 (g.block ∷ live) g.rest live g.block g.owned
              (inl (refl, refl)) in
          inr (
            rw (g.pointer, sym g.back)
              (
                d.0,
                All-map
                    (λ q.
                      Kept ram r.0 q
                      × Kept r.0 (deallocate r.0 r.1 (g.block.start + header_size)).0 q)
                    (Kept ram (deallocate r.0 r.1 (g.block.start + header_size)).0) live
                    (λ q p y l u. p.1 y l u ∙ p.0 y l u)
                    (All-zip (Kept ram r.0)
                      (Kept r.0 (deallocate r.0 r.1 (g.block.start + header_size)).0) live g.kept
                      d.1),
              ))
    ]

-- When a heap that the blocks share out gets back the last block that was handed out, no fragment is
-- left: the free list is one block that covers the whole heap, and no byte counts as used.
pub deallocate-whole :
    (ram : Ram) (h : Heap) (fs : List Block) (x : Block)
    → Owned ram h (x ∷ []) fs
    → (let r = deallocate ram h (x.start + header_size) in
        (r.1.free_list ≡ r.1.heap_start)
        × (size_of r.0 r.1.heap_start ≡ r.1.heap_end - r.1.heap_start)
        × (next_of r.0 r.1.heap_start ≡ 0)
        × (r.1.used ≡ 0))
unfolding total
deallocate-whole ram h fs x o =
    let r = deallocate ram h (x.start + header_size) in
    let d = (deallocate-Owned ram h (x ∷ []) fs [] x o (inl (refl, refl))).0 in
    let c : Chain r.0 r.1.free_list
        (record { start = r.1.heap_start; size = r.1.heap_end - r.1.heap_start } ∷ []) =
      subst (Chain r.0 r.1.free_list) (Owned-whole r.0 r.1 (insert fs x) d) d.chain in
    (c.0, c.1, c.2, d.counted)
