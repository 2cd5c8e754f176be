-- ===== src/Memory/Heap/Insert.antt =====
-- `insert_free` puts a block where `insert` puts it, joined with the neighbours that it touches.
use goatos.Base.{ℕ, ◌+◌, ◌-◌, ◌^◌, ◌≤◌, ◌<◌, ◌≡◌, ◌≢◌, inl, refl, sym, ◌∙◌, subst, List, arith, All}
use goatos.Memory.Ram.{Ram}
use goatos.Memory.Heap.{
  Heap, header_size, size_of, next_of, set_next, unlink, merge_following, merge_previous, splice,
}
use goatos.Memory.Heap.Blocks.{Block, end_of, Spaced, Below, join}
use goatos.Memory.Heap.Chain.{
  Chain, link, OffLink, set_next-frame, size_of-same, next_of-same, next_of-set_next,
  size_of-set_next, unlink-frame, link-unlink, Chain-frame, Chain-head,
}
use goatos.Memory.Heap.Join.{OffHeader, Front, merge-Joined, join-head, join-Spaced, join-Below}

-- A block with its size in memory, to go in front of a list that hangs at `current`.
pub record Loose (ram : Ram) (x : Block) (bs : List Block) (limit current : ℕ) : Type 0 where
  pub sized : size_of ram x.start ≡ x.size
  pub rest : Chain ram current bs
  pub large : header_size ≤ x.size
  pub spaced : Spaced (end_of x) bs
  pub fits : end_of x ≤ limit
  pub within : All (Below limit) bs
  pub words : limit ≤ 2 ^ 32 - 1

-- The two joins are the same code.
merge_previous-merge_following :
    (ram : Ram) (prev block : ℕ)
    → prev ≢ 0
    → block ≢ 0
    → merge_previous ram prev block ≡ merge_following ram prev block
unfolding merge_previous merge_following
merge_previous-merge_following ram prev block p b = ground (arith, p, b)

link_some : (ram : Ram) (h : Heap) (prev : ℕ) → prev ≢ 0 → link ram h prev ≡ next_of ram prev
unfolding link
link_some ram h prev n = ground (arith, n)

unlink-heap_some : (ram : Ram) (h : Heap) (prev x : ℕ) → prev ≢ 0 → (unlink ram h prev x).1 ≡ h
unfolding unlink
unlink-heap_some ram h prev x n = ground (arith, n)

merge_previous_none : (ram : Ram) (block : ℕ) → merge_previous ram 0 block ≡ ram
unfolding merge_previous
merge_previous_none ram block = refl

module _ (ram : Ram) (h : Heap) (x : Block) (bs : List Block) (limit current : ℕ)
    (loose : Loose ram x bs limit current) (above : 8 ≤ x.start) where
  current_small : current < 2 ^ 32
  current_small = Chain-head ram current limit bs loose.words loose.within loose.rest

  -- Linked behind `prev`, with no join yet.
  linked : ℕ → Ram × Heap
  linked prev = unlink (set_next ram x.start current) h prev x.start

  linked-frame :
      (prev y : ℕ) → prev + 8 ≤ x.start → OffLink y prev → OffHeader y x → (linked prev).0 y ≡ ram y
  unfolding linked
  linked-frame prev y p o q =
      unlink-frame (set_next ram x.start current) h prev x.start y o
      ∙ set_next-frame ram x.start current y (omega (arith, q))

  linked-Front :
      (prev : ℕ)
      → prev + 8 ≤ x.start
      → Front (linked prev).0 x bs limit × (next_of (linked prev).0 x.start ≡ current)
  unfolding linked
  linked-Front prev p =
      let ram1 = set_next ram x.start current in
      let ram2 = (linked prev).0 in
      let same : (y : ℕ) → x.start ≤ y → ram2 y ≡ ram1 y =
        λ y q. unlink-frame ram1 h prev x.start y (omega arith) in
      let next : next_of ram2 x.start ≡ current =
        next_of-same ram1 ram2 x.start (λ y q r. same y (omega arith))
        ∙ next_of-set_next ram x.start current current_small in
      (
        record {
          sized =
              size_of-same ram1 ram2 x.start (λ y q r. same y q)
              ∙ size_of-set_next ram x.start current
              ∙ loose.sized;
          rest =
              subst (λ n. Chain ram2 n bs) (sym next)
                (Chain-frame ram ram2 bs (end_of x) current loose.spaced
                  (λ y q. linked-frame prev y p (omega arith) (omega (arith, loose.large)))
                  loose.rest);
          large = loose.large;
          spaced = loose.spaced;
          fits = loose.fits;
          within = loose.within;
          words = loose.words;
        },
        next,
      )

  -- At the head of the list.
  pub splice-top :
      Chain (splice ram h x.start 0 current).0 x.start (join x bs)
      × ((y : ℕ) → OffHeader y x → (splice ram h x.start 0 current).0 y ≡ ram y)
      × ((splice ram h x.start 0 current).1 ≡ record h { free_list = x.start })
  unfolding splice linked unlink
  splice-top =
      let f = linked-Front 0 (omega arith) in
      let j = merge-Joined (linked 0).0 x bs limit current f.0 f.1 in
      rw (merge_previous_none (merge_following (linked 0).0 x.start current) x.start)
        (j.0, λ y o. j.1 y o ∙ linked-frame 0 y (omega arith) (inl refl) o, refl)

  -- Behind the block `b`.
  module _ (b : Block) (below : end_of b ≤ x.start) (sized : size_of ram b.start ≡ b.size)
      (large : header_size ≤ b.size) (first : 8 ≤ b.start) where
    pub splice-after :
        Chain (splice ram h x.start b.start current).0 b.start (join b (join x bs))
        × ((y : ℕ)
            → OffHeader y x
            → OffHeader y b
            → (splice ram h x.start b.start current).0 y ≡ ram y)
        × ((splice ram h x.start b.start current).1 ≡ h)
    unfolding splice linked
    splice-after =
        let apart : b.start ≢ 0 = omega arith in
        let solid : x.start ≢ 0 = omega arith in
        let prior : b.start + 8 ≤ x.start = omega arith in
        let ram1 = set_next ram x.start current in
        let un = linked b.start in
        let f = linked-Front b.start prior in
        let ram3 = merge_following un.0 x.start current in
        let j = merge-Joined un.0 x bs limit current f.0 f.1 in
        let head = join-head x bs in
        let lead : next_of ram3 b.start ≡ x.start =
          next_of-same un.0 ram3 b.start (λ y p q. j.1 y (omega arith))
          ∙ sym (link_some un.0 un.1 b.start apart)
          ∙ link-unlink ram1 h b.start x.start
              (omega (arith, loose.fits, loose.large, loose.words)) in
        let front : Front ram3 b (join x bs) limit = record {
          sized =
              size_of-same un.0 ram3 b.start (λ y p q. j.1 y (omega arith))
              ∙ size_of-same ram un.0 b.start
                  (λ y p q. linked-frame b.start y prior (omega arith) (omega arith))
              ∙ sized;
          rest = subst (λ n. Chain ram3 n (join x bs)) (sym lead) j.0;
          large = large;
          spaced = join-Spaced x bs (end_of b) below loose.large loose.spaced;
          fits = omega (arith, loose.fits);
          within = join-Below x bs limit loose.fits loose.within;
          words = loose.words;
        } in
        let k = merge-Joined ram3 b (join x bs) limit x.start front lead in
        rw (merge_previous-merge_following ram3 b.start x.start apart solid) (
          k.0,
          λ y o p. k.1 y p ∙ j.1 y o ∙ linked-frame b.start y prior (omega (arith, p)) o,
          unlink-heap_some ram1 h b.start x.start apart,
        )
