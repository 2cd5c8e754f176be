-- ===== src/Memory/Heap/Take.antt =====
-- Taking a block out of the list, whole or without its tail: the body of the loop in `allocate`.
use goatos.Base.{
  ℕ, suc, ◌+◌, ◌-◌, ◌%◌, ◌^◌, ◌≤◌, ◌<◌, ◌≡◌, ◌≢◌, ◌⊎◌, refl, sym, ap, ◌∙◌, subst, true, false, List,
  ◌∷◌, leb, arith, All,
}
use goatos.Memory.Ram.{Ram}
use goatos.Memory.Heap.{
  Heap, header_size, size_of, next_of, set_size, set_next, unlink, cut, hand_over, take_block,
}
use goatos.Memory.Heap.Blocks.{Block, end_of, Spaced, Spaced-le, Below}
use goatos.Memory.Heap.Chain.{
  Chain, link, Outside, OffLink, set_size-frame, set_next-frame, size_of-same, next_of-same,
  size_of-set_size, next_of-set_next, size_of-set_next, unlink-frame, link-unlink, unlink-heap,
  link-same, Chain-frame, Chain-head,
}

-- A block of the list `bs` behind `prev` has been taken: `rest` hangs there now, the block's header
-- tells its size, no byte outside the list's blocks and the link at `prev` has changed, and the
-- counts are right.
pub record Taken (ram : Ram) (h : Heap) (prev : ℕ) (bs : List Block) (t : Block) (rest : List Block)
    (r : Ram × Heap × ℕ) : Type 0 where
  pub pointer : r.2 ≡ t.start + header_size
  pub linked : Chain r.0 (link r.0 r.1 prev) rest
  pub header : size_of r.0 t.start ≡ t.size
  pub frame : (y : ℕ) → OffLink y prev → All (Outside y) bs → r.0 y ≡ ram y
  pub heap : r.1 ≡ record h {
    free_list = r.1.free_list;
    used = h.used + t.size;
    allocations = (h.allocations + 1) % 2 ^ 32;
  }
  pub list_kept : prev ≢ 0 → r.1.free_list ≡ h.free_list

-- The header of the block that goes to the caller is the last that is written.
module _ (ram : Ram) (h : Heap) (current size : ℕ) where
  hand_over-frame :
      (y : ℕ) → (y < current) ⊎ (current + 8 ≤ y) → (hand_over ram h current size).0 y ≡ ram y
  unfolding hand_over
  hand_over-frame y o =
      set_next-frame (set_size ram current size) current 0 y (omega (arith, o))
      ∙ set_size-frame ram current size y (omega (arith, o))

  hand_over-size : size < 2 ^ 32 → size_of (hand_over ram h current size).0 current ≡ size
  unfolding hand_over
  hand_over-size lt =
      size_of-set_next (set_size ram current size) current 0 ∙ size_of-set_size ram current size lt

-- What the first part, `cut`, leaves: the rest hangs behind `prev`.
record Cut (ram : Ram) (h : Heap) (prev : ℕ) (b : Block) (rest : List Block) (r : Ram × Heap)
    : Type 0 where
  linked : Chain r.0 (link r.0 r.1 prev) rest
  frame : (y : ℕ) → OffLink y prev → Outside y b → r.0 y ≡ ram y
  heap : r.1 ≡ record h { free_list = r.1.free_list }
  list_kept : prev ≢ 0 → r.1.free_list ≡ h.free_list

module _ (ram : Ram) (h : Heap) (prev needed limit : ℕ) (b : Block) (bs : List Block)
    (behind : prev + 8 ≤ b.start) (spaced : Spaced b.start (b ∷ bs)) (small : limit ≤ 2 ^ 32 - 1)
    (within : All (Below limit) (b ∷ bs)) (chain : Chain ram (next_of ram b.start) bs)
    (lower : header_size ≤ needed) (upper : needed ≤ b.size) where
  next_small : next_of ram b.start < 2 ^ 32
  next_small = Chain-head ram (next_of ram b.start) limit bs small within.1 chain

  cut-split :
      leb header_size (b.size - needed) ≡ true
      → Cut ram h prev b
          (record { start = b.start + needed; size = b.size - needed } ∷ bs)
          (cut ram h prev b.start needed (b.size - needed))
  unfolding cut
  cut-split e =
      let room : header_size ≤ b.size - needed = ground (arith, e) in
      let split = b.start + needed in
      let next = next_of ram b.start in
      let ram1 = set_size ram split (b.size - needed) in
      let ram2 = set_next ram1 split next in
      let un = unlink ram2 h prev split in
      let top : b.start + b.size ≤ limit = within.0 in
      let kept : (y : ℕ) → b.start ≤ y → un.0 y ≡ ram2 y =
        λ y p. unlink-frame ram2 h prev split y (omega arith) in
      let outer : (y : ℕ) → Outside y b → ram2 y ≡ ram y = λ y o.
        set_next-frame ram1 split next y (omega (arith, o))
        ∙ set_size-frame ram split (b.size - needed) y (omega (arith, o)) in
      rw (e, cut)
        (record {
          linked = (
            link-unlink ram2 h prev split (omega arith),
            size_of-same ram2 un.0 split (λ y p q. kept y (omega arith))
                ∙ size_of-set_next ram1 split next
                ∙ size_of-set_size ram split (b.size - needed) (omega arith),
            subst (λ n. Chain un.0 n bs)
                (sym (
                  next_of-same ram2 un.0 split (λ y p q. kept y (omega arith))
                  ∙ next_of-set_next ram1 split next next_small))
                (Chain-frame ram un.0 bs (suc (end_of b)) next spaced.2
                  (λ y p. kept y (omega arith) ∙ outer y (omega arith)) chain),
          );
          frame = λ y o q. unlink-frame ram2 h prev split y o ∙ outer y q;
          heap = (unlink-heap ram2 h prev split).0;
          list_kept = (unlink-heap ram2 h prev split).1;
        })

  cut-whole :
      leb header_size (b.size - needed) ≡ false
      → Cut ram h prev b bs (cut ram h prev b.start needed (b.size - needed))
  unfolding cut
  cut-whole e =
      let next = next_of ram b.start in
      let un = unlink ram h prev next in
      rw (e, cut)
        (record {
          linked =
              subst (λ n. Chain un.0 n bs) (sym (link-unlink ram h prev next next_small))
                (Chain-frame ram un.0 bs (suc (end_of b)) next spaced.2
                  (λ y p. unlink-frame ram h prev next y (omega arith)) chain);
          frame = λ y o q. unlink-frame ram h prev next y o;
          heap = (unlink-heap ram h prev next).0;
          list_kept = (unlink-heap ram h prev next).1;
        })

  hand-Taken :
      (rest : List Block) (total : ℕ) (r : Ram × Heap)
      → Cut ram h prev b rest r
      → Spaced (b.start + 8) rest
      → total ≤ b.size
      → Taken ram h prev
          (b ∷ bs)
          (record { start = b.start; size = total })
          rest
          (hand_over r.0 r.1 b.start total)
  unfolding hand_over
  hand-Taken rest total r c s le =
      let done = hand_over r.0 r.1 b.start total in
      let top : b.start + b.size ≤ limit = within.0 in
      let same : link done.0 done.1 prev ≡ link r.0 r.1 prev =
        link-same r.0 done.0 r.1 done.1 prev (λ e. refl)
          (λ n y p q. hand_over-frame r.0 r.1 b.start total y (omega arith)) in
      record {
        pointer = refl;
        linked =
            subst (λ n. Chain done.0 n rest) (sym same)
              (Chain-frame r.0 done.0 rest (b.start + 8) (link r.0 r.1 prev) s
                (λ y p. hand_over-frame r.0 r.1 b.start total y (omega arith)) c.linked);
        header = hand_over-size r.0 r.1 b.start total (omega arith);
        frame = λ y o q.
            hand_over-frame r.0 r.1 b.start total y (omega (arith, q.0, spaced.1))
            ∙ c.frame y o q.0;
        heap =
            ap {A = Heap}
              (λ g. record g { used = g.used + total; allocations = (g.allocations + 1) % 2 ^ 32 })
              c.heap;
        list_kept = c.list_kept;
      }

  pub take_block-split :
      size_of ram b.start ≡ b.size
      → leb header_size (b.size - needed) ≡ true
      → Taken ram h prev
          (b ∷ bs)
          (record { start = b.start; size = needed })
          (record { start = b.start + needed; size = b.size - needed } ∷ bs)
          (take_block ram h prev b.start needed)
  unfolding take_block
  take_block-split sized e =
      rw (sized, e, take_block)
        (hand-Taken _ needed (cut ram h prev b.start needed (b.size - needed)) (cut-split e)
          (omega arith, ground (arith, e), Spaced-le bs _ _ (omega arith) spaced.2) upper)

  pub take_block-whole :
      size_of ram b.start ≡ b.size
      → leb header_size (b.size - needed) ≡ false
      → Taken ram h prev (b ∷ bs) b bs (take_block ram h prev b.start needed)
  unfolding take_block
  take_block-whole sized e =
      let all : needed + (b.size - needed) ≡ b.size = omega arith in
      rw (sized, e, take_block)
        (subst
          (λ z.
            Taken ram h prev (b ∷ bs) (record { start = b.start; size = z }) bs
              (hand_over (cut ram h prev b.start needed (b.size - needed)).0
                (cut ram h prev b.start needed (b.size - needed)).1 b.start
                (needed + (b.size - needed))))
          all
          (hand-Taken bs (needed + (b.size - needed))
            (cut ram h prev b.start needed (b.size - needed)) (cut-whole e)
            (Spaced-le bs _ _ (omega (arith, spaced.1)) spaced.2) (omega arith)))
