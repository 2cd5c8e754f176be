-- ===== src/Memory/Heap/Walk.antt =====
-- The walk of `insert_free` to the block's place behind another block of the list.
use goatos.Base.{
  ℕ, zero, suc, ◌+◌, ◌-◌, ◌^◌, ◌≤◌, ◌<◌, ◌≡◌, ◌≢◌, ◌⊎◌, inl, inr, refl, sym, ◌∙◌, subst, true,
  false, List, [], ◌∷◌, ltb, arith, Bool-cases, All, length,
}
use goatos.Memory.Ram.{Ram}
use goatos.Memory.Heap.{Heap, header_size, size_of, next_of, locate, splice}
use goatos.Memory.Heap.Blocks.{Block, end_of, Spaced, Below, ApartFrom, join, insert_after}
use goatos.Memory.Heap.Chain.{Chain, size_of-same, next_of-same}
use goatos.Memory.Heap.Join.{OffHeader}
use goatos.Memory.Heap.Insert.{Loose, splice-after}

-- One round of the walk.
module _ (fuel : ℕ) (ram : Ram) (block prev current : ℕ) where
  pub locate-stop :
      (current ≡ 0) ⊎ (block ≤ current) → locate (suc fuel) ram block prev current ≡ (prev, current)
  unfolding locate
  locate-stop o = ground (arith, o)

  pub locate-step :
      current ≢ 0
      → current < block
      → locate (suc fuel) ram block prev current
        ≡ locate fuel ram block current (next_of ram current)
  unfolding locate
  locate-step n l = ground (arith, n, l)

-- `insert_free` from the place that the walk has found.
abbrev pub splice_at : Ram → Heap → ℕ → ℕ × ℕ → Ram × Heap
splice_at ram h block place = splice ram h block place.0 place.1

-- The block `x`, its header in place, and a list in memory with no byte in common with it.
pub record Spare (ram : Ram) (x : Block) (bs : List Block) (limit : ℕ) : Type 0 where
  pub sized : size_of ram x.start ≡ x.size
  pub large : header_size ≤ x.size
  pub fits : end_of x ≤ limit
  pub words : limit ≤ 2 ^ 32 - 1
  pub within : All (Below limit) bs
  pub apart : All (ApartFrom x) bs

before_header : (bs : List Block) (lo y : ℕ) → y < lo → Spaced lo bs → All (OffHeader y) bs
before_header [] lo y lt s = tt
before_header (b ∷ bs) lo y lt s =
    (inl (omega (arith, s.0)), before_header bs (suc (end_of b)) y (omega (arith, s.0)) s.2)

pub insert_after_behind :
    (b c : Block) (cs : List Block) (x : Block)
    → ltb c.start x.start ≡ true
    → insert_after b (c ∷ cs) x ≡ b ∷ insert_after c cs x
unfolding insert_after
insert_after_behind b c cs x e = rw (e, insert_after) refl

pub insert_after_here :
    (b c : Block) (cs : List Block) (x : Block)
    → ltb c.start x.start ≡ false
    → insert_after b (c ∷ cs) x ≡ join b (join x (c ∷ cs))
unfolding insert_after
insert_after_here b c cs x e = rw (e, insert_after) refl

pub place_after :
    (fuel limit : ℕ) (bs : List Block) (ram : Ram) (h : Heap) (x b : Block)
    → length bs < fuel
    → Spare ram x bs limit
    → 8 ≤ b.start
    → header_size ≤ b.size
    → size_of ram b.start ≡ b.size
    → end_of b ≤ x.start
    → Spaced (suc (end_of b)) bs
    → Chain ram (next_of ram b.start) bs
    → (let r = splice_at ram h x.start (locate fuel ram x.start b.start (next_of ram b.start)) in
        Chain r.0 b.start (insert_after b bs x)
        × ((y : ℕ) → OffHeader y x → OffHeader y b → All (OffHeader y) bs → r.0 y ≡ ram y)
        × (r.1 ≡ h))
unfolding insert_after
place_after zero limit bs ram h x b f sp lo large sized below s c = absurd (omega arith)
place_after (suc fuel) limit [] ram h x b f sp lo large sized below s c =
    let loose : Loose ram x [] limit (next_of ram b.start) = record {
      sized = sp.sized;
      rest = c;
      large = sp.large;
      spaced = tt;
      fits = sp.fits;
      within = tt;
      words = sp.words;
    } in
    let r =
      splice-after ram h x [] limit (next_of ram b.start) loose (omega arith) b below sized large
        lo in
    rw (locate-stop fuel ram x.start b.start (next_of ram b.start) (inl c))
      (r.0, λ y o p q. r.1 y o p, r.2)
place_after (suc fuel) limit (n ∷ ns) ram h x b f sp lo large sized below s c =
    elim (Bool-cases (ltb n.start x.start)) [
      | inl e ↦
          let solid : next_of ram b.start ≢ 0 = omega (arith, c.0, s.0) in
          let less : n.start < x.start = ground (arith, e) in
          let past : end_of n ≤ x.start = omega (arith, sp.apart.0, less, sp.large) in
          let spare : Spare ram x ns limit = record {
            sized = sp.sized;
            large = sp.large;
            fits = sp.fits;
            words = sp.words;
            within = sp.within.1;
            apart = sp.apart.1;
          } in
          let r =
            place_after fuel limit ns ram h x n (omega arith) spare (omega (arith, s.0)) s.1 c.1
              past s.2 c.2 in
          let done =
            splice_at ram h x.start (locate fuel ram x.start n.start (next_of ram n.start)) in
          let same : (y : ℕ) → b.start ≤ y → y < b.start + 8 → done.0 y ≡ ram y = λ y p q.
            r.1 y (omega arith) (omega (arith, s.0))
              (before_header ns (suc (end_of n)) y (omega (arith, s.0)) s.2) in
          rw
            (
              locate-step fuel ram x.start b.start (next_of ram b.start) solid
                  (omega (arith, c.0, less)),
              c.0,
              insert_after_behind b n ns x e,
            )
            (
              (
                refl,
                size_of-same ram done.0 b.start (λ y p q. same y p (omega arith)) ∙ sized,
                subst (λ m. Chain done.0 m (insert_after n ns x))
                    (sym (next_of-same ram done.0 b.start (λ y p q. same y (omega arith) q) ∙ c.0))
                    r.0,
              ),
              λ y o p q. r.1 y o q.0 q.1,
              r.2,
            )
      | inr e ↦
          let most : x.start ≤ n.start = ground (arith, e) in
          let gap : end_of x ≤ n.start = omega (arith, sp.apart.0, most, s.1) in
          let loose : Loose ram x (n ∷ ns) limit (next_of ram b.start) = record {
            sized = sp.sized;
            rest = c;
            large = sp.large;
            spaced = (gap, s.1, s.2);
            fits = sp.fits;
            within = sp.within;
            words = sp.words;
          } in
          let r =
            splice-after ram h x (n ∷ ns) limit (next_of ram b.start) loose (omega arith) b below
              sized large lo in
          rw
            (
              locate-stop fuel ram x.start b.start (next_of ram b.start)
                  (inr (omega (arith, c.0, most))),
              insert_after_here b n ns x e,
            )
            (r.0, λ y o p q. r.1 y o p, r.2)
    ]
