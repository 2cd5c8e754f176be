-- ===== src/Memory/Heap/Place.antt =====
-- The whole of `insert_free` against `insert`.
use goatos.Base.{
  ℕ, zero, suc, ◌+◌, ◌-◌, ◌^◌, ◌≤◌, ◌<◌, ◌≡◌, ◌≢◌, inl, inr, refl, sym, ap, ◌∙◌, subst, true, false,
  List, [], ◌∷◌, ltb, arith, Bool-cases, All, length,
}
use goatos.Memory.Ram.{Ram}
use goatos.Memory.Heap.{
  Heap, header_size, size_of, next_of, set_size, set_next, locate, insert_free, steps,
}
use goatos.Memory.Heap.Blocks.{Block, end_of, Spaced, Below, ApartFrom, join, insert_after, insert}
use goatos.Memory.Heap.Chain.{
  Chain, set_size-frame, set_next-frame, size_of-same, next_of-same, size_of-set_size,
  size_of-set_next,
}
use goatos.Memory.Heap.Join.{OffHeader}
use goatos.Memory.Heap.Insert.{Loose, splice-top}
use goatos.Memory.Heap.Walk.{locate-stop, locate-step, splice_at, Spare, place_after}

-- The header of the new block is outside every block of the list.
module _ (ram : Ram) (x : Block) where
  abbrev headed : Ram
  headed = set_next (set_size ram x.start x.size) x.start 0

  headed-frame : (y : ℕ) → OffHeader y x → headed y ≡ ram y
  headed-frame y o =
      set_next-frame (set_size ram x.start x.size) x.start 0 y (omega (arith, o))
      ∙ set_size-frame ram x.start x.size y (omega (arith, o))

  headed-size : x.size < 2 ^ 32 → size_of headed x.start ≡ x.size
  headed-size l =
      size_of-set_next (set_size ram x.start x.size) x.start 0
      ∙ size_of-set_size ram x.start x.size l

  headed-Chain :
      (bs : List Block) (lo head : ℕ)
      → header_size ≤ x.size
      → Spaced lo bs
      → All (ApartFrom x) bs
      → Chain ram head bs
      → Chain headed head bs
  headed-Chain [] lo head l s a c = c
  headed-Chain (b ∷ bs) lo head l s a c =
      let same : (y : ℕ) → b.start ≤ y → y < b.start + 8 → headed y ≡ ram y =
        λ y p q. headed-frame y (omega (arith, a.0, s.1)) in
      (
        c.0,
        size_of-same ram headed b.start (λ y p q. same y p (omega arith)) ∙ c.1,
        subst (λ n. Chain headed n bs)
            (sym (next_of-same ram headed b.start (λ y p q. same y (omega arith) q)))
            (headed-Chain bs (suc (end_of b)) (next_of ram b.start) l s.2 a.1 c.2),
      )

-- What putting a block back comes to.
abbrev pub Inserted : Ram → Heap → List Block → Block → Ram × Heap → Type 0
Inserted ram h fs x r =
    Chain r.0 r.1.free_list (insert fs x)
    × ((y : ℕ) → OffHeader y x → All (OffHeader y) fs → r.0 y ≡ ram y)
    × (r.1 ≡ record h { free_list = r.1.free_list })

pub insert_behind :
    (b : Block) (bs : List Block) (x : Block)
    → ltb b.start x.start ≡ true
    → insert (b ∷ bs) x ≡ insert_after b bs x
unfolding insert
insert_behind b bs x e = rw (e, insert) refl

pub insert_here :
    (b : Block) (bs : List Block) (x : Block)
    → ltb b.start x.start ≡ false
    → insert (b ∷ bs) x ≡ join x (b ∷ bs)
unfolding insert
insert_here b bs x e = rw (e, insert) refl

insert_none : (x : Block) → insert [] x ≡ join x []
unfolding insert join
insert_none x = refl

place_top :
    (fuel limit : ℕ) (fs : List Block) (ram : Ram) (h : Heap) (x : Block) (lo : ℕ)
    → length fs < fuel
    → Spare ram x fs limit
    → 8 ≤ lo
    → lo ≤ x.start
    → Spaced lo fs
    → Chain ram h.free_list fs
    → Inserted ram h fs x (splice_at ram h x.start (locate fuel ram x.start 0 h.free_list))
place_top zero limit fs ram h x lo f sp o l s c = absurd (omega arith)
place_top (suc fuel) limit [] ram h x lo f sp o l s c =
    let loose : Loose ram x [] limit h.free_list = record {
      sized = sp.sized;
      rest = c;
      large = sp.large;
      spaced = tt;
      fits = sp.fits;
      within = tt;
      words = sp.words;
    } in
    let r = splice-top ram h x [] limit h.free_list loose (omega arith) in
    rw (locate-stop fuel ram x.start 0 h.free_list (inl c), r.2, insert_none x)
      (r.0, λ y p q. r.1 y p, refl)
place_top (suc fuel) limit (n ∷ ns) ram h x lo f sp o l s c =
    elim (Bool-cases (ltb n.start x.start)) [
      | inl e ↦
          let solid : h.free_list ≢ 0 = omega (arith, c.0, s.0) in
          let less : n.start < x.start = ground (arith, e) in
          let past : end_of n ≤ x.start = omega (arith, sp.apart.0, less, sp.large) in
          let spare : Spare ram x ns limit = record {
            sized = sp.sized;
            large = sp.large;
            fits = sp.fits;
            words = sp.words;
            within = sp.within.1;
            apart = sp.apart.1;
          } in
          let r =
            place_after fuel limit ns ram h x n (omega arith) spare (omega (arith, s.0)) s.1 c.1
              past s.2 c.2 in
          let walk : locate (suc fuel) ram x.start 0 h.free_list
              ≡ locate fuel ram x.start n.start (next_of ram n.start) =
            locate-step fuel ram x.start 0 h.free_list solid (omega (arith, c.0, less))
            ∙ ap (λ k. locate fuel ram x.start k (next_of ram k)) c.0 in
          rw (walk, insert_behind n ns x e, r.2)
            (
              subst
                  (λ m.
                    Chain
                      (splice_at ram h x.start
                        (locate fuel ram x.start n.start (next_of ram n.start))).0
                      m (insert_after n ns x))
                  (sym c.0) r.0,
              λ y p q. r.1 y p q.0 q.1,
              refl,
            )
      | inr e ↦
          let most : x.start ≤ n.start = ground (arith, e) in
          let gap : end_of x ≤ n.start = omega (arith, sp.apart.0, most, s.1) in
          let loose : Loose ram x (n ∷ ns) limit h.free_list = record {
            sized = sp.sized;
            rest = c;
            large = sp.large;
            spaced = (gap, s.1, s.2);
            fits = sp.fits;
            within = sp.within;
            words = sp.words;
          } in
          let r = splice-top ram h x (n ∷ ns) limit h.free_list loose (omega arith) in
          rw
            (
              locate-stop fuel ram x.start 0 h.free_list (inr (omega (arith, c.0, most))),
              insert_here n ns x e,
              r.2,
            )
            (r.0, λ y p q. r.1 y p, refl)
    ]

pub insert_free-Inserted :
    (limit : ℕ) (fs : List Block) (ram : Ram) (h : Heap) (x : Block) (lo : ℕ)
    → length fs < steps h
    → header_size ≤ x.size
    → end_of x ≤ limit
    → limit ≤ 2 ^ 32 - 1
    → All (Below limit) fs
    → All (ApartFrom x) fs
    → 8 ≤ lo
    → lo ≤ x.start
    → Spaced lo fs
    → Chain ram h.free_list fs
    → Inserted ram h fs x (insert_free ram h x.start x.size)
unfolding insert_free
insert_free-Inserted limit fs ram h x lo f large fits words within apart o l s c =
    let spare : Spare (headed ram x) x fs limit = record {
      sized = headed-size ram x (omega (arith, large));
      large = large;
      fits = fits;
      words = words;
      within = within;
      apart = apart;
    } in
    let r =
      place_top (steps h) limit fs (headed ram x) h x lo f spare o l s
        (headed-Chain ram x fs lo h.free_list large s apart c) in
    (r.0, λ y p q. r.1 y p q ∙ headed-frame ram x y p, r.2)
