-- ===== src/Memory/Heap/Join.antt =====
-- `merge_following` joins a block with the one behind it in the list where `join` does.
use goatos.Base.{
  ℕ, suc, ◌+◌, ◌-◌, ◌^◌, ◌≤◌, ◌<◌, ◌≡◌, ◌≢◌, ◌⊎◌, inl, inr, refl, sym, ap, ◌∙◌, subst, true, false,
  not, ◌&&◌, List, [], ◌∷◌, ◌==◌, arith, Bool-cases, All,
}
use goatos.Memory.Ram.{Ram}
use goatos.Memory.Heap.{header_size, size_of, next_of, set_size, set_next, merge_following}
use goatos.Memory.Heap.Blocks.{Block, end_of, Spaced, Below, join}
use goatos.Memory.Heap.Chain.{
  Chain, set_size-frame, set_next-frame, next_of-same, size_of-set_size, next_of-set_next,
  size_of-set_next, Chain-frame, Chain-head,
}

-- No byte of the block's header.
abbrev pub OffHeader : ℕ → Block → Type 0
OffHeader y b = (y < b.start) ⊎ (b.start + header_size ≤ y)

-- The block in front of a list in memory, whose header is in place.
pub record Front (ram : Ram) (x : Block) (bs : List Block) (limit : ℕ) : Type 0 where
  pub sized : size_of ram x.start ≡ x.size
  pub rest : Chain ram (next_of ram x.start) bs
  pub large : header_size ≤ x.size
  pub spaced : Spaced (end_of x) bs
  pub fits : end_of x ≤ limit
  pub within : All (Below limit) bs
  pub words : limit ≤ 2 ^ 32 - 1

-- What joining comes to: the list hangs at the block, and only its header has changed.
abbrev pub Joined : Ram → Block → List Block → Ram → Type 0
Joined ram x bs ram' = Chain ram' x.start (join x bs) × ((y : ℕ) → OffHeader y x → ram' y ≡ ram y)

module _ (ram : Ram) (x : Block) where
  merge_following_none :
      (current : ℕ)
      → (not (current == 0) && (x.start + size_of ram x.start == current)) ≡ false
      → merge_following ram x.start current ≡ ram
  unfolding merge_following
  merge_following_none current e = rw (e, merge_following) refl

  merge_following_some :
      (current : ℕ)
      → (not (current == 0) && (x.start + size_of ram x.start == current)) ≡ true
      → merge_following ram x.start current ≡ (
          let ram' = set_size ram x.start (size_of ram x.start + size_of ram current) in
          set_next ram' x.start (next_of ram' current))
  unfolding merge_following
  merge_following_some current e = rw (e, merge_following) refl

pub join_apart :
    (x y : Block) (ys : List Block) → (end_of x == y.start) ≡ false → join x (y ∷ ys) ≡ x ∷ y ∷ ys
unfolding join
join_apart x y ys e = rw (e, join) refl

pub join_touching :
    (x y : Block) (ys : List Block)
    → (end_of x == y.start) ≡ true
    → join x (y ∷ ys) ≡ record { start = x.start; size = x.size + y.size } ∷ ys
unfolding join
join_touching x y ys e = rw (e, join) refl

pub merge-Joined :
    (ram : Ram) (x : Block) (bs : List Block) (limit current : ℕ)
    → Front ram x bs limit
    → next_of ram x.start ≡ current
    → Joined ram x bs (merge_following ram x.start current)
unfolding join
merge-Joined ram x [] limit current f e =
    rw (merge_following_none ram x current (ground (arith, e, f.rest)))
      ((refl, f.sized, f.rest), λ y o. refl)
merge-Joined ram x (y ∷ ys) limit current f e =
    let here : current ≡ y.start = sym e ∙ f.rest.0 in
    let apart : y.start ≢ 0 = omega (arith, f.spaced.0, f.large) in
    elim (Bool-cases (end_of x == y.start)) [
      | inr k ↦
          rw
            (
              merge_following_none ram x current (rw (f.sized, here, k) (ground arith)),
              join_apart x y ys k,
            )
            ((refl, f.sized, f.rest), λ z o. refl)
      | inl k ↦
          let sum = size_of ram x.start + size_of ram current in
          let ram1 = set_size ram x.start sum in
          let next = next_of ram1 current in
          let ram2 = set_next ram1 x.start next in
          let touching : end_of x ≡ y.start = ground (arith, k) in
          let far : (z : ℕ) → OffHeader z x → ram2 z ≡ ram z = λ z o.
            set_next-frame ram1 x.start next z (omega (arith, o))
            ∙ set_size-frame ram x.start sum z (omega (arith, o)) in
          let sizes : sum ≡ x.size + y.size =
            omega (arith, f.sized, ap (size_of ram) here, f.rest.1) in
          let old : next ≡ next_of ram y.start =
            ap (next_of ram1) here
            ∙ next_of-same ram ram1 y.start
                (λ z p q. set_size-frame ram x.start sum z (omega (arith, f.large))) in
          let small : next_of ram y.start < 2 ^ 32 =
            Chain-head ram (next_of ram y.start) limit ys f.words f.within.1 f.rest.2 in
          rw
            (
              merge_following_some ram x current (rw (f.sized, here, k) (ground (arith, apart))),
              join_touching x y ys k,
            )
            (
              (
                refl,
                size_of-set_next ram1 x.start next
                    ∙ size_of-set_size ram x.start sum (omega (arith, sizes, f.within.0, f.words))
                    ∙ sizes,
                subst (λ n. Chain ram2 n ys)
                    (sym (next_of-set_next ram1 x.start next (omega (arith, old, small)) ∙ old))
                    (Chain-frame ram ram2 ys (suc (end_of y)) (next_of ram y.start) f.spaced.2
                      (λ z p. far z (omega (arith, f.large))) f.rest.2),
              ),
              far,
            )
    ]

-- The first of the joined list is where the block is.
pub join-head :
    (x : Block) (bs : List Block)
    → (z : ℕ) × (zs : List Block) × (join x bs ≡ record { start = x.start; size = z } ∷ zs)
unfolding join
join-head x [] = (x.size, [], refl)
join-head x (y ∷ ys) = elim (Bool-cases (end_of x == y.start)) [
  | inl k ↦ (x.size + y.size, ys, join_touching x y ys k)
  | inr k ↦ (x.size, y ∷ ys, join_apart x y ys k)
]

pub join-Spaced :
    (x : Block) (bs : List Block) (lo : ℕ)
    → lo ≤ x.start
    → header_size ≤ x.size
    → Spaced (end_of x) bs
    → Spaced lo (join x bs)
unfolding join
join-Spaced x [] lo l s sp = (l, s, tt)
join-Spaced x (y ∷ ys) lo l s sp = elim (Bool-cases (end_of x == y.start)) [
  | inl k ↦
      let touching : end_of x ≡ y.start = ground (arith, k) in
      rw (k, join) (l, omega (arith, s), subst (λ e. Spaced (suc e) ys) (omega arith) sp.2)
  | inr k ↦ rw (k, join) (l, s, (ground (arith, k, sp.0), sp.1, sp.2))
]

pub join-Below :
    (x : Block) (bs : List Block) (limit : ℕ)
    → end_of x ≤ limit
    → All (Below limit) bs
    → All (Below limit) (join x bs)
unfolding join
join-Below x [] limit l w = (l, tt)
join-Below x (y ∷ ys) limit l w = elim (Bool-cases (end_of x == y.start)) [
  | inl k ↦ rw (k, join) (ground (arith, k, w.0), w.1)
  | inr k ↦ rw (k, join) (l, w)
]
