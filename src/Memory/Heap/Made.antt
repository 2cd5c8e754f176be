-- ===== src/Memory/Heap/Made.antt =====
-- The list that `insert` makes: sorted, spaced, in bounds, and of the same bytes.
use goatos.Base.{
  ℕ, suc, ◌+◌, ◌≤◌, ◌<◌, ◌≡◌, inl, inr, refl, subst, List, [], ◌∷◌, ◌==◌, ltb, arith, Bool-cases,
  All,
}
use goatos.Memory.Heap.{header_size}
use goatos.Memory.Heap.Blocks.{
  Block, end_of, Spaced, Below, ApartFrom, total, join, insert_after, insert,
}
use goatos.Memory.Heap.Walk.{insert_after_behind, insert_after_here}
use goatos.Memory.Heap.Place.{insert_behind, insert_here}
use goatos.Memory.Heap.Owners.{Aligned}

-- The facts about a list of blocks that joining and putting back keep.
pub record Good (lo limit : ℕ) (bs : List Block) : Type 0 where
  pub spaced : Spaced lo bs
  pub within : All (Below limit) bs
  pub aligned : All Aligned bs

-- A list made of the blocks of another list and the block `x`.
pub record Made (lo limit : ℕ) (x : Block) (bs made : List Block) : Type 0 where
  pub good : Good lo limit made
  pub sum : total made ≡ x.size + total bs
  pub others :
      (q : Block)
      → header_size ≤ q.size
      → ApartFrom q x
      → All (ApartFrom q) bs
      → All (ApartFrom q) made

join-Made :
    (lo limit : ℕ) (x : Block) (bs : List Block)
    → lo ≤ x.start
    → header_size ≤ x.size
    → end_of x ≤ limit
    → Aligned x
    → Good (end_of x) limit bs
    → Made lo limit x bs (join x bs)
unfolding join total
join-Made lo limit x [] l s e a g = record {
  good = record { spaced = (l, s, tt); within = (e, tt); aligned = (a, tt) };
  sum = refl;
  others = λ q n p r. (p, r);
}
join-Made lo limit x (y ∷ ys) l s e a g = elim (Bool-cases (end_of x == y.start)) [
  | inl k ↦
      let touching : end_of x ≡ y.start = ground (arith, k) in
      let joined : Block = record { start = x.start; size = x.size + y.size } in
      let made : Made lo limit x (y ∷ ys) (joined ∷ ys) = record {
        good = record {
          spaced = (l, omega (arith, s), subst (λ c. Spaced (suc c) ys) (omega arith) g.spaced.2);
          within = (omega (arith, g.within.0), g.within.1);
          aligned = ((a.0, omega (arith, a.1, g.aligned.0.1)), g.aligned.1);
        };
        sum = omega arith;
        others = λ q n p r. (omega (arith, p, r.0, g.spaced.1, s), r.1);
      } in
      rw (k, join) made
  | inr k ↦
      let made : Made lo limit x (y ∷ ys) (x ∷ y ∷ ys) = record {
        good = record {
          spaced = (l, s, (ground (arith, k, g.spaced.0), g.spaced.1, g.spaced.2));
          within = (e, g.within);
          aligned = (a, g.aligned);
        };
        sum = refl;
        others = λ q n p r. (p, r);
      } in
      rw (k, join) made
]

module _ (limit : ℕ) (x : Block) (large : header_size ≤ x.size) (fits : end_of x ≤ limit)
    (even : Aligned x) where
  join-join-Made :
      (lo : ℕ) (b : Block) (cs : List Block)
      → lo ≤ b.start
      → header_size ≤ b.size
      → Aligned b
      → end_of b ≤ x.start
      → Good (end_of x) limit cs
      → Made lo limit x (b ∷ cs) (join b (join x cs))
  unfolding total
  join-join-Made lo b cs l s a below g =
      let inner : Made (end_of b) limit x cs (join x cs) =
        join-Made (end_of b) limit x cs below large fits even g in
      let outer : Made lo limit b (join x cs) (join b (join x cs)) =
        join-Made lo limit b (join x cs) l s (omega (arith, fits)) a inner.good in
      record {
        good = outer.good;
        sum = omega (arith, outer.sum, inner.sum);
        others = λ q n p r. outer.others q n r.0 (inner.others q n p r.1);
      }

  -- Above `x`, the list is as it was.
  rest-Good :
      (lo : ℕ) (b : Block) (bs : List Block)
      → Good lo limit (b ∷ bs)
      → ApartFrom x b
      → x.start ≤ b.start
      → Good (end_of x) limit (b ∷ bs)
  rest-Good lo b bs g a m = record {
    spaced = (omega (arith, a, m, g.spaced.1), g.spaced.1, g.spaced.2);
    within = g.within;
    aligned = g.aligned;
  }

  insert_after-Made :
      (bs : List Block) (lo : ℕ) (b : Block)
      → Good lo limit (b ∷ bs)
      → end_of b ≤ x.start
      → All (ApartFrom x) bs
      → Made lo limit x (b ∷ bs) (insert_after b bs x)
  unfolding total insert_after
  insert_after-Made [] lo b g below a =
      join-join-Made lo b [] g.spaced.0 g.spaced.1 g.aligned.0 below
        (record { spaced = tt; within = tt; aligned = tt })
  insert_after-Made (n ∷ ns) lo b g below a =
      let tail : Good (suc (end_of b)) limit (n ∷ ns) = record {
        spaced = g.spaced.2;
        within = g.within.1;
        aligned = g.aligned.1;
      } in
      elim (Bool-cases (ltb n.start x.start)) [
        | inl e ↦
            let less : n.start < x.start = ground (arith, e) in
            let past : end_of n ≤ x.start = omega (arith, a.0, less, large) in
            let made : Made (suc (end_of b)) limit x (n ∷ ns) (insert_after n ns x) =
              insert_after-Made ns (suc (end_of b)) n tail past a.1 in
            rw (insert_after_behind b n ns x e) (record {
              good = record {
                spaced = (g.spaced.0, g.spaced.1, made.good.spaced);
                within = (g.within.0, made.good.within);
                aligned = (g.aligned.0, made.good.aligned);
              };
              sum = omega (arith, made.sum);
              others = λ q k p r. (r.0, made.others q k p r.1);
            })
        | inr e ↦
            let most : x.start ≤ n.start = ground (arith, e) in
            rw (insert_after_here b n ns x e) (
              join-join-Made lo b (n ∷ ns) g.spaced.0 g.spaced.1 g.aligned.0 below
                (rest-Good (suc (end_of b)) n ns tail a.0 most))
      ]

  pub insert-Made :
      (lo : ℕ) (bs : List Block)
      → lo ≤ x.start
      → Good lo limit bs
      → All (ApartFrom x) bs
      → Made lo limit x bs (insert bs x)
  unfolding total insert
  insert-Made lo [] l g a = record {
    good = record { spaced = (l, large, tt); within = (fits, tt); aligned = (even, tt) };
    sum = refl;
    others = λ q n p r. (p, r);
  }
  insert-Made lo (b ∷ bs) l g a = elim (Bool-cases (ltb b.start x.start)) [
    | inl e ↦
        let less : b.start < x.start = ground (arith, e) in
        let past : end_of b ≤ x.start = omega (arith, a.0, less, large) in
        rw (insert_behind b bs x e) (insert_after-Made bs lo b g past a.1)
    | inr e ↦
        let most : x.start ≤ b.start = ground (arith, e) in
        rw (insert_here b bs x e)
          (join-Made lo limit x (b ∷ bs) l large fits even (rest-Good lo b bs g a.0 most))
  ]
