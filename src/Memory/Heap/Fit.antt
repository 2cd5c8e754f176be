-- ===== src/Memory/Heap/Fit.antt =====
-- The search of `allocate` takes the block that `fit` takes, and leaves the list that `fit` leaves.
use goatos.Base.{
  ℕ, zero, suc, ◌+◌, ◌-◌, ◌^◌, ◌≤◌, ◌<◌, ◌≡◌, ◌≢◌, inl, inr, refl, sym, ap, ◌∙◌, subst, true, false,
  Option, none, some, List, [], ◌∷◌, leb, if◌then◌else◌, arith, Bool-cases, All, length,
}
use goatos.Memory.Ram.{Ram}
use goatos.Memory.Heap.{Heap, header_size, size_of, next_of, take_block, search}
use goatos.Memory.Heap.Blocks.{Block, end_of, Spaced, Below, fit, keep}
use goatos.Memory.Heap.Chain.{Chain, link, Outside, size_of-same, link-same}
use goatos.Memory.Heap.Take.{Taken, take_block-split, take_block-whole}

-- What the search comes to: with no block that fits nothing has changed and the pointer is null.
abbrev pub Searched :
    Ram → Heap → ℕ → List Block → Option (Block × List Block) → Ram × Heap × ℕ → Type 0
Searched ram h prev bs none r = r ≡ (ram, h, 0)
Searched ram h prev bs (some (t, rest)) r = Taken ram h prev bs t rest r

-- One round of the search, by what it finds.
module _ (fuel : ℕ) (ram : Ram) (h : Heap) (needed prev current : ℕ) where
  search-end : current ≡ 0 → search (suc fuel) ram h needed prev current ≡ (ram, h, 0)
  unfolding search
  search-end e = ground (arith, e)

  search-hit :
      current ≢ 0
      → leb needed (size_of ram current) ≡ true
      → search (suc fuel) ram h needed prev current ≡ take_block ram h prev current needed
  unfolding search
  search-hit n e = ground (arith, n, e)

  search-miss :
      current ≢ 0
      → leb needed (size_of ram current) ≡ false
      → search (suc fuel) ram h needed prev current
        ≡ search fuel ram h needed current (next_of ram current)
  unfolding search
  search-miss n e = ground (arith, n, e)

-- From the list behind the block `b` to the list that starts with it.
module _ (ram : Ram) (h : Heap) (prev limit : ℕ) (b : Block) (bs : List Block)
    (behind : prev + 8 ≤ b.start) (spaced : Spaced b.start (b ∷ bs))
    (here : link ram h prev ≡ b.start) (sized : size_of ram b.start ≡ b.size) where
  past : (y : ℕ) → y < suc (end_of b) → All (Outside y) bs
  past y lt = below-Outside bs (suc (end_of b)) y lt spaced.2
    where
      below-Outside : (bs : List Block) (lo y : ℕ) → y < lo → Spaced lo bs → All (Outside y) bs
      below-Outside [] lo y lt s = tt
      below-Outside (c ∷ cs) lo y lt s =
          (inl (omega (arith, s.0)), below-Outside cs (suc (end_of c)) y (omega (arith, s.0)) s.2)

  step-Taken :
      (t : Block) (rest : List Block) (r : Ram × Heap × ℕ)
      → Taken ram h b.start bs t rest r
      → Taken ram h prev (b ∷ bs) t (b ∷ rest) r
  unfolding link
  step-Taken t rest r w =
      let apart : b.start ≢ 0 = omega arith in
      let same : link r.0 r.1 prev ≡ link ram h prev =
        link-same ram r.0 h r.1 prev (λ e. w.list_kept apart)
          (λ n y p q. w.frame y (omega arith) (past y (omega (arith, spaced.1)))) in
      record {
        pointer = w.pointer;
        linked = (
          same ∙ here,
          size_of-same ram r.0 b.start
                (λ y p q. w.frame y (omega arith) (past y (omega (arith, spaced.1))))
              ∙ sized,
          subst (λ n. Chain r.0 n rest) (ground (arith, apart)) w.linked,
        );
        header = w.header;
        frame = λ y o q. w.frame y (omega (arith, q.0, spaced.1)) q.1;
        heap = w.heap;
        list_kept = λ n. w.list_kept apart;
      }

  step-Searched :
      (o : Option (Block × List Block)) (r : Ram × Heap × ℕ)
      → Searched ram h b.start bs o r
      → Searched ram h prev (b ∷ bs) (keep b o) r
  unfolding keep
  step-Searched none r w = w
  step-Searched (some (t, rest)) r w = step-Taken t rest r w

fit-hit :
    (needed : ℕ) (b : Block) (bs : List Block)
    → leb needed b.size ≡ true
    → fit needed (b ∷ bs) ≡ (
        if leb header_size (b.size - needed)
        then some (
          record { start = b.start; size = needed },
          record { start = b.start + needed; size = b.size - needed } ∷ bs,
        )
        else some (b, bs))
unfolding fit
fit-hit needed b bs e = rw (e, fit) refl

fit-miss :
    (needed : ℕ) (b : Block) (bs : List Block)
    → leb needed b.size ≡ false
    → fit needed (b ∷ bs) ≡ keep b (fit needed bs)
unfolding fit
fit-miss needed b bs e = rw (e, fit) refl

pub search-Searched :
    (fuel limit : ℕ) (bs : List Block) (ram : Ram) (h : Heap) (needed prev current lo : ℕ)
    → length bs < fuel
    → limit ≤ 2 ^ 32 - 1
    → prev + 8 ≤ lo
    → header_size ≤ needed
    → Spaced lo bs
    → All (Below limit) bs
    → Chain ram current bs
    → link ram h prev ≡ current
    → Searched ram h prev bs (fit needed bs) (search fuel ram h needed prev current)
unfolding link fit
search-Searched zero limit bs ram h needed prev current lo f small p lower s w c l =
    absurd (omega arith)
search-Searched (suc fuel) limit [] ram h needed prev current lo f small p lower s w c l =
    search-end fuel ram h needed prev current c
search-Searched (suc fuel) limit (b ∷ bs) ram h needed prev current lo f small p lower s w c l =
    let behind : prev + 8 ≤ b.start = omega (arith, s.0) in
    let apart : current ≢ 0 = omega (arith, c.0) in
    let sized : size_of ram current ≡ b.size = ap (size_of ram) c.0 ∙ c.1 in
    let here = l ∙ c.0 in
    let spaced : Spaced b.start (b ∷ bs) = (omega arith, s.1, s.2) in
    elim (Bool-cases (leb needed b.size)) [
      | inr e ↦
          rw (search-miss fuel ram h needed prev current apart (rw sized e), fit-miss needed b bs e)
            (step-Searched ram h prev limit b bs behind spaced here c.1 (fit needed bs) _ (
              subst
                (λ x.
                  Searched ram h b.start bs (fit needed bs)
                    (search fuel ram h needed x (next_of ram x)))
                (sym c.0)
                (search-Searched fuel limit bs ram h needed b.start (next_of ram b.start)
                  (suc (end_of b)) (omega arith) small (omega (arith, s.1)) lower s.2 w.1 c.2
                  (ground (arith, apart, c.0)))))
      | inl e ↦
          let upper : needed ≤ b.size = ground (arith, e) in
          rw
            (
              search-hit fuel ram h needed prev current apart (rw sized e),
              c.0,
              fit-hit needed b bs e,
            )
            (elim (Bool-cases (leb header_size (b.size - needed))) [
              | inl k ↦ rw k (
                  take_block-split ram h prev needed limit b bs behind spaced small w c.2 lower
                    upper c.1 k)
              | inr k ↦ rw k (
                  take_block-whole ram h prev needed limit b bs behind spaced small w c.2 lower
                    upper c.1 k)
            ])
    ]
