-- ===== src/Memory/Heap/Fitted.antt =====
-- What the first fit takes out of a list of blocks, and what it leaves.
use goatos.Base.{
  ℕ, suc, ◌+◌, ◌-◌, ◌%◌, ◌≤◌, ◌<◌, ◌≡◌, inl, inr, refl, Option, none, some, List, [], ◌∷◌, leb,
  arith, Bool-cases, All,
}
use goatos.Memory.Heap.{header_size}
use goatos.Memory.Heap.Blocks.{
  Block, end_of, Spaced, Spaced-le, Spaced-apart, Below, ApartFrom, total, fit, keep,
}
use goatos.Memory.Heap.Owners.{Aligned}

-- The block `t` is out of the list `fs`, of which `rest` is left.
pub record Fitted (needed lo limit : ℕ) (fs : List Block) (t : Block) (rest : List Block)
    : Type 0 where
  pub lower : needed ≤ t.size
  pub above : lo ≤ t.start
  pub below : end_of t ≤ limit
  pub spaced : Spaced lo rest
  pub within : All (Below limit) rest
  pub apart : All (ApartFrom t) rest
  pub aligned : Aligned t
  pub rest_aligned : All Aligned rest
  pub sum : t.size + total rest ≡ total fs
  pub others :
      (q : Block)
      → header_size ≤ q.size
      → All (ApartFrom q) fs
      → ApartFrom q t × All (ApartFrom q) rest

abbrev pub FitResult : ℕ → ℕ → ℕ → List Block → Option (Block × List Block) → Type 0
FitResult needed lo limit fs none = All (λ b. b.size < needed) fs
FitResult needed lo limit fs (some (t, rest)) = Fitted needed lo limit fs t rest

module _ (needed lo limit : ℕ) (b : Block) (bs : List Block) (lower : header_size ≤ needed)
    (even : needed % 8 ≡ 0) (s : Spaced lo (b ∷ bs)) (w : All (Below limit) (b ∷ bs))
    (a : All Aligned (b ∷ bs)) where
  keep-FitResult :
      (o : Option (Block × List Block))
      → b.size < needed
      → FitResult needed (suc (end_of b)) limit bs o
      → FitResult needed lo limit (b ∷ bs) (keep b o)
  unfolding keep total
  keep-FitResult none small f = (small, f)
  keep-FitResult (some (t, rest)) small f = record {
    lower = f.lower;
    above = omega (arith, f.above, s.0);
    below = f.below;
    spaced = (s.0, s.1, f.spaced);
    within = (w.0, f.within);
    apart = (inr (omega (arith, f.above)), f.apart);
    aligned = f.aligned;
    rest_aligned = (a.0, f.rest_aligned);
    sum = omega (arith, f.sum);
    others = λ q l p. let r = f.others q l p.1 in (r.0, (p.0, r.1));
  }

  split-Fitted :
      needed ≤ b.size
      → header_size ≤ b.size - needed
      → Fitted needed lo limit
          (b ∷ bs)
          (record { start = b.start; size = needed })
          (record { start = b.start + needed; size = b.size - needed } ∷ bs)
  unfolding total
  split-Fitted upper room = record {
    lower = omega arith;
    above = s.0;
    below = omega (arith, w.0);
    spaced = (omega (arith, s.0), room, Spaced-le bs _ _ (omega arith) s.2);
    within = (omega (arith, w.0), w.1);
    apart = (
      inl (omega arith),
      Spaced-apart bs (suc (end_of b)) (record { start = b.start; size = needed }) (omega arith)
          s.2,
    );
    aligned = (a.0.0, even);
    rest_aligned = ((omega (arith, a.0.0, even), omega (arith, a.0.1, even)), a.1);
    sum = omega arith;
    others = λ q l p. (omega (arith, p.0), (omega (arith, p.0), p.1));
  }

  whole-Fitted : needed ≤ b.size → Fitted needed lo limit (b ∷ bs) b bs
  unfolding total
  whole-Fitted upper = record {
    lower = upper;
    above = s.0;
    below = w.0;
    spaced = Spaced-le bs _ _ (omega (arith, s.0)) s.2;
    within = w.1;
    apart = Spaced-apart bs (suc (end_of b)) b (omega arith) s.2;
    aligned = a.0;
    rest_aligned = a.1;
    sum = refl;
    others = λ q l p. p;
  }

pub fit-FitResult :
    (needed limit : ℕ) (fs : List Block) (lo : ℕ)
    → header_size ≤ needed
    → needed % 8 ≡ 0
    → Spaced lo fs
    → All (Below limit) fs
    → All Aligned fs
    → FitResult needed lo limit fs (fit needed fs)
unfolding fit
fit-FitResult needed limit [] lo lower even s w a = tt
fit-FitResult needed limit (b ∷ bs) lo lower even s w a = elim (Bool-cases (leb needed b.size)) [
  | inr e ↦
      rw (e, fit)
        (keep-FitResult needed lo limit b bs lower even s w a (fit needed bs) (ground (arith, e))
          (fit-FitResult needed limit bs (suc (end_of b)) lower even s.2 w.1 a.1))
  | inl e ↦
      let upper : needed ≤ b.size = ground (arith, e) in
      elim (Bool-cases (leb header_size (b.size - needed))) [
        | inl k ↦
            rw (e, k, fit)
              (split-Fitted needed lo limit b bs lower even s w a upper (ground (arith, k)))
        | inr k ↦ rw (e, k, fit) (whole-Fitted needed lo limit b bs lower even s w a upper)
      ]
]
