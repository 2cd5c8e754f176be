-- ===== src/Memory/Heap/Back.antt =====
-- Putting back the block that `fit` takes restores the list.
use goatos.Base.{
  ℕ, suc, ◌+◌, ◌-◌, ◌≤◌, ◌≡◌, inl, inr, refl, sym, ap, ◌∙◌, Option, none, some, List, [], ◌∷◌, leb,
  ltb, arith, Bool-cases,
}
use goatos.Memory.Heap.{header_size}
use goatos.Memory.Heap.Blocks.{Block, end_of, Spaced, join, insert_after, insert, fit, keep}
use goatos.Memory.Heap.Join.{join_apart, join_touching}
use goatos.Memory.Heap.Walk.{insert_after_behind, insert_after_here}
use goatos.Memory.Heap.Place.{insert_behind, insert_here}

abbrev pub PutBack : List Block → Option (Block × List Block) → Type 0
PutBack fs none = Unit {0}
PutBack fs (some (t, rest)) = insert rest t ≡ fs

join-Spaced_gap : (b : Block) (fs : List Block) → Spaced (suc (end_of b)) fs → join b fs ≡ b ∷ fs
unfolding join
join-Spaced_gap b [] s = refl
join-Spaced_gap b (c ∷ cs) s = join_apart b c cs (ground (arith, s.0))

insert_none : (x : Block) → insert [] x ≡ join x []
unfolding insert join
insert_none x = refl

insert_after_none : (b x : Block) → insert_after b [] x ≡ join b (join x [])
unfolding insert_after
insert_after_none b x = refl

-- Behind a block that does not touch what comes of it, putting back is as at the head.
insert_after-insert :
    (b t : Block) (rest fs : List Block)
    → insert rest t ≡ fs
    → Spaced (suc (end_of b)) fs
    → insert_after b rest t ≡ b ∷ fs
insert_after-insert b t [] fs e s =
    insert_after_none b t ∙ ap (join b) (sym (insert_none t) ∙ e) ∙ join-Spaced_gap b fs s
insert_after-insert b t (n ∷ ns) fs e s = elim (Bool-cases (ltb n.start t.start)) [
  | inl k ↦ insert_after_behind b n ns t k ∙ ap (λ l. b ∷ l) (sym (insert_behind n ns t k) ∙ e)
  | inr k ↦
      insert_after_here b n ns t k
      ∙ ap (join b) (sym (insert_here n ns t k) ∙ e)
      ∙ join-Spaced_gap b fs s
]

-- The block that `fit` takes is not below the list.
abbrev From : ℕ → Option (Block × List Block) → Type 0
From lo none = Unit {0}
From lo (some (t, rest)) = lo ≤ t.start

keep-PutBack :
    (b : Block) (fs : List Block) (o : Option (Block × List Block))
    → Spaced (suc (end_of b)) fs
    → header_size ≤ b.size
    → From (suc (end_of b)) o
    → PutBack fs o
    → PutBack (b ∷ fs) (keep b o)
unfolding keep
keep-PutBack b fs none s l f p = tt
keep-PutBack b fs (some (t, rest)) s l f p =
    insert_behind b rest t (ground (arith, f)) ∙ insert_after-insert b t rest fs p s

insert-first : (b : Block) (bs : List Block) → Spaced (suc (end_of b)) bs → insert bs b ≡ b ∷ bs
insert-first b [] s = insert_none b ∙ join-Spaced_gap b [] s
insert-first b (n ∷ ns) s = insert_here n ns b (ground (arith, s.0)) ∙ join-Spaced_gap b (n ∷ ns) s

insert-halves :
    (b : Block) (bs : List Block) (needed : ℕ)
    → needed ≤ b.size
    → insert
        (record { start = b.start + needed; size = b.size - needed } ∷ bs)
        (record { start = b.start; size = needed })
      ≡ b ∷ bs
insert-halves b bs needed l =
    let low : Block = record { start = b.start; size = needed } in
    let high : Block = record { start = b.start + needed; size = b.size - needed } in
    insert_here high bs low (ground arith)
    ∙ join_touching low high bs (ground arith)
    ∙ ap (λ z. record { start = b.start; size = z } ∷ bs) (omega arith)

pub fit-PutBack :
    (needed : ℕ) (fs : List Block) (lo : ℕ)
    → Spaced lo fs
    → From lo (fit needed fs) × PutBack fs (fit needed fs)
unfolding fit keep
fit-PutBack needed [] lo s = (tt, tt)
fit-PutBack needed (b ∷ bs) lo s = elim (Bool-cases (leb needed b.size)) [
  | inr e ↦
      let deep = fit-PutBack needed bs (suc (end_of b)) s.2 in
      rw (e, fit)
        (keep-From (fit needed bs) deep.0, keep-PutBack b bs (fit needed bs) s.2 s.1 deep.0 deep.1)
  | inl e ↦ elim (Bool-cases (leb header_size (b.size - needed))) [
    | inl k ↦ rw (e, k, fit) (s.0, insert-halves b bs needed (ground (arith, e)))
    | inr k ↦ rw (e, k, fit) (s.0, insert-first b bs s.2)
  ]
]
  where
    keep-From : (o : Option (Block × List Block)) → From (suc (end_of b)) o → From lo (keep b o)
    keep-From none f = tt
    keep-From (some (t, rest)) f = omega (arith, f, s.0)
