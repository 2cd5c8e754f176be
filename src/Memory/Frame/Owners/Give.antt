-- ===== src/Memory/Frame/Owners/Give.antt =====
-- Giving a frame back: `free` on every branch.
use goatos.Base.{
  ℕ, ◌+◌, ◌-◌, ◌≤◌, ◌<◌, ◌≡◌, ◌≢◌, ◌⊎◌, ◌∙◌, refl, sym, true, false, none, some, List, [], ◌∷◌,
  ◌==◌, if◌then◌else◌, arith, length, Option-cases, Bool-cases, inl, inr, All, All-map, All-zip,
  All-ne_sym, Distinct,
}
use goatos.Memory.Ram.{Ram, write_u32-apart}
use goatos.Memory.Frame.{
  FrameAllocator, not_managed, never_allocated, already_free, is_reserved, handed_out, region_of,
  start_address,
}
use goatos.Memory.Frame.Ops.{FreeResult, freed, refused, link_of, push_free, on_free_list, free}
use goatos.Memory.Frame.Chain.{Chain, member, member-All, not-member, walk-member, push_free-Chain}
use goatos.Memory.Frame.Owners.{Owned, Owns, Owned-lt, handed_out-region, head-lt}

-- The list without the first `i`.
unfoldable pub remove : ℕ → List ℕ → List ℕ
remove i [] = []
remove i (x ∷ xs) = if i == x then xs else x ∷ remove i xs

pub remove-All : (P : ℕ → Type 0) (i : ℕ) (xs : List ℕ) → All P xs → All P (remove i xs)
unfolding remove
remove-All P i [] h = tt
remove-All P i (x ∷ xs) h = elim (Bool-cases (i == x)) [
  | inl e ↦ rw (e, remove) h.1
  | inr e ↦ rw (e, remove) (h.0, remove-All P i xs h.1)
]

pub remove-Distinct :
    (i : ℕ) (xs : List ℕ) → Distinct xs → Distinct (remove i xs) × All (λ x. i ≢ x) (remove i xs)
unfolding remove
remove-Distinct i [] d = (tt, tt)
remove-Distinct i (x ∷ xs) d = elim (Bool-cases (i == x)) [
  | inl e ↦ rw (e, remove) (d.1, All-map _ _ xs (λ y n p. n (ground (arith, e, p))) d.0)
  | inr e ↦
      let rest = remove-Distinct i xs d.1 in
      rw (e, remove)
        ((remove-All (λ y. x ≢ y) i xs d.0, rest.0), ((λ p. ground (arith, e, p)), rest.1))
]

pub length-remove :
    (i : ℕ) (xs : List ℕ) → member i xs ≡ true → length (remove i xs) + 1 ≡ length xs
unfolding remove
length-remove i [] m = ground arith
length-remove i (x ∷ xs) m = elim (Bool-cases (i == x)) [
  | inl e ↦ rw (e, remove) (omega arith)
  | inr e ↦ rw (e, remove) (omega (arith, length-remove i xs (ground (arith, e))))
]

pub on_free_list-member :
    (ram : Ram) (a : FrameAllocator) (held free : List ℕ) (i : ℕ)
    → Owns ram a held free
    → on_free_list ram a i ≡ member i free
unfolding on_free_list
on_free_list-member ram a held free i w =
    walk-member ram i a.free_list a.free_count free w.free_counted
      (All-map _ _ free (λ x o. Owned-lt a x w.fits o) w.free_owned) w.chain

-- The frame has been put at the front of the free list: the list runs through it and then through the
-- frames that it ran through before, its length and the count of frames in use follow, the rest of the
-- allocator is as it was, and no byte of memory has changed but the four of the frame's own link.
pub record GivenBack (ram ram' : Ram) (a b : FrameAllocator) (free : List ℕ) (i : ℕ) : Type 0 where
  pub chain : Chain ram' b.free_list (i ∷ free)
  pub rest_same :
      b ≡ record a { free_list = i; free_count = length free + 1; in_use = a.in_use - 1 }
  pub memory_same : (p : ℕ) → (p < start_address i) ⊎ (start_address i + 4 ≤ p) → ram' p ≡ ram p

-- The outcome of `free` on each branch: the three errors leave memory and allocator as they were,
-- and each says what is wrong; success means that the frame was one of the pool which the cursor had
-- passed and which was not free, and that it has been given back.
abbrev pub Freed : Ram → FrameAllocator → List ℕ → ℕ → FreeResult × Ram × FrameAllocator → Type 0
Freed ram a free i (refused not_managed, ram', b) =
    ((region_of a i ≡ none) ⊎ (is_reserved a i ≡ true)) × (ram' ≡ ram) × (b ≡ a)
Freed ram a free i (refused never_allocated, ram', b) =
    (region_of a i ≢ none)
    × (is_reserved a i ≡ false)
    × (handed_out a i ≡ false)
    × (ram' ≡ ram)
    × (b ≡ a)
Freed ram a free i (refused already_free, ram', b) =
    Owned a i × (member i free ≡ true) × (ram' ≡ ram) × (b ≡ a)
Freed ram a free i (freed, ram', b) =
    Owned a i × (member i free ≡ false) × GivenBack ram ram' a b free i

-- The branches of `free`, as equations.
free_outside :
    (ram : Ram) (a : FrameAllocator) (i : ℕ)
    → (region_of a i ≡ none) ⊎ (is_reserved a i ≡ true)
    → free ram a i ≡ (refused not_managed, ram, a)
unfolding free
free_outside ram a i (inl e) = rw (e, free)
free_outside ram a i (inr e) = ground (arith, e)

module _ (ram : Ram) (a : FrameAllocator) (i k : ℕ) (e : region_of a i ≡ some k)
    (o : is_reserved a i ≡ false) where
  free_unpassed : handed_out a i ≡ false → free ram a i ≡ (refused never_allocated, ram, a)
  unfolding free
  free_unpassed h = rw (e, o, h, free)

  pub free_twice :
      handed_out a i ≡ true
      → on_free_list ram a i ≡ true
      → free ram a i ≡ (refused already_free, ram, a)
  unfolding free
  free_twice h l = rw (e, o, h, l, free)

  free_held :
      handed_out a i ≡ true
      → on_free_list ram a i ≡ false
      → free ram a i ≡ (
        freed,
        (push_free ram a i).0,
        record ((push_free ram a i).1) { in_use = (push_free ram a i).1.in_use - 1 },
      )
  unfolding free
  free_held h l = rw (e, o, h, l, free)

-- A frame that goes on the free list stands at its front.
push_free-GivenBack :
    (ram : Ram) (a : FrameAllocator) (held frees : List ℕ) (i : ℕ)
    → Owns ram a held frees
    → Owned a i
    → member i frees ≡ false
    → let (ram', b) = push_free ram a i in
      GivenBack ram ram' a (record b { in_use = b.in_use - 1 }) frees i
unfolding push_free
push_free-GivenBack ram a held frees i w o m = record {
  chain =
      push_free-Chain ram a i frees (Owned-lt a i w.fits o) (head-lt ram a held frees w)
        (All-map _ _ frees (λ x p. Owned-lt a x w.fits p) w.free_owned) (not-member i frees m)
        w.chain;
  rest_same = rw w.free_counted refl;
  memory_same = λ p apart. write_u32-apart ram (link_of i) a.free_list p apart;
}

-- On an allocator in order (`Owns`), `free` answers in one of four ways. A frame that is in no region of
-- the pool, or is reserved, is not managed; another that the bump cursor has not passed was never allocated,
-- and these two tests are all that `free` makes: a frame that the cursor passed without giving it to
-- anyone goes through; one that is on the free list is free already; with each of these errors memory and
-- allocator stay as they were. Any other frame of the pool is taken back: it comes to the front of the
-- free list in memory, before the frames that the list had, the list is one longer, one frame less is in
-- use, and nothing else of the allocator changes, nor any byte of memory but the frame's own link.
pub free-Freed :
    (ram : Ram) (a : FrameAllocator) (held frees : List ℕ) (i : ℕ)
    → Owns ram a held frees
    → Freed ram a frees i (free ram a i)
free-Freed ram a held frees i w =
    let listed = on_free_list-member ram a held frees i w in
    elim (Option-cases (region_of a i)) [
      | inl e ↦ rw (free_outside ram a i (inl e)) (inl e, refl, refl)
      | inr (k, e) ↦ elim (Bool-cases (is_reserved a i)) [
        | inl o ↦ rw (free_outside ram a i (inr o)) (inr o, refl, refl)
        | inr o ↦ elim (Bool-cases (handed_out a i)) [
          | inr h ↦ rw (free_unpassed ram a i k e o h) ((λ q. cc (e, q)), o, h, refl, refl)
          | inl h ↦ elim (Bool-cases (on_free_list ram a i)) [
            | inl l ↦ rw (free_twice ram a i k e o h l) ((h, o), sym listed ∙ l, refl, refl)
            | inr l ↦
                let other = sym listed ∙ l in
                rw (free_held ram a i k e o h l)
                  ((h, o), other, push_free-GivenBack ram a held frees i w (h, o) other)
          ]
        ]
      ]
    ]

pub All-not-member : (i : ℕ) (xs : List ℕ) → All (λ x. i ≢ x) xs → member i xs ≡ false
All-not-member i [] h = refl
All-not-member i (x ∷ xs) h = ground (arith, h.0, All-not-member i xs h.1)

given-Owns :
    (ram : Ram) (a : FrameAllocator) (held frees : List ℕ) (i : ℕ)
    → Owns ram a held frees
    → member i held ≡ true
    → Owned a i
    → All (λ x. i ≢ x) frees
    → let (ram', b) = push_free ram a i in
      Owns ram' (record b { in_use = b.in_use - 1 }) (remove i held) (i ∷ frees)
unfolding push_free handed_out is_reserved
given-Owns ram a held frees i w m o n =
    let rest = remove-Distinct i held w.held_once in
    record {
      fits = w.fits;
      apart = w.apart;
      placed = w.placed;
      chain =
          push_free-Chain ram a i frees (Owned-lt a i w.fits o) (head-lt ram a held frees w)
            (All-map _ _ frees (λ x p. Owned-lt a x w.fits p) w.free_owned) n w.chain;
      free_counted = omega (arith, w.free_counted);
      counted = omega (arith, w.counted, length-remove i held m);
      held_owned = remove-All (Owned a) i held w.held_owned;
      free_owned = (o, w.free_owned);
      held_once = rest.0;
      free_once = (n, w.free_once);
      lists_apart =
          All-zip _ _ (remove i held) (All-ne_sym i (remove i held) rest.1)
            (remove-All (λ h. All (λ f. h ≢ f) frees) i held w.lists_apart);
    }

-- On an allocator in order (`Owns`), `free` takes back a frame that a caller has, puts it at the front
-- of the free list, and leaves the allocator in order.
pub free-Owns :
    (ram : Ram) (a : FrameAllocator) (held frees : List ℕ) (i : ℕ)
    → Owns ram a held frees
    → member i held ≡ true
    → let (r, ram', b) = free ram a i in (r ≡ freed) × Owns ram' b (remove i held) (i ∷ frees)
free-Owns ram a held frees i w m =
    let o = member-All (Owned a) i held w.held_owned m in
    let n = member-All (λ h. All (λ f. h ≢ f) frees) i held w.lists_apart m in
    let k = handed_out-region a i o.0 in
    let listed = on_free_list-member ram a held frees i w ∙ All-not-member i frees n in
    rw (free_held ram a i k.0 k.1 o.1 o.0 listed) (refl, given-Owns ram a held frees i w m o n)
