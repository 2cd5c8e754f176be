-- ===== src/Memory/Frame/Owners/Take.antt =====
-- Taking frames: `allocate` and `allocate_contiguous`.
use goatos.Base.{
  ℕ, zero, suc, ◌+◌, ◌-◌, ◌<◌, ◌≡◌, ◌≢◌, ◌⊎◌, ◌∙◌, refl, sym, ap, subst, true, false, Option, none,
  some, List, [], ◌∷◌, ◌++◌, ◌==◌, arith, length-append, get_elem?, Bool-cases, inl, inr, All,
  All-map, All-append, All-zip, AllApart, Distinct-append,
}
use goatos.Memory.Ram.{Ram, read_u32}
use goatos.Memory.Frame.{
  FrameAllocator, FrameRange, max_frame_index, no_frame, is_reserved, handed_out, region_of,
  position_in,
}
use goatos.Memory.Frame.Ranges.{Apart, position_in-contains}
use goatos.Memory.Frame.Ops.{
  stop, link_of, scan, bump_round, run_round, work, after_pop, allocate, allocate_contiguous,
}
use goatos.Memory.Frame.Cursor.{Scanned, Takes, scan-Scanned, bump_round-Again, bump_round-Takes}
use goatos.Memory.Frame.Runs.{
  run_of, length-run_of, run_of-Distinct, run_round-Again, run_round-Takes, Takes-NewlyOut,
}
use goatos.Memory.Frame.Chain.{Chain, pop_free-cons, pop_free-nil}
use goatos.Memory.Frame.Owners.{
  Owns, Owned-lt, Owned-Onward, is_reserved-Onward, fresh-ne, Owns-Onward,
}

-- The frames of a run taken from under the cursor come to belong to the caller.
run-Owns :
    (ram : Ram) (a b : FrameAllocator) (held free : List ℕ) (start count : ℕ)
    → Owns ram a held free
    → Takes a b start count
    → All (λ i. is_reserved a i ≡ false) (run_of start count)
    → Owns ram b (run_of start count ++ held) free
run-Owns ram a b held free start count w t open_run =
    let p = t.onward in
    let run = run_of start count in
    let fresh = Takes-NewlyOut a b start count w.apart w.placed t in
    record {
      fits = subst (All _) (sym p.regions) w.fits;
      apart = subst Apart (sym p.regions) w.apart;
      placed = p.placed w.placed;
      chain = subst (λ h. Chain ram h free) (sym p.free_list) w.chain;
      free_counted = p.free_count ∙ w.free_counted;
      counted = omega (arith, t.used, w.counted, length-append run held, length-run_of start count);
      held_owned =
          All-append _ run held
            (All-map _ _ run (λ i q. (q.0.1, is_reserved-Onward a b i p ∙ q.1))
              (All-zip _ _ run fresh open_run))
            (Owned-Onward a b held p w.held_owned);
      free_owned = Owned-Onward a b free p w.free_owned;
      held_once =
          Distinct-append run held (run_of-Distinct start count) w.held_once
            (All-map _ _ run (λ i q. fresh-ne a i held q.0 w.held_owned) fresh);
      free_once = w.free_once;
      lists_apart =
          All-append _ run held (All-map _ _ run (λ i q. fresh-ne a i free q.0 w.free_owned) fresh)
            w.lists_apart;
    }

-- The cursor has passed every frame of every region.
abbrev pub Exhausted : FrameAllocator → Type 0
Exhausted a = (index k : ℕ) → region_of a index ≡ some k → handed_out a index ≡ true

get_elem?-none-lt :
    (rs : List FrameRange) (c k : ℕ) (r : FrameRange)
    → get_elem? rs c ≡ none
    → get_elem? rs k ≡ some r
    → k < c
get_elem?-none-lt [] c k r e p = ground arith
get_elem?-none-lt (x ∷ rs) zero k r e p = ground arith
get_elem?-none-lt (x ∷ rs) (suc c) zero r e p = omega arith
get_elem?-none-lt (x ∷ rs) (suc c) (suc k) r e p = omega (arith, get_elem?-none-lt rs c k r e p)

position-before-end :
    (rs : List FrameRange) (c k index : ℕ)
    → get_elem? rs c ≡ none
    → position_in rs index ≡ some k
    → k < c
position-before-end rs c k index e p =
    let r = position_in-contains rs k index p in get_elem?-none-lt rs c k r.0 e r.1

stop-Exhausted : (a : FrameAllocator) → get_elem? a.regions a.cursor_region ≡ none → Exhausted a
unfolding handed_out
stop-Exhausted a e index k p =
    ground (arith, p, position-before-end a.regions a.cursor_region k index e p)

bump_round-stop :
    (a : FrameAllocator) → bump_round a ≡ stop → get_elem? a.regions a.cursor_region ≡ none
unfolding bump_round
bump_round-stop a h = ground arith

-- What taking one frame comes to: either there was no free frame, and the cursor has passed all of
-- the pool; or the caller has one frame more, and the others have what they had.
abbrev pub Allocated : Ram → List ℕ → List ℕ → Option ℕ × FrameAllocator → Type 0
Allocated ram held free (none, b) = (free ≡ []) × Exhausted b × Owns ram b held free
Allocated ram held free (some i, b) =
    (rest : List ℕ) × ((free ≡ i ∷ rest) ⊎ ((free ≡ []) × (rest ≡ []))) × Owns ram b (i ∷ held) rest

-- The loop of `allocate`, once the free list is empty.
bump-Allocated :
    (ram : Ram) (a : FrameAllocator) (held : List ℕ) (r : Option ℕ × FrameAllocator)
    → Owns ram a held []
    → Scanned bump_round a r
    → Allocated ram held [] r
bump-Allocated ram a held (none, b) w s =
    (refl, stop-Exhausted b (bump_round-stop b s.2), Owns-Onward ram a b held [] s.0 s.1 w)
bump-Allocated ram a held (some i, b) w s =
    let mid = s.0 in
    let t = bump_round-Takes mid b i s.3 in
    (
      [],
      inr (refl, refl),
      run-Owns ram mid b held [] i 1 (Owns-Onward ram a mid held [] s.1 s.2 w) t.0 (t.1, tt),
    )

-- A frame taken from the front of the free list.
unfoldable pub popped : Ram → FrameAllocator → ℕ → FrameAllocator
popped ram a x = record a {
  free_list = read_u32 ram (link_of x);
  free_count = a.free_count - 1;
  in_use = a.in_use + 1;
}

pub pop-Owns :
    (ram : Ram) (a : FrameAllocator) (held rest : List ℕ) (x : ℕ)
    → Owns ram a held (x ∷ rest)
    → Owns ram (popped ram a x) (x ∷ held) rest
unfolding popped handed_out is_reserved
pop-Owns ram a held rest x w = record {
  fits = w.fits;
  apart = w.apart;
  placed = w.placed;
  chain = w.chain.1;
  free_counted = omega (arith, w.free_counted);
  counted = omega (arith, w.counted);
  held_owned = (w.free_owned.0, w.held_owned);
  free_owned = w.free_owned.1;
  held_once = (All-ne_sym-map x held w.lists_apart, w.held_once);
  free_once = w.free_once.1;
  lists_apart = (w.free_once.0, All-map _ _ held (λ h q. q.1) w.lists_apart);
}
  where
    All-ne_sym-map : (x : ℕ) (held : List ℕ) → AllApart held (x ∷ rest) → All (λ h. x ≢ h) held
    All-ne_sym-map x held q = All-map _ _ held (λ h n e. n.0 (sym e)) q

pub allocate-pop :
    (ram : Ram) (a : FrameAllocator) (x : ℕ) (xs : List ℕ)
    → x < max_frame_index
    → Chain ram a.free_list (x ∷ xs)
    → allocate ram a ≡ (some x, popped ram a x)
unfolding allocate popped
allocate-pop ram a x xs h c = ap (λ p. after_pop p.0 p.1) (pop_free-cons ram a x xs h c)

allocate-bump :
    (ram : Ram) (a : FrameAllocator)
    → a.free_list ≡ no_frame
    → allocate ram a ≡ scan bump_round (suc (work a)) a
unfolding allocate
allocate-bump ram a e = ap (λ p. after_pop p.0 p.1) (pop_free-nil ram a e)

-- On an allocator in order (`Owns`), `allocate` gives a frame of the pool that nobody has and that no
-- reservation covers, the first of the free list if there is one, and leaves the allocator in order;
-- it fails only when the free list is empty and the cursor has passed the whole pool.
pub allocate-Allocated :
    (ram : Ram) (a : FrameAllocator) (held free : List ℕ)
    → Owns ram a held free
    → Allocated ram held free (allocate ram a)
allocate-Allocated ram a held [] w = rw (allocate-bump ram a w.chain) (
    bump-Allocated ram a held _ w
      (scan-Scanned bump_round bump_round-Again (suc (work a)) a (omega arith)))
allocate-Allocated ram a held (x ∷ rest) w =
    rw (allocate-pop ram a x rest (Owned-lt a x w.fits w.free_owned.0) w.chain)
      (rest, inl refl, pop-Owns ram a held rest x w)

-- What taking a run comes to: nothing is taken, or all the frames of the run are the caller's, and
-- the free list is as it was.
abbrev pub AllocatedRun : Ram → List ℕ → List ℕ → ℕ → Option ℕ × FrameAllocator → Type 0
AllocatedRun ram held free count (none, b) = Owns ram b held free
AllocatedRun ram held free count (some start, b) = Owns ram b (run_of start count ++ held) free

run-AllocatedRun :
    (ram : Ram) (a : FrameAllocator) (held free : List ℕ) (count : ℕ)
    (r : Option ℕ × FrameAllocator)
    → Owns ram a held free
    → Scanned (run_round count) a r
    → AllocatedRun ram held free count r
run-AllocatedRun ram a held free count (none, b) w s = Owns-Onward ram a b held free s.0 s.1 w
run-AllocatedRun ram a held free count (some i, b) w s =
    let mid = s.0 in
    let v = Owns-Onward ram a mid held free s.1 s.2 w in
    let t = run_round-Takes count mid b i v.fits s.3 in
    run-Owns ram mid b held free i count v t.0 t.1

-- On an allocator in order (`Owns`), `allocate_contiguous` gives `count` neighbouring frames of the pool that nobody has and that no
-- reservation covers, or none at all; the free list stays as it is, and the
-- allocator in order.
pub allocate_contiguous-AllocatedRun :
    (ram : Ram) (a : FrameAllocator) (held free : List ℕ) (count : ℕ)
    → Owns ram a held free
    → AllocatedRun ram held free count (allocate_contiguous a count)
unfolding allocate_contiguous
allocate_contiguous-AllocatedRun ram a held free count w = elim (Bool-cases (count == 0)) [
  | inl e ↦ rw (e, allocate_contiguous) w
  | inr e ↦
      rw (e, allocate_contiguous)
        (run-AllocatedRun ram a held free count _ w
          (scan-Scanned (run_round count) (run_round-Again count) (suc (work a)) a (omega arith)))
]
