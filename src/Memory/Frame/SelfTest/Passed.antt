-- ===== src/Memory/Frame/SelfTest/Passed.antt =====
-- The self-test passes on an allocator in order.
use mathlib.Core.List.{append_assoc}
use goatos.Base.{
  ℕ, ◌+◌, ◌-◌, ◌<◌, ◌≡◌, ◌≢◌, ◌⊎◌, inl, inr, refl, sym, ap, ap₂, ◌∙◌, subst, true, Option, none,
  some, List, [], ◌∷◌, ◌++◌, ◌==◌, length, length-append, get_or, arith, All, All-map, AllApart,
}
use goatos.Memory.Ram.{Ram}
use goatos.Memory.Frame.{FrameAllocator}
use goatos.Memory.Frame.Owners.{Owned, Owns, Owned-lt, handed_out-region}
use goatos.Memory.Frame.Owners.Take.{Exhausted, allocate-pop, popped, pop-Owns}
use goatos.Memory.Frame.Owners.Give.{free_twice, on_free_list-member}
use goatos.Memory.Frame.SelfTest.{
  SelfTest, ran_out, fail, check_and_give, go_on, take_frames, check_frames, give_frames, give_rest,
  is_double_free, reuse, self_test, self_test_frames,
}
use goatos.Memory.Frame.SelfTest.Lists.{
  onto, onto-append, onto-All, member_here, last_two, get_or-behind,
}
use goatos.Memory.Frame.SelfTest.Rounds.{
  take_frames-Taken, check_frames-pass, give_rest-Owns, give_frames-two,
}

-- The test as it stands when nothing has failed.
abbrev checked : List ℕ → List ℕ → Option ℕ → SelfTest
checked frames given reused = record {
  frames = frames;
  given = given;
  reused = reused;
  failure = none;
}

-- From the second allocation on, with `y` on top of the free list and `z` below it.
reuse-pass :
    (ram : Ram) (a : FrameAllocator) (front : List ℕ) (y z in_use_before : ℕ) (held frees : List ℕ)
    → Owns ram a (onto front held) (y ∷ z ∷ frees)
    → in_use_before ≡ length held
    → (let t = checked (front ++ (y ∷ z ∷ [])) (z ∷ y ∷ []) none in
        let t' = checked (front ++ (y ∷ z ∷ [])) (z ∷ y ∷ []) (some y) in
        (ram' : Ram) × (b : FrameAllocator) × (frees' : List ℕ) × (reuse ram a in_use_before t
          ≡ (t', ram', b))
        × Owns ram' b held frees')
unfolding reuse is_double_free onto
reuse-pass ram a front y z in_use_before held frees w count =
    let t' = checked (front ++ (y ∷ z ∷ [])) (z ∷ y ∷ []) (some y) in
    let top = allocate-pop ram a y (z ∷ frees) (Owned-lt a y w.fits w.free_owned.0) w.chain in
    let p = popped ram a y in
    let v = pop-Owns ram a (onto front held) (z ∷ frees) y w in
    let (k, r) = handed_out-region p z v.free_owned.0.0 in
    let twice =
      free_twice ram p z k r v.free_owned.0.1 v.free_owned.0.0
        (on_free_list-member ram p (y ∷ onto front held) (z ∷ frees) z v ∙ member_here z frees) in
    let back : onto (front ++ (y ∷ [])) held ≡ y ∷ onto front held =
      onto-append front (y ∷ []) held in
    let unlike : All (λ x. z ≢ x) (front ++ (y ∷ [])) =
      All-map _ _ (front ++ (y ∷ [])) (λ h n e. n.0 (sym e))
        (onto-All (λ h. All (λ f. h ≢ f) (z ∷ frees)) (front ++ (y ∷ [])) held
          (subst (λ l. AllApart l (z ∷ frees)) (sym back) v.lists_apart)).0 in
    let (ram', b, frees', e, o) =
      give_rest-Owns ram p (front ++ (y ∷ [])) z held (z ∷ frees) t'
        (subst (λ l. Owns ram p l (z ∷ frees)) (sym back) v) unlike in
    let listed : (front ++ (y ∷ [])) ++ (z ∷ []) ≡ front ++ (y ∷ z ∷ []) =
      append_assoc front (y ∷ []) (z ∷ []) in
    let same : (y == y) ≡ true = ground arith in
    let counted : (b.in_use == in_use_before) ≡ true = ground (arith, o.counted, count) in
    let e' : give_rest ram p z (front ++ (y ∷ z ∷ [])) t' ≡ (t', ram', b) =
      ap (λ l. give_rest ram p z l t') (sym listed) ∙ e in
    (ram', b, frees', rw (top, twice, same, e', counted, reuse) refl, o)

check_and_give-pass :
    (ram : Ram) (a : FrameAllocator) (held frees front : List ℕ) (y z in_use_before : ℕ)
    → in_use_before ≡ length held
    → (let frames = front ++ (y ∷ z ∷ []) in
        Owns ram a (onto frames held) frees
        → (ram' : Ram) × (b : FrameAllocator) × (frees' : List ℕ) × (check_and_give ram a
              in_use_before
              (checked frames [] none)
            ≡ (checked frames (z ∷ y ∷ []) (some y), ram', b))
          × Owns ram' b held frees')
unfolding check_and_give go_on onto
check_and_give-pass ram a held frees front y z in_use_before count o =
    let frames = front ++ (y ∷ z ∷ []) in
    let t = checked frames [] none in
    let fine : check_frames a [] frames t ≡ t =
      check_frames-pass ram a frames [] held frees t (onto-All (Owned a) frames held o.held_owned).0
        o.held_once in
    let long : length frames ≡ length front + 2 = length-append front (y ∷ z ∷ []) in
    let last : length frames - 1 ≡ length front + 1 = omega (arith, long) in
    let before : length frames - 2 ≡ length front + 0 = omega (arith, long) in
    let z_at : get_or frames (length frames - 1) 0 ≡ z =
      ap (λ k. get_or frames k 0) last ∙ get_or-behind front (y ∷ z ∷ []) 1 in
    let y_at : get_or frames (length frames - 2) 0 ≡ y =
      ap (λ k. get_or frames k 0) before ∙ get_or-behind front (y ∷ z ∷ []) 0 in
    let w = subst (λ l. Owns ram a l frees) (onto-append front (y ∷ z ∷ []) held) o in
    let (ram2, b2, e, o2) = give_frames-two ram a y z (onto front held) frees t w in
    let (ram', b, frees', e', o') =
      reuse-pass ram2 b2 front y z in_use_before held frees o2 count in
    let gave : give_frames ram a
          (get_or frames (length frames - 1) 0 ∷ get_or frames (length frames - 2) 0 ∷ [])
          (check_frames a [] frames t)
        ≡ (true, checked frames (z ∷ y ∷ []) none, ram2, b2) =
      ap₂ (λ l s. give_frames ram a l s) (ap₂ (λ i j. i ∷ j ∷ []) z_at y_at) fine ∙ e in
    (ram', b, frees', ap (go_on in_use_before) gave ∙ e', o')

-- On an allocator in order (`Owns`): the self-test takes eight frames, finds no fault, and leaves the
-- callers with what they had and the allocator in order; or, when the pool has fewer than eight frames
-- left, it reports that it ran out, with all of them taken.
pub self_test-Passed :
    (ram : Ram) (a : FrameAllocator) (held frees : List ℕ)
    → Owns ram a held frees
    → (let r = self_test ram a in
        (frees' : List ℕ) × (((r.0.failure ≡ none)
            × (length r.0.frames ≡ 8)
            × Owns r.1 r.2 held frees')
          ⊎ ((r.0.failure ≡ some ran_out)
              × (length r.0.frames < 8)
              × Exhausted r.2
              × Owns r.1 r.2 (onto r.0.frames held) [])))
unfolding self_test fail
self_test-Passed ram a held frees w =
    let (frees1, o, ending) = take_frames-Taken self_test_frames ram a held frees w in
    elim ending [
      | inr (short, few, none_free, used) ↦
          rw (short, self_test)
            (
              [],
              inr (
                refl,
                few,
                used,
                subst (Owns ram _ (onto (take_frames self_test_frames ram a).1 held)) none_free o,
              ),
            )
      | inl (full, eight) ↦
          let taken = take_frames self_test_frames ram a in
          let (front, y, z, q) = last_two taken.1 6 eight in
          let (ram', b, frees', e, o') =
            check_and_give-pass ram taken.2 held frees1 front y z a.in_use w.counted
              (subst (λ l. Owns ram taken.2 (onto l held) frees1) q o) in
          let e' : check_and_give ram taken.2 a.in_use (checked taken.1 [] none)
              ≡ (checked (front ++ (y ∷ z ∷ [])) (z ∷ y ∷ []) (some y), ram', b) =
            ap (λ l. check_and_give ram taken.2 a.in_use (checked l [] none)) q ∙ e in
          rw (full, e', self_test) (frees', inl (refl, ap length (sym q) ∙ eight, o'))
    ]
