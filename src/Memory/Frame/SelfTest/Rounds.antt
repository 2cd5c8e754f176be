-- ===== src/Memory/Frame/SelfTest/Rounds.antt =====
-- The loops of the self-test, on an allocator in order.
use goatos.Base.{
  ℕ, zero, suc, ◌<◌, ◌≡◌, ◌≢◌, ◌⊎◌, inl, inr, refl, ap, subst, Bool, true, false, Option, none,
  some, List, [], ◌∷◌, ◌++◌, ◌==◌, length, arith, All, Distinct,
}
use goatos.Memory.Ram.{Ram}
use goatos.Memory.Frame.{FrameAllocator}
use goatos.Memory.Frame.Ops.{freed, is_none, allocate, free}
use goatos.Memory.Frame.Chain.{member}
use goatos.Memory.Frame.Owners.{Owned, Owns, handed_out-region}
use goatos.Memory.Frame.Owners.Take.{Exhausted, Allocated, allocate-Allocated}
use goatos.Memory.Frame.Owners.Give.{free-Owns, All-not-member}
use goatos.Memory.Frame.SelfTest.{SelfTest, take_frames, check_frames, give_frames, give_rest}
use goatos.Memory.Frame.SelfTest.Lists.{
  onto, onto-apart, onto-later, member_here, remove_here, member-onto, remove-onto,
}

-- Taking frames: all of them, or so many that the pool is used up.
abbrev pub Taken : Ram → List ℕ → ℕ → Bool × List ℕ × FrameAllocator → Type 0
Taken ram held count (full, xs, b) =
    (frees : List ℕ) × Owns ram b (onto xs held) frees
    × (((full ≡ true) × (length xs ≡ count))
        ⊎ ((full ≡ false) × (length xs < count) × (frees ≡ []) × Exhausted b))

pub take_frames-Taken :
    (count : ℕ) (ram : Ram) (a : FrameAllocator) (held frees : List ℕ)
    → Owns ram a held frees
    → Taken ram held count (take_frames count ram a)
unfolding take_frames onto
take_frames-Taken zero ram a held frees w = (frees, w, inl (refl, refl))
take_frames-Taken (suc count) ram a held frees w =
    first (allocate ram a) (allocate-Allocated ram a held frees w) (take_frames-Taken count ram)
  where
    first :
        (r : Option ℕ × FrameAllocator)
        → Allocated ram held frees r
        → ((b : FrameAllocator) (held' frees' : List ℕ)
            → Owns ram b held' frees'
            → Taken ram held' count (take_frames count ram b))
        → Taken ram held (suc count) (elim r.0 [
          | none ↦ (false, [], r.1)
          | some frame ↦ let rest = take_frames count ram r.1 in (rest.0, frame ∷ rest.1, rest.2)
        ])
    first (none, b) (empty, used, v) next = (frees, v, inr (refl, omega arith, empty, used))
    first (some i, b) (rest, from, v) next =
        let (frees', o, ending) = next b (i ∷ held) rest v in
        (
          frees',
          o,
          elim ending [
            | inl (full, n) ↦ inl (full, ap suc n)
            | inr (short, n, e, u) ↦ inr (short, omega (arith, n), e, u)
          ],
        )

-- Frames in order pass the checks.
pub check_frames-pass :
    (ram : Ram) (a : FrameAllocator) (xs seen held frees : List ℕ) (t : SelfTest)
    → All (Owned a) xs
    → Distinct (onto xs (seen ++ held))
    → check_frames a seen xs t ≡ t
unfolding check_frames onto is_none
check_frames-pass ram a [] seen held frees t o d = refl
check_frames-pass ram a (x ∷ xs) seen held frees t o d =
    let (k, r) = handed_out-region a x o.0.0 in
    let fresh : member x seen ≡ false =
      All-not-member x seen (front-All seen (onto-apart x xs (seen ++ held) d)) in
    rw (r, o.0.1, fresh, check_frames) (check_frames-pass ram a xs (x ∷ seen) held frees t o.1 d)
  where
    front-All : (ys : List ℕ) → All (λ y. x ≢ y) (ys ++ held) → All (λ y. x ≢ y) ys
    front-All [] h = tt
    front-All (y ∷ ys) h = (h.0, front-All ys h.1)

-- The last loop gives back all but the last.
pub give_rest-Owns :
    (ram : Ram) (a : FrameAllocator) (xs : List ℕ) (last : ℕ) (held frees : List ℕ) (t : SelfTest)
    → Owns ram a (onto xs held) frees
    → All (λ x. last ≢ x) xs
    → (ram' : Ram) × (b : FrameAllocator) × (frees' : List ℕ) × (give_rest ram a last
          (xs ++ (last ∷ []))
          t
        ≡ (t, ram', b))
      × Owns ram' b held frees'
unfolding give_rest onto
give_rest-Owns ram a [] last held frees t w n = (ram, a, frees, ground arith, w)
give_rest-Owns ram a (x ∷ xs) last held frees t w n =
    let present : member x (onto xs (x ∷ held)) ≡ true =
      member-onto x xs (x ∷ held) (member_here x held) in
    let (done, v) = free-Owns ram a (onto xs (x ∷ held)) frees x w present in
    let unlike = onto-later x xs (x ∷ held) w.held_once (member_here x held) in
    let v' =
      subst (λ l. Owns (free ram a x).1 (free ram a x).2 l (x ∷ frees))
        (remove-onto x xs [] held unlike tt) v in
    let (ram', b, frees', e, o) =
      give_rest-Owns (free ram a x).1 (free ram a x).2 xs last held (x ∷ frees) t v' n.1 in
    let other : (x == last) ≡ false = ground (arith, n.0) in
    (ram', b, frees', rw (other, done, give_rest) e, o)

-- The frame on top of those held goes back.
give-top :
    (ram : Ram) (a : FrameAllocator) (x : ℕ) (held frees : List ℕ)
    → Owns ram a (x ∷ held) frees
    → ((free ram a x).0 ≡ freed) × Owns (free ram a x).1 (free ram a x).2 held (x ∷ frees)
give-top ram a x held frees w =
    let (done, v) = free-Owns ram a (x ∷ held) frees x w (member_here x held) in
    (done, subst (λ l. Owns (free ram a x).1 (free ram a x).2 l (x ∷ frees)) (remove_here x held) v)

pub give_frames-two :
    (ram : Ram) (a : FrameAllocator) (y z : ℕ) (held frees : List ℕ) (t : SelfTest)
    → Owns ram a (z ∷ y ∷ held) frees
    → (ram' : Ram) × (b : FrameAllocator) × (give_frames ram a (z ∷ y ∷ []) t
        ≡ (true, record t { given = (t.given ++ (z ∷ [])) ++ (y ∷ []) }, ram', b))
      × Owns ram' b held (y ∷ z ∷ frees)
unfolding give_frames
give_frames-two ram a y z held frees t w =
    let (done, v) = give-top ram a z (y ∷ held) frees w in
    let (done', v') = give-top (free ram a z).1 (free ram a z).2 y held (z ∷ frees) v in
    (
      (free (free ram a z).1 (free ram a z).2 y).1,
      (free (free ram a z).1 (free ram a z).2 y).2,
      rw (done, done', give_frames) refl,
      v',
    )
