-- ===== src/Memory/Frame/Cursor.antt =====
-- The bump cursor: it only moves forward, each loop over it ends, and a frame that it hands out is
-- one that it had not passed.
use goatos.Base.{
  ℕ, zero, suc, ◌+◌, ◌≤◌, ◌<◌, ◌≡◌, ◌⊎◌, inl, inr, refl, ◌∙◌, true, false, Option, none, some, List,
  [], ◌∷◌, arith, get_elem?, leb, subst, Option-cases, Bool-cases,
}
use native.Mathlib.Numerals.{add-one}
use goatos.Memory.Frame.{FrameAllocator, FrameRange, is_reserved, handed_out, position_in}
use goatos.Memory.Frame.Ops.{
  Round, stop, again, found, advance, bump_in, bump_round, scan, rounds_from, work,
}

-- The cursor is not below the region that it stands in.
abbrev pub CursorIn : FrameAllocator → Type 0
CursorIn a =
    (r : FrameRange) → get_elem? a.regions a.cursor_region ≡ some r → r.start ≤ a.cursor_frame

-- `b` is `a` with its cursor moved forward or left where it was, and perhaps another count of frames
-- in use.
pub record Onward (a b : FrameAllocator) : Type 0 where
  pub regions : b.regions ≡ a.regions
  pub reservations : b.reservations ≡ a.reservations
  pub forward :
      (a.cursor_region < b.cursor_region)
      ⊎ ((a.cursor_region ≡ b.cursor_region) × (a.cursor_frame ≤ b.cursor_frame))
  pub free_list : b.free_list ≡ a.free_list
  pub free_count : b.free_count ≡ a.free_count
  pub total : b.total ≡ a.total
  pub placed : CursorIn a → CursorIn b

pub Onward-refl : (a : FrameAllocator) → Onward a a
Onward-refl a = record {
  regions = refl;
  reservations = refl;
  forward = inr (refl, omega arith);
  free_list = refl;
  free_count = refl;
  total = refl;
  placed = λ h. h;
}

pub Onward-trans : (a b c : FrameAllocator) → Onward a b → Onward b c → Onward a c
Onward-trans a b c p q = record {
  regions = q.regions ∙ p.regions;
  reservations = q.reservations ∙ p.reservations;
  forward = ground (arith, p.forward, q.forward);
  free_list = q.free_list ∙ p.free_list;
  free_count = q.free_count ∙ p.free_count;
  total = q.total ∙ p.total;
  placed = λ h. q.placed (p.placed h);
}

-- What the cursor has passed it has passed for good.
pub handed_out-Onward :
    (a b : FrameAllocator) (index : ℕ)
    → Onward a b
    → handed_out a index ≡ true
    → handed_out b index ≡ true
unfolding handed_out
handed_out-Onward a b index p h = elim (Option-cases (position_in a.regions index)) [
  | inl e ↦ ground (arith, e, p.regions)
  | inr (k, e) ↦ ground (arith, e, p.regions, p.forward)
]

rounds-advance :
    (rs : List FrameRange) (k f g : ℕ) (r : FrameRange)
    → get_elem? rs k ≡ some r
    → ((s : FrameRange) → get_elem? rs (suc k) ≡ some s → g ≡ s.start)
    → rounds_from rs (suc k) g < rounds_from rs k f
unfolding rounds_from
rounds-advance [] k f g r e n = ground arith
rounds-advance (x ∷ []) zero f g r e n = omega arith
rounds-advance (x ∷ y ∷ rs) zero f g r e n = omega (arith, n y refl)
rounds-advance (x ∷ rs) (suc k) f g r e n = rounds-advance rs k f g r e n

rounds-step :
    (rs : List FrameRange) (k f g : ℕ) (r : FrameRange)
    → get_elem? rs k ≡ some r
    → f < r.limit
    → f < g
    → rounds_from rs k g < rounds_from rs k f
unfolding rounds_from
rounds-step [] k f g r e lt n = ground arith
rounds-step (x ∷ rs) zero f g r e lt n = ground arith
rounds-step (x ∷ rs) (suc k) f g r e lt n = rounds-step rs k f g r e lt n

-- A round that goes on has moved the cursor, left the count of frames in use alone, and has less
-- work before it.
pub record Again (a b : FrameAllocator) : Type 0 where
  pub onward : Onward a b
  pub used : b.in_use ≡ a.in_use
  pub less : work b < work a

advance-frame :
    (a : FrameAllocator) (s : FrameRange)
    → get_elem? a.regions (a.cursor_region + 1) ≡ some s
    → (advance a).cursor_frame ≡ s.start
unfolding advance
advance-frame a s q = ground arith

pub advance-Again :
    (a : FrameAllocator) (r : FrameRange)
    → get_elem? a.regions a.cursor_region ≡ some r
    → Again a (advance a)
unfolding advance work
advance-Again a r e = record {
  onward = record {
    regions = refl;
    reservations = refl;
    forward = inl (omega arith);
    free_list = refl;
    free_count = refl;
    total = refl;
    placed = λ h s q. omega (arith, advance-frame a s q);
  };
  used = refl;
  less = rw add-one (
      rounds-advance a.regions a.cursor_region a.cursor_frame _ r e
        (λ s q. advance-frame a s (rw add-one q)));
}

-- Moving the cursor on within its region.
pub step-Again :
    (a : FrameAllocator) (r : FrameRange) (g : ℕ)
    → get_elem? a.regions a.cursor_region ≡ some r
    → a.cursor_frame < r.limit
    → a.cursor_frame < g
    → Again a (record a { cursor_frame = g })
unfolding work
step-Again a r g e lt n = record {
  onward = record {
    regions = refl;
    reservations = refl;
    forward = inr (refl, omega arith);
    free_list = refl;
    free_count = refl;
    total = refl;
    placed = λ h s q. omega (arith, h s q);
  };
  used = refl;
  less = rounds-step a.regions a.cursor_region a.cursor_frame g r e lt n;
}

-- What a loop comes to: it stops by its test after moving the cursor on, or some round on the way
-- finds a frame.
abbrev pub Scanned : (FrameAllocator → Round) → FrameAllocator → Option ℕ × FrameAllocator → Type 0
Scanned round a (none, b) = Onward a b × (b.in_use ≡ a.in_use) × (round b ≡ stop)
Scanned round a (some index, b) =
    (mid : FrameAllocator) × Onward a mid × (mid.in_use ≡ a.in_use) × (round mid ≡ found index b)

Scanned-Again :
    (round : FrameAllocator → Round) (a b : FrameAllocator) (r : Option ℕ × FrameAllocator)
    → Again a b
    → Scanned round b r
    → Scanned round a r
Scanned-Again round a b (none, c) p s = (Onward-trans a b c p.onward s.0, s.1 ∙ p.used, s.2)
Scanned-Again round a b (some i, c) p s =
    (s.0, Onward-trans a b s.0 p.onward s.1, s.2 ∙ p.used, s.3)

Round-cases :
    (r : Round)
    → (r ≡ stop)
      ⊎ ((b : FrameAllocator) × (r ≡ again b))
      ⊎ ((i : ℕ) × (b : FrameAllocator) × (r ≡ found i b))
Round-cases stop = inl refl
Round-cases (again b) = inr (inl (b, refl))
Round-cases (found i b) = inr (inr (i, b, refl))

-- With more fuel than work left, a loop whose rounds lessen the work ends by its test or finds a
-- frame.
pub scan-Scanned :
    (round : FrameAllocator → Round)
    → ((a b : FrameAllocator) → round a ≡ again b → Again a b)
    → (fuel : ℕ) (a : FrameAllocator) → work a < fuel
    → Scanned round a (scan round fuel a)
unfolding scan
scan-Scanned round go zero a h = absurd (omega arith)
scan-Scanned round go (suc fuel) a h = elim (Round-cases (round a)) [
  | inl e ↦ rw (e, scan) (Onward-refl a, refl, e)
  | inr (inl (b, e)) ↦
      let p = go a b e in
      rw (e, scan)
        (Scanned-Again round a b _ p (scan-Scanned round go fuel b (omega (arith, p.less))))
  | inr (inr (i, b, e)) ↦ rw (e, scan) (a, Onward-refl a, refl, e)
]

bump_in-Again :
    (a b : FrameAllocator) (r : FrameRange)
    → get_elem? a.regions a.cursor_region ≡ some r
    → bump_in a r ≡ again b
    → Again a b
unfolding bump_in
bump_in-Again a b r e h = elim (Bool-cases (leb r.limit a.cursor_frame)) [
  | inl over ↦ subst (Again a) (ground (arith, over)) (advance-Again a r e)
  | inr within ↦ elim (Bool-cases (is_reserved a a.cursor_frame)) [
    | inl taken ↦
        subst (Again a) (ground (arith, within, taken))
          (step-Again a r (a.cursor_frame + 1) e (ground arith) (omega arith))
    | inr open_frame ↦ ground (arith, within, open_frame)
  ]
]

pub bump_round-Again : (a b : FrameAllocator) → bump_round a ≡ again b → Again a b
unfolding bump_round
bump_round-Again a b h = elim (Option-cases (get_elem? a.regions a.cursor_region)) [
  | inl e ↦ ground (arith, e)
  | inr (r, e) ↦ bump_in-Again a b r e (rw (e, bump_round) at h)
]

-- A frame handed out from under the cursor: `b` is `a` past the `count` frames from `start` on.
pub record Takes (a b : FrameAllocator) (start count : ℕ) : Type 0 where
  pub onward : Onward a b
  pub at_cursor : start ≡ a.cursor_frame
  pub used : b.in_use ≡ a.in_use + count
  pub cursor : (b.cursor_region ≡ a.cursor_region) × (b.cursor_frame ≡ start + count)
  pub region :
      (r : FrameRange) × (get_elem? a.regions a.cursor_region ≡ some r) × (start + count ≤ r.limit)

abbrev pub taken : FrameAllocator → ℕ → FrameAllocator
taken a count = record a { cursor_frame = a.cursor_frame + count; in_use = a.in_use + count }

pub taken-Takes :
    (a b : FrameAllocator) (r : FrameRange) (start count : ℕ)
    → get_elem? a.regions a.cursor_region ≡ some r
    → a.cursor_frame + count ≤ r.limit
    → a.cursor_frame ≡ start
    → taken a count ≡ b
    → Takes a b start count
taken-Takes a b r start count e le s t =
    subst (λ c. Takes a c start count) t
      (subst (λ i. Takes a (taken a count) i count) s
        (record {
          onward = record {
            regions = refl;
            reservations = refl;
            forward = inr (refl, omega arith);
            free_list = refl;
            free_count = refl;
            total = refl;
            placed = λ h s q. omega (arith, h s q);
          };
          at_cursor = refl;
          used = refl;
          cursor = (refl, refl);
          region = (r, e, le);
        }))

bump_in-found :
    (a b : FrameAllocator) (r : FrameRange) (index : ℕ)
    → bump_in a r ≡ found index b
    → (a.cursor_frame + 1 ≤ r.limit)
      × (is_reserved a a.cursor_frame ≡ false)
      × (a.cursor_frame ≡ index)
      × (taken a 1 ≡ b)
unfolding bump_in
bump_in-found a b r index h = ground arith

bump_in-Takes :
    (a b : FrameAllocator) (r : FrameRange) (index : ℕ)
    → get_elem? a.regions a.cursor_region ≡ some r
    → bump_in a r ≡ found index b
    → Takes a b index 1 × (is_reserved a index ≡ false)
bump_in-Takes a b r index e h =
    let f = bump_in-found a b r index h in
    (taken-Takes a b r index 1 e f.0 f.2 f.3, subst (λ i. is_reserved a i ≡ false) f.2 f.1)

pub bump_round-Takes :
    (a b : FrameAllocator) (index : ℕ)
    → bump_round a ≡ found index b
    → Takes a b index 1 × (is_reserved a index ≡ false)
unfolding bump_round
bump_round-Takes a b index h = elim (Option-cases (get_elem? a.regions a.cursor_region)) [
  | inl e ↦ ground (arith, e)
  | inr (r, e) ↦ bump_in-Takes a b r index e (rw (e, bump_round) at h)
]
