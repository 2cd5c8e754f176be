-- ===== src/Memory/Frame/Runs.antt =====
-- Runs of frames: what the loop of `allocate_contiguous` does, and that the frames which either loop
-- takes are ones that the cursor had not passed and now has.
use goatos.Base.{
  ℕ, zero, suc, ◌+◌, ◌-◌, ◌≤◌, ◌<◌, ◌^◌, min, ◌≡◌, inl, inr, refl, ap, true, false, none, some,
  List, [], ◌∷◌, arith, get_elem?, leb, ltb, subst, Option-cases, Bool-cases, length, All, All-map,
  Distinct,
}
use goatos.Memory.Frame.{FrameAllocator, FrameRange, contains, is_reserved, handed_out}
use goatos.Memory.Frame.Ranges.{Apart, Fits, position_in-get_elem?}
use goatos.Memory.Frame.Ops.{again, found, find_reserved, run_in, run_round}
use goatos.Memory.Frame.Cursor.{
  CursorIn, Again, Takes, taken, taken-Takes, advance-Again, step-Again,
}

-- The `count` frames from `start` on.
abbrev pub run_of : ℕ → ℕ → List ℕ
run_of start zero = []
run_of start (suc count) = start ∷ run_of (start + 1) count

pub length-run_of : (start count : ℕ) → length (run_of start count) ≡ count
length-run_of start zero = refl
length-run_of start (suc count) = ap suc (length-run_of (start + 1) count)

pub run_of-bounds :
    (start count : ℕ) → All (λ i. (start ≤ i) × (i < start + count)) (run_of start count)
run_of-bounds start zero = tt
run_of-bounds start (suc count) = (
  (omega arith, omega arith),
  All-map _ _ (run_of (start + 1) count) (λ i b. (omega (arith, b.0), omega (arith, b.1)))
      (run_of-bounds (start + 1) count),
)

pub run_of-Distinct : (start count : ℕ) → Distinct (run_of start count)
run_of-Distinct start zero = tt
run_of-Distinct start (suc count) = (
  All-map _ _ (run_of (start + 1) count) (λ i b. omega (arith, b.0))
      (run_of-bounds (start + 1) count),
  run_of-Distinct (start + 1) count,
)

find_reserved-le :
    (a : FrameAllocator) (start count index : ℕ)
    → find_reserved a start count ≡ some index
    → start ≤ index
unfolding find_reserved
find_reserved-le a start zero index e = ground arith
find_reserved-le a start (suc count) index e =
    ground (arith, find_reserved-le a (start + 1) count index)

find_reserved-none :
    (a : FrameAllocator) (start count : ℕ)
    → find_reserved a start count ≡ none
    → All (λ i. is_reserved a i ≡ false) (run_of start count)
unfolding find_reserved
find_reserved-none a start zero e = tt
find_reserved-none a start (suc count) e = ground (arith, find_reserved-none a (start + 1) count)

run_in-Again :
    (count : ℕ) (a b : FrameAllocator) (r : FrameRange)
    → get_elem? a.regions a.cursor_region ≡ some r
    → run_in count a r ≡ again b
    → Again a b
unfolding run_in
run_in-Again count a b r e h = elim (Bool-cases (leb r.limit a.cursor_frame)) [
  | inl over ↦ subst (Again a) (ground (arith, over)) (advance-Again a r e)
  | inr within ↦ elim (Bool-cases (is_reserved a a.cursor_frame)) [
    | inl at ↦
        subst (Again a) (ground (arith, within, at))
          (step-Again a r (a.cursor_frame + 1) e (ground arith) (omega arith))
    | inr open_frame ↦ elim (Bool-cases (ltb r.limit (min (a.cursor_frame + count) (2 ^ 32 - 1)))) [
      | inl short ↦
          subst (Again a) (ground (arith, within, open_frame, short)) (advance-Again a r e)
      | inr room ↦ elim (Option-cases (find_reserved a a.cursor_frame count)) [
        | inl clear ↦ ground (arith, within, open_frame, room, clear)
        | inr (i, hit) ↦ subst (Again a) (ground (arith, within, open_frame, room, hit)) (
            step-Again a r (i + 1) e (ground arith)
              (omega (arith, find_reserved-le a a.cursor_frame count i hit)))
      ]
    ]
  ]
]

pub run_round-Again : (count : ℕ) (a b : FrameAllocator) → run_round count a ≡ again b → Again a b
unfolding run_round
run_round-Again count a b h = elim (Option-cases (get_elem? a.regions a.cursor_region)) [
  | inl e ↦ ground (arith, e)
  | inr (r, e) ↦ run_in-Again count a b r e (rw (e, run_round) at h)
]

run_in-found :
    (count : ℕ) (a b : FrameAllocator) (r : FrameRange) (start : ℕ)
    → Fits r
    → run_in count a r ≡ found start b
    → (a.cursor_frame + count ≤ r.limit)
      × (find_reserved a a.cursor_frame count ≡ none)
      × (a.cursor_frame ≡ start)
      × (taken a count ≡ b)
unfolding run_in
run_in-found count a b r start f h = ground arith

get_elem?-Fits :
    (rs : List FrameRange) (k : ℕ) (r : FrameRange) → All Fits rs → get_elem? rs k ≡ some r → Fits r
get_elem?-Fits [] k r f e = ground arith
get_elem?-Fits (x ∷ rs) zero r f e = ground arith
get_elem?-Fits (x ∷ rs) (suc k) r f e = get_elem?-Fits rs k r f.1 e

run_in-Takes :
    (count : ℕ) (a b : FrameAllocator) (r : FrameRange) (start : ℕ)
    → Fits r
    → get_elem? a.regions a.cursor_region ≡ some r
    → run_in count a r ≡ found start b
    → Takes a b start count × All (λ i. is_reserved a i ≡ false) (run_of start count)
run_in-Takes count a b r start fits e h =
    let f = run_in-found count a b r start fits h in
    (
      taken-Takes a b r start count e f.0 f.2 f.3,
      subst (λ i. All (λ j. is_reserved a j ≡ false) (run_of i count)) f.2
          (find_reserved-none a a.cursor_frame count f.1),
    )

pub run_round-Takes :
    (count : ℕ) (a b : FrameAllocator) (start : ℕ)
    → All Fits a.regions
    → run_round count a ≡ found start b
    → Takes a b start count × All (λ i. is_reserved a i ≡ false) (run_of start count)
unfolding run_round
run_round-Takes count a b start fits h = elim (Option-cases (get_elem? a.regions a.cursor_region)) [
  | inl e ↦ ground (arith, e)
  | inr (r, e) ↦
      run_in-Takes count a b r start (get_elem?-Fits a.regions a.cursor_region r fits e) e
        (rw (e, run_round) at h)
]

-- A frame that the cursor had before it and has behind it now.
abbrev pub NewlyOut : FrameAllocator → FrameAllocator → ℕ → Type 0
NewlyOut a b index = (handed_out a index ≡ false) × (handed_out b index ≡ true)

frame-NewlyOut :
    (a b : FrameAllocator) (start count index : ℕ)
    → Apart a.regions
    → CursorIn a
    → Takes a b start count
    → start ≤ index
    → index < start + count
    → NewlyOut a b index
unfolding handed_out
frame-NewlyOut a b start count index apart placed t lo hi =
    let r = t.region.0 in
    let inside : contains r index ≡ true =
      contains-intro r index (omega (arith, placed r t.region.1, t.at_cursor))
        (omega (arith, t.region.2)) in
    let at = position_in-get_elem? a.regions a.cursor_region r index apart t.region.1 inside in
    ground (arith, at, t.onward.regions, t.cursor, t.at_cursor)
  where
    contains-intro : (r : FrameRange) (i : ℕ) → r.start ≤ i → i < r.limit → contains r i ≡ true
    contains-intro r i p q = ground arith

-- Every frame of a run taken by the cursor was before it and is behind it now.
pub Takes-NewlyOut :
    (a b : FrameAllocator) (start count : ℕ)
    → Apart a.regions
    → CursorIn a
    → Takes a b start count
    → All (NewlyOut a b) (run_of start count)
Takes-NewlyOut a b start count apart placed t =
    All-map _ _ (run_of start count)
      (λ i p. frame-NewlyOut a b start count i apart placed t p.0 p.1) (run_of-bounds start count)
