-- ===== src/Memory/Frame/Ranges.antt =====
-- Frame ranges: which frames a byte range contains or touches, and which region holds a frame.
use goatos.Base.{
  ℕ, zero, suc, ◌+◌, ◌*◌, ◌%◌, ◌^◌, ◌≤◌, ◌<◌, ◌≡◌, ◌↔◌, ◌⊎◌, refl, true, false, some, List, [], ◌∷◌,
  arith, get_elem?, All, Option-cases, inl, inr,
}
use goatos.Memory.Frame.{
  FrameRange, frame_size, max_frame_index, inside, covering, contains, position_in, start_address,
  containing_address,
}

-- The frames of a usable region, with 64-bit bounds: exactly those below the 4 GiB line that lie in it from their first
-- byte to their last.
pub inside_lem :
    (start limit index : ℕ)
    → start < 2 ^ 64
    → limit < 2 ^ 64
    → (contains (inside start limit) index ≡ true) ↔ (
        (start ≤ index * frame_size)
        × ((index + 1) * frame_size ≤ limit)
        × (index < max_frame_index))
unfolding inside contains
inside_lem start limit index h k = (λ c. ground arith, λ c. ground arith)

-- The frames of a reservation that is not empty, below 4 GiB: exactly those that share a byte with it.
pub covering_lem :
    (start limit index : ℕ)
    → start < limit
    → limit < 2 ^ 32
    → (contains (covering start limit) index ≡ true)
      ↔ ((start < (index + 1) * frame_size) × (index * frame_size < limit))
unfolding covering contains
covering_lem start limit index h k = (λ c. ground arith, λ c. ground arith)

-- With 64-bit bounds, the frames of a usable region are exactly those below the 4 GiB line that lie in
-- it from their first byte to their last; the frames of a reservation that is not empty and ends below
-- 4 GiB are exactly those that share a byte with it.
pub inside-covering :
    (start limit from to index : ℕ)
    → start < 2 ^ 64
    → limit < 2 ^ 64
    → from < to
    → to < 2 ^ 32
    → ((contains (inside start limit) index ≡ true) ↔ (
        (start ≤ index * frame_size)
        × ((index + 1) * frame_size ≤ limit)
        × (index < max_frame_index)))
      × ((contains (covering from to) index ≡ true)
          ↔ ((from < (index + 1) * frame_size) × (index * frame_size < to)))
inside-covering start limit from to index h k l r =
    (inside_lem start limit index h k, covering_lem from to index l r)

-- An address lies in the frame that contains it, and the frame's address does not wrap.
pub containing_address_lem :
    (address : ℕ)
    → address < 2 ^ 32
    → let first = start_address (containing_address address) in
      (first ≤ address) × (address < first + frame_size) × (first % frame_size ≡ 0)
unfolding start_address containing_address
containing_address_lem address h = omega arith

-- Two ranges have no frame in common.
abbrev pub ApartFrom : FrameRange → FrameRange → Type 0
ApartFrom r s = (r.limit ≤ s.start) ⊎ (s.limit ≤ r.start)

-- No two ranges of the list have a frame in common.
abbrev pub Apart : List FrameRange → Type 0
Apart [] = Unit {0}
Apart (r ∷ rs) = All (ApartFrom r) rs × Apart rs

abbrev pub Fits : FrameRange → Type 0
Fits r = r.limit ≤ max_frame_index

not-contains :
    (r s : FrameRange) (index : ℕ)
    → ApartFrom r s
    → contains s index ≡ true
    → contains r index ≡ false
unfolding contains
not-contains r s index a c = ground arith

All-get_elem? :
    (r : FrameRange) (rs : List FrameRange) (k : ℕ) (s : FrameRange)
    → All (ApartFrom r) rs
    → get_elem? rs k ≡ some s
    → ApartFrom r s
All-get_elem? r [] k s a e = ground arith
All-get_elem? r (x ∷ rs) zero s a e = ground arith
All-get_elem? r (x ∷ rs) (suc k) s a e = All-get_elem? r rs k s a.1 e

-- Where no two regions share a frame, the region that holds a frame is the one found for it.
pub position_in-get_elem? :
    (rs : List FrameRange) (k : ℕ) (r : FrameRange) (index : ℕ)
    → Apart rs
    → get_elem? rs k ≡ some r
    → contains r index ≡ true
    → position_in rs index ≡ some k
unfolding position_in
position_in-get_elem? [] k r index a e c = ground arith
position_in-get_elem? (x ∷ rs) zero r index a e c = ground arith
position_in-get_elem? (x ∷ rs) (suc k) r index a e c = ground (
  arith,
  not-contains x r index (All-get_elem? x rs k r a.0 e) c,
  position_in-get_elem? rs k r index a.1 e c,
)

position_in-zero :
    (r : FrameRange) (rs : List FrameRange) (index : ℕ)
    → position_in (r ∷ rs) index ≡ some 0
    → contains r index ≡ true
unfolding position_in
position_in-zero r rs index e = elim (Option-cases (position_in rs index)) [
  | inl nowhere ↦ ground arith
  | inr (k, there) ↦ ground arith
]

position_in-suc :
    (r : FrameRange) (rs : List FrameRange) (k index : ℕ)
    → position_in (r ∷ rs) index ≡ some (suc k)
    → position_in rs index ≡ some k
unfolding position_in
position_in-suc r rs k index e = elim (Option-cases (position_in rs index)) [
  | inl nowhere ↦ ground arith
  | inr (j, there) ↦ ground arith
]

-- And the frame is in the region found for it.
pub position_in-contains :
    (rs : List FrameRange) (k : ℕ) (index : ℕ)
    → position_in rs index ≡ some k
    → (r : FrameRange) × (get_elem? rs k ≡ some r) × (contains r index ≡ true)
unfolding position_in
position_in-contains [] k index e = ground arith
position_in-contains (x ∷ rs) zero index e = (x, refl, position_in-zero x rs index e)
position_in-contains (x ∷ rs) (suc k) index e =
    position_in-contains rs k index (position_in-suc x rs k index e)

pub position_in-lt :
    (rs : List FrameRange) (k : ℕ) (index : ℕ)
    → All Fits rs
    → position_in rs index ≡ some k
    → index < max_frame_index
unfolding position_in contains
position_in-lt [] k index f e = ground arith
position_in-lt (x ∷ rs) zero index f e = ground (arith, position_in-zero x rs index e)
position_in-lt (x ∷ rs) (suc k) index f e =
    position_in-lt rs k index f.1 (position_in-suc x rs k index e)
