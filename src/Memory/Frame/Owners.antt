-- ===== src/Memory/Frame/Owners.antt =====
-- Who has which frame: the frames that are handed out and the frames on the free list.
pub mod Take
pub mod Give
pub mod World
use goatos.Base.{
  ℕ, zero, suc, ◌+◌, ◌≤◌, ◌<◌, ◌^◌, ◌≡◌, ◌≢◌, ◌∙◌, refl, sym, ap, subst, Bool, true, false, Option,
  none, some, List, [], ◌∷◌, ◌++◌, ◌==◌, if◌then◌else◌, arith, length, Option-cases, inl, inr, All,
  All-map, AllApart, Distinct,
}
use goatos.Memory.Ram.{Ram}
use goatos.Memory.Frame.{
  FrameAllocator, max_frame_index, no_frame, is_reserved, handed_out, region_of, position_in,
  passed,
}
use goatos.Memory.Frame.Ranges.{Apart, Fits, position_in-lt}
use goatos.Memory.Frame.Cursor.{CursorIn, Onward, handed_out-Onward}
use goatos.Memory.Frame.Chain.{Chain, member}

-- A frame of the pool that the cursor has passed.
abbrev pub Owned : FrameAllocator → ℕ → Type 0
Owned a index = (handed_out a index ≡ true) × (is_reserved a index ≡ false)

-- The frames in `held` belong to callers and those in `free` are on the free list: all of them are
-- frames of the pool that have been handed out, no frame stands twice in the two lists, and both
-- counts are right. The regions end at the 4 GiB line and share no frame.
pub record Owns (ram : Ram) (a : FrameAllocator) (held free : List ℕ) : Type 0 where
  pub fits : All Fits a.regions
  pub apart : Apart a.regions
  pub placed : CursorIn a
  pub chain : Chain ram a.free_list free
  pub free_counted : a.free_count ≡ length free
  pub counted : a.in_use ≡ length held
  pub held_owned : All (Owned a) held
  pub free_owned : All (Owned a) free
  pub held_once : Distinct held
  pub free_once : Distinct free
  pub lists_apart : AllApart held free

pub handed_out-region :
    (a : FrameAllocator) (index : ℕ)
    → handed_out a index ≡ true
    → (k : ℕ) × (region_of a index ≡ some k)
unfolding handed_out
handed_out-region a index h = elim (Option-cases (position_in a.regions index)) [
  | inl e ↦ ground (arith, e)
  | inr (k, e) ↦ (k, e)
]

pub Owned-lt :
    (a : FrameAllocator) (index : ℕ) → All Fits a.regions → Owned a index → index < max_frame_index
unfolding region_of
Owned-lt a index f o =
    let k = handed_out-region a index o.0 in position_in-lt a.regions k.0 index f k.1

pub is_reserved-Onward :
    (a b : FrameAllocator) (index : ℕ) → Onward a b → is_reserved b index ≡ is_reserved a index
unfolding is_reserved
is_reserved-Onward a b index p = rw p.reservations

pub Owned-Onward :
    (a b : FrameAllocator) (xs : List ℕ) → Onward a b → All (Owned a) xs → All (Owned b) xs
Owned-Onward a b xs p h =
    All-map _ _ xs (λ i o. (handed_out-Onward a b i p o.0, is_reserved-Onward a b i p ∙ o.1)) h

-- A frame that the cursor has not passed is none of these.
pub fresh-ne :
    (a : FrameAllocator) (index : ℕ) (xs : List ℕ)
    → handed_out a index ≡ false
    → All (Owned a) xs
    → All (λ x. index ≢ x) xs
fresh-ne a index xs h o = All-map _ _ xs (λ x p e. cc (ap (handed_out a) e, p.0)) o

pub head-lt :
    (ram : Ram) (a : FrameAllocator) (held free : List ℕ)
    → Owns ram a held free
    → a.free_list < 2 ^ 32
head-lt ram a held [] w = omega (arith, w.chain)
head-lt ram a held (x ∷ xs) w = omega (arith, w.chain.0, Owned-lt a x w.fits w.free_owned.0)

-- Moving the cursor on keeps all this, if the count of frames in use stays.
pub Owns-Onward :
    (ram : Ram) (a b : FrameAllocator) (held free : List ℕ)
    → Onward a b
    → b.in_use ≡ a.in_use
    → Owns ram a held free
    → Owns ram b held free
Owns-Onward ram a b held free p u w = record {
  fits = subst (All Fits) (sym p.regions) w.fits;
  apart = subst Apart (sym p.regions) w.apart;
  placed = p.placed w.placed;
  chain = subst (λ h. Chain ram h free) (sym p.free_list) w.chain;
  free_counted = p.free_count ∙ w.free_counted;
  counted = u ∙ w.counted;
  held_owned = Owned-Onward a b held p w.held_owned;
  free_owned = Owned-Onward a b free p w.free_owned;
  held_once = w.held_once;
  free_once = w.free_once;
  lists_apart = w.lists_apart;
}
