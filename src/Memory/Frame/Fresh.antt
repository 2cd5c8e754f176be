-- ===== src/Memory/Frame/Fresh.antt =====
-- The allocator that `new` builds: what is reserved, and that it starts in order.
use goatos.Base.{
  ℕ, ◌+◌, ◌*◌, ◌^◌, ◌≤◌, ◌<◌, ◌≡◌, ◌↔◌, ◌⊎◌, refl, sym, ap, ◌∙◌, subst, true, false, ◌||◌, none,
  some, List, [], ◌∷◌, ◌++◌, ◌==◌, arith, length, get_elem?, Bool-cases, inl, inr, All, All-map,
  All-append,
}
use goatos.Memory.Ram.{Ram}
use goatos.Memory.Map.{MemoryMap, Region, is_usable, end_of}
use goatos.Memory.Frame.{
  FrameAllocator, FrameRange, frame_size, max_regions, empty, reserve, reserved_in, is_reserved,
  add_regions, new, inside, covering, contains, is_empty, index_floor, index_ceil,
}
use goatos.Memory.Frame.Ranges.{Apart, ApartFrom, Fits, covering_lem}
use goatos.Memory.Frame.Owners.{Owns}

-- No two usable regions of the map share a byte.
abbrev pub Disjoint : List Region → Type 0
Disjoint [] = Unit {0}
Disjoint (r ∷ rs) =
    All (λ s. is_usable r ≡ true → is_usable s ≡ true → (end_of r ≤ s.base) ⊎ (end_of s ≤ r.base))
      rs
    × Disjoint rs

abbrev pub range_of : Region → FrameRange
range_of r = inside r.base (end_of r)

-- The usable regions of the list that hold a frame are apart from the range.
abbrev Beside : FrameRange → List Region → Type 0
Beside x = All (λ s. is_usable s ≡ true → is_empty (range_of s) ≡ false → ApartFrom x (range_of s))

inside-ApartFrom :
    (a b c d : ℕ)
    → is_empty (inside a b) ≡ false
    → is_empty (inside c d) ≡ false
    → (b ≤ c) ⊎ (d ≤ a)
    → ApartFrom (inside a b) (inside c d)
unfolding inside is_empty index_floor index_ceil
inside-ApartFrom a b c d p q h = ground arith

inside-Fits : (a b : ℕ) → Fits (inside a b)
unfolding inside index_floor index_ceil
inside-Fits a b = omega arith

Apart-snoc :
    (xs : List FrameRange) (r : FrameRange)
    → Apart xs
    → All (λ x. ApartFrom x r) xs
    → Apart (xs ++ (r ∷ []))
Apart-snoc [] r a h = (tt, tt)
Apart-snoc (x ∷ xs) r a h =
    (All-append (ApartFrom x) xs (r ∷ []) a.0 (h.0, tt), Apart-snoc xs r a.1 h.1)

-- What the loop over the map's regions keeps, with `rs` to come.
record Pool (a b : FrameAllocator) (rs : List Region) : Type 0 where
  fits : All Fits b.regions
  apart : Apart b.regions
  beside : All (λ x. Beside x rs) b.regions
  same : b ≡ record a { regions = b.regions }

module _ (a b : FrameAllocator) (r : Region) (rs : List Region) where
  skip-Pool : Pool a b (r ∷ rs) → Pool a b rs
  skip-Pool p = record {
    fits = p.fits;
    apart = p.apart;
    beside = All-map _ _ b.regions (λ x h. h.1) p.beside;
    same = p.same;
  }

  keep-Pool :
      Disjoint (r ∷ rs)
      → is_usable r ≡ true
      → is_empty (range_of r) ≡ false
      → Pool a b (r ∷ rs)
      → Pool a (record b { regions = b.regions ++ (range_of r ∷ []) }) rs
  keep-Pool d u n p = record {
    fits = All-append Fits b.regions (range_of r ∷ []) p.fits (inside-Fits r.base (end_of r), tt);
    apart =
        Apart-snoc b.regions (range_of r) p.apart (All-map _ _ b.regions (λ x h. h.0 u n) p.beside);
    beside =
        All-append _ b.regions (range_of r ∷ []) (All-map _ _ b.regions (λ x h. h.1) p.beside) (
          All-map _ _ rs
              (λ s h v m. inside-ApartFrom r.base (end_of r) s.base (end_of s) n m (h u v)) d.0,
          tt,
        );
    same =
        ap {A = FrameAllocator} (λ c. record c { regions = b.regions ++ (range_of r ∷ []) }) p.same;
  }

done-Pool : (a b : FrameAllocator) (rs : List Region) → Pool a b rs → Pool a b []
done-Pool a b rs p = record {
  fits = p.fits;
  apart = p.apart;
  beside = All-map _ _ b.regions (λ x h. tt) p.beside;
  same = p.same;
}

add_regions-Pool :
    (a : FrameAllocator) (rs : List Region) (b : FrameAllocator)
    → Disjoint rs
    → Pool a b rs
    → Pool a (add_regions b rs) []
unfolding add_regions
add_regions-Pool a [] b d p = p
add_regions-Pool a (r ∷ rs) b d p = elim (Bool-cases (is_usable r)) [
  | inr other ↦ rw (other, add_regions) (add_regions-Pool a rs b d.1 (skip-Pool a b r rs p))
  | inl usable ↦ elim (Bool-cases (length b.regions == max_regions)) [
    | inl full ↦ rw (usable, full, add_regions) (done-Pool a b (r ∷ rs) p)
    | inr room ↦ elim (Bool-cases (is_empty (range_of r))) [
      | inl nothing ↦
          rw (usable, room, nothing, add_regions)
            (add_regions-Pool a rs b d.1 (skip-Pool a b r rs p))
      | inr something ↦
          rw (usable, room, something, add_regions)
            (add_regions-Pool a rs (record b { regions = b.regions ++ (range_of r ∷ []) }) d.1
              (keep-Pool a b r rs d usable something p))
    ]
  ]
]

-- The allocator with its reservations, before the regions are added.
reserving : ℕ → ℕ → FrameAllocator
reserving kernel_start kernel_end =
    let a = reserve empty 0 0x1000 "IVT, BIOS data area, E820 handoff block" in
    let a = reserve a 0x7000 (0x7000 + frame_size) "boot sector image and real-mode stack" in
    let a = reserve a kernel_start kernel_end "kernel image, .bss and stack" in
    reserve a 0xa0000 0x100000 "legacy video memory and BIOS ROM"

placed_first :
    (b : FrameAllocator) (r : FrameRange)
    → get_elem? b.regions 0 ≡ some r
    → r.start ≤ (elim (get_elem? b.regions 0) [ none ↦ b.cursor_frame | some s ↦ s.start ])
placed_first b r e = rw e (omega arith)

-- From a map whose usable regions share no byte, `new` builds an allocator in order (`Owns`), of which
-- nobody has a frame and whose free list is empty.
pub new-Owns :
    (ram : Ram) (kernel_start kernel_end : ℕ) (map : MemoryMap)
    → Disjoint map.regions
    → Owns ram (new kernel_start kernel_end map) [] []
unfolding new reserving reserve empty
new-Owns ram kernel_start kernel_end map d =
    let a = reserving kernel_start kernel_end in
    let b = add_regions a map.regions in
    let p : Pool a b [] =
      add_regions-Pool a map.regions a d
        (record { fits = tt; apart = tt; beside = tt; same = refl }) in
    record {
      fits = p.fits;
      apart = p.apart;
      placed = λ r e. placed_first b r (
          subst (λ c. get_elem? b.regions c ≡ some r)
            (ap {A = FrameAllocator} (λ c. c.cursor_region) p.same) e);
      chain = ap {A = FrameAllocator} (λ c. c.free_list) p.same;
      free_counted = ap {A = FrameAllocator} (λ c. c.free_count) p.same;
      counted = ap {A = FrameAllocator} (λ c. c.in_use) p.same;
      held_owned = tt;
      free_owned = tt;
      held_once = tt;
      free_once = tt;
      lists_apart = tt;
    }

-- A frame that shares a byte with the range.
abbrev pub Touches : ℕ → ℕ → ℕ → Type 0
Touches start limit index = (start < (index + 1) * frame_size) × (index * frame_size < limit)

add_regions-reservations :
    (rs : List Region) (b : FrameAllocator) → (add_regions b rs).reservations ≡ b.reservations
unfolding add_regions
add_regions-reservations [] b = refl
add_regions-reservations (r ∷ rs) b = ground (
  arith,
  add_regions-reservations rs b,
  add_regions-reservations rs (record b { regions = b.regions ++ (range_of r ∷ []) }),
)

reserved_new :
    (kernel_start kernel_end : ℕ) (map : MemoryMap) (index : ℕ)
    → is_reserved (new kernel_start kernel_end map) index ≡ (
        contains (covering 0 0x1000) index
        || (contains (covering 0x7000 0x8000) index
            || (contains (covering kernel_start kernel_end) index
                || (contains (covering 0xa0000 0x100000) index || false))))
unfolding new is_reserved reserved_in reserve empty reserving
reserved_new kernel_start kernel_end map index =
    ap (λ rs. reserved_in rs index)
      (add_regions-reservations map.regions (reserving kernel_start kernel_end))

-- What `new` reserves, for a kernel image that is not empty and ends below 4 GiB: exactly the frames
-- that share a byte with low memory up to 0x1000, the boot sector's page, the kernel image, or video
-- memory and ROM from 0xa0000 to 0x100000.
pub new-is_reserved :
    (kernel_start kernel_end : ℕ) (map : MemoryMap) (index : ℕ)
    → kernel_start < kernel_end
    → kernel_end < 2 ^ 32
    → (is_reserved (new kernel_start kernel_end map) index ≡ true) ↔ (
        Touches 0 0x1000 index
        ⊎ Touches 0x7000 0x8000 index
        ⊎ Touches kernel_start kernel_end index
        ⊎ Touches 0xa0000 0x100000 index)
new-is_reserved kernel_start kernel_end map index h k =
    let low = covering_lem 0 0x1000 index (omega arith) (omega arith) in
    let boot = covering_lem 0x7000 0x8000 index (omega arith) (omega arith) in
    let kernel = covering_lem kernel_start kernel_end index h k in
    let rom = covering_lem 0xa0000 0x100000 index (omega arith) (omega arith) in
    let sum = reserved_new kernel_start kernel_end map index in
    (
      λ r. ground (arith, sym sum ∙ r, low.0, boot.0, kernel.0, rom.0),
      λ t. sum ∙ ground (arith, t, low.1, boot.1, kernel.1, rom.1),
    )
