-- ===== src/Memory/Frame.antt =====
-- The physical frame allocator of kernel/src/memory/frame.rs: a bump cursor over the usable regions
-- with a free list in front of it, whose links stand in the free frames themselves. The regions and
-- the reservations are lists, which stand for the arrays with their counts.
pub mod Ranges
pub mod Ops
pub mod Cursor
pub mod Runs
pub mod Chain
pub mod Owners
pub mod Fresh
pub mod SelfTest
mod Tests
use Prim.Native.String.{String}
use mathlib.Core.Option
use goatos.Base.{
  ℕ, zero, suc, ◌+◌, ◌-◌, ◌*◌, ◌/◌, ◌%◌, ◌^◌, min, max, Bool, true, false, not, ◌&&◌, ◌||◌, Option,
  none, some, List, [], ◌∷◌, ◌++◌, ◌==◌, ltb, leb, if◌then◌else◌, length, get_elem?,
}
use goatos.Memory.Map.{MemoryMap, Region, is_usable, end_of, max_entries}

abbrev pub frame_size : ℕ
frame_size = 4096

abbrev pub max_frame_index : ℕ
max_frame_index = 2 ^ 20

abbrev pub no_frame : ℕ
no_frame = 2 ^ 32 - 1

abbrev pub max_regions : ℕ
max_regions = max_entries

abbrev pub max_reservations : ℕ
max_reservations = 4

-- A frame is its index.
unfoldable pub containing_address : ℕ → ℕ
containing_address address = address / 2 ^ 12

unfoldable pub start_address : ℕ → ℕ
start_address index = index * 2 ^ 12 % 2 ^ 32

-- A half-open run of frame indices.
pub record FrameRange : Type 0 where
  pub start : ℕ
  pub limit : ℕ

unfoldable pub index_floor : ℕ → ℕ
index_floor address = min (address / 2 ^ 12) max_frame_index

-- The sum is a `u64` that saturates.
unfoldable pub index_ceil : ℕ → ℕ
unfolding index_floor
index_ceil address = index_floor (min (address + (frame_size - 1)) (2 ^ 64 - 1))

unfoldable pub inside : ℕ → ℕ → FrameRange
unfolding index_ceil index_floor
inside start limit = record {
  start = index_ceil start;
  limit = max (index_floor limit) (index_ceil start);
}

unfoldable pub covering : ℕ → ℕ → FrameRange
unfolding index_ceil index_floor
covering start limit = record { start = index_floor start; limit = index_ceil limit }

unfoldable pub contains : FrameRange → ℕ → Bool
contains r index = leb r.start index && ltb index r.limit

unfoldable pub is_empty : FrameRange → Bool
is_empty r = leb r.limit r.start

pub record Reservation : Type 0 where
  pub range : FrameRange
  pub reason : String

pub data FreeError : Type 0 where
  not_managed never_allocated already_free : FreeError

pub record FrameAllocator : Type 0 where
  pub regions : List FrameRange
  pub reservations : List Reservation
  pub cursor_region : ℕ
  pub cursor_frame : ℕ
  pub free_list : ℕ
  pub free_count : ℕ
  pub total : ℕ
  pub in_use : ℕ

unfoldable pub empty : FrameAllocator
empty = record {
  regions = [];
  reservations = [];
  cursor_region = 0;
  cursor_frame = 0;
  free_list = no_frame;
  free_count = 0;
  total = 0;
  in_use = 0;
}

unfoldable pub reserve : FrameAllocator → ℕ → ℕ → String → FrameAllocator
unfolding covering
reserve a start limit reason = if length a.reservations == max_reservations then a else record a {
  reservations = a.reservations ++ (record { range = covering start limit; reason = reason } ∷ []);
}

unfoldable pub reserved_in : List Reservation → ℕ → Bool
unfolding contains
reserved_in [] index = false
reserved_in (r ∷ rs) index = contains r.range index || reserved_in rs index

unfoldable pub is_reserved : FrameAllocator → ℕ → Bool
unfolding reserved_in
is_reserved a index = reserved_in a.reservations index

-- `iter().position(|region| region.contains(index))`
unfoldable pub position_in : List FrameRange → ℕ → Option ℕ
unfolding contains
position_in [] index = none
position_in (r ∷ rs) index =
    if contains r index then some 0 else Option.map suc (position_in rs index)

unfoldable pub region_of : FrameAllocator → ℕ → Option ℕ
unfolding position_in
region_of a index = position_in a.regions index

-- `for index in start..end`, over the `left` indices from `index` on.
unfoldable pub count_free : List Reservation → ℕ → ℕ → ℕ
unfolding reserved_in
count_free rs index zero = 0
count_free rs index (suc left) =
    (if reserved_in rs index then 0 else 1) + count_free rs (index + 1) left

unfoldable pub count_regions : List Reservation → List FrameRange → ℕ
unfolding count_free
count_regions rs [] = 0
count_regions rs (r ∷ regions) =
    count_free rs r.start (r.limit - r.start) + count_regions rs regions

unfoldable pub count_allocatable : FrameAllocator → ℕ
unfolding count_regions
count_allocatable a = count_regions a.reservations a.regions

-- The loop of `new` over the map's regions.
unfoldable pub add_regions : FrameAllocator → List Region → FrameAllocator
unfolding inside is_empty is_usable end_of
add_regions a [] = a
add_regions a (r ∷ rs) =
    let range = inside r.base (end_of r) in
    let kept = record a { regions = a.regions ++ (range ∷ []) } in
    let taken = is_usable r && not (is_empty range) in
    let rest = add_regions (if taken then kept else a) rs in
    if is_usable r && length a.regions == max_regions then a else rest

-- `kernel_start` and `kernel_end` are the linker's symbols.
unfoldable pub new : ℕ → ℕ → MemoryMap → FrameAllocator
unfolding reserve add_regions count_allocatable
new kernel_start kernel_end map =
    let a = reserve empty 0 0x1000 "IVT, BIOS data area, E820 handoff block" in
    let a = reserve a 0x7000 (0x7000 + frame_size) "boot sector image and real-mode stack" in
    let a = reserve a kernel_start kernel_end "kernel image, .bss and stack" in
    let a = reserve a 0xa0000 0x100000 "legacy video memory and BIOS ROM" in
    let a = add_regions a map.regions in
    let a = record a {
      cursor_frame = elim (get_elem? a.regions 0) [ none ↦ a.cursor_frame | some r ↦ r.start ];
    } in
    record a { total = count_allocatable a }

-- Has the bump cursor passed this frame? `place` is the region that holds it.
unfoldable pub passed : FrameAllocator → Option ℕ → ℕ → Bool
passed a none index = false
passed a (some region) index =
    ltb region a.cursor_region || (region == a.cursor_region && ltb index a.cursor_frame)

unfoldable pub handed_out : FrameAllocator → ℕ → Bool
unfolding passed region_of
handed_out a index = passed a (region_of a index) index
