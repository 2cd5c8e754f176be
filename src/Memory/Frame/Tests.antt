-- ===== src/Memory/Frame/Tests.antt =====
-- Runs of the frame allocator on one small region, and the theorems about it there.
use goatos.Base.{◌⊎◌, All, Distinct, ℕ, ◌≡◌, ◌↔◌, refl, true, false, some, [], ◌∷◌, arith}
use goatos.Memory.Ram.{Ram, read_u32, write_u32}
use goatos.Memory.Frame.{
  new, FrameAllocator, already_free, no_frame, start_address, handed_out, is_reserved, region_of,
}
use goatos.Memory.Frame.Ops.{on_free_list, allocate, allocate_contiguous, free, refused}
use goatos.Memory.Frame.Owners.{Owns}
use goatos.Memory.Frame.Fresh.{Touches, new-Owns, new-is_reserved}
use goatos.Memory.Map.{MemoryMap, usable, end_of}
use goatos.Memory.Frame.Owners.Take.{
  Allocated, AllocatedRun, allocate-Allocated, allocate_contiguous-AllocatedRun,
}
use goatos.Memory.Frame.Owners.Give.{Freed, free-Freed}
use goatos.Memory.Frame.Owners.World.{World, here, later, misgives, Reach, Reach-exclusive}

-- Frames 16 to 19; 17 is reserved, 16 was freed, 18 belongs to a caller, 19 was never handed out.
abbrev small : FrameAllocator
small = record {
  regions = record { start = 16; limit = 20 } ∷ [];
  reservations = record { range = record { start = 17; limit = 18 }; reason = "kernel" } ∷ [];
  cursor_region = 0;
  cursor_frame = 19;
  free_list = 16;
  free_count = 1;
  total = 3;
  in_use = 1;
}

abbrev memory : Ram
memory = write_u32 (λ a. 0) 0x10000 no_frame

small-Owns : Owns memory small (18 ∷ []) (16 ∷ [])
unfolding read_u32 write_u32 start_address handed_out is_reserved
small-Owns = record {
  fits = (omega arith, tt);
  apart = (tt, tt);
  placed = λ r e. ground (arith, e);
  chain = (refl, refl);
  free_counted = refl;
  counted = refl;
  held_owned = ((refl, refl), tt);
  free_owned = ((refl, refl), tt);
  held_once = (tt, tt);
  free_once = (tt, tt);
  lists_apart = ((omega arith, tt), tt);
}

allocate-Allocated_example : Allocated memory (18 ∷ []) (16 ∷ []) (allocate memory small)
allocate-Allocated_example = allocate-Allocated memory small (18 ∷ []) (16 ∷ []) small-Owns

allocate_contiguous-AllocatedRun_example :
    AllocatedRun memory (18 ∷ []) (16 ∷ []) 1 (allocate_contiguous small 1)
allocate_contiguous-AllocatedRun_example =
    allocate_contiguous-AllocatedRun memory small (18 ∷ []) (16 ∷ []) 1 small-Owns

free-Freed_example : Freed memory small (16 ∷ []) 18 (free memory small 18)
free-Freed_example = free-Freed memory small (18 ∷ []) (16 ∷ []) 18 small-Owns

abbrev world : World
world = record { ram = memory; alloc = small; held = 18 ∷ [] }

double_free : (free memory small 16).0 ≡ refused already_free
unfolding free read_u32 write_u32 start_address region_of is_reserved handed_out on_free_list
double_free = refl

abbrev misfreed : World
misfreed = let (r, ram, a) = free memory small 16 in record { ram = ram; alloc = a; held = 18 ∷ [] }

misfreed-Reach : Reach world misfreed
misfreed-Reach = later here (misgives 16 already_free double_free)

Reach-exclusive_example :
    Distinct {A = ℕ} (18 ∷ [])
    × All
        (λ i.
          (is_reserved misfreed.alloc i ≡ false) × (k : ℕ) × (region_of misfreed.alloc i ≡ some k))
        (18 ∷ [])
    × (misfreed.alloc.in_use ≡ 1)
Reach-exclusive_example = Reach-exclusive world misfreed (16 ∷ [], small-Owns) misfreed-Reach

-- 640 KiB below the video memory and 1 MiB from 1 MiB on.
abbrev two_regions : MemoryMap
two_regions = record {
  regions =
      record { base = 0; size = 0xa0000; kind = usable }
      ∷ record { base = 0x100000; size = 0x100000; kind = usable }
      ∷ [];
  reported = 2;
  available = true;
}

new-Owns_example : Owns memory (new 0x8000 0x20000 two_regions) [] []
unfolding end_of
new-Owns_example = new-Owns memory 0x8000 0x20000 two_regions (ground arith)

new-is_reserved_example : (is_reserved (new 0x8000 0x20000 two_regions) 9 ≡ true) ↔ (
    Touches 0 0x1000 9
    ⊎ Touches 0x7000 0x8000 9
    ⊎ Touches 0x8000 0x20000 9
    ⊎ Touches 0xa0000 0x100000 9)
new-is_reserved_example = new-is_reserved 0x8000 0x20000 two_regions 9 (omega arith) (omega arith)
