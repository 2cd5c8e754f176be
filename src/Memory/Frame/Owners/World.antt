-- ===== src/Memory/Frame/Owners/World.antt =====
-- The allocator among its callers, as sequences of steps: calls of the three operations in any order,
-- mistaken frees among them, and writes of the callers to the frames they have.
use goatos.Base.{
  ℕ, ◌+◌, ◌/◌, ◌<◌, ◌≡◌, ◌≢◌, true, false, Option, none, some, List, [], ◌∷◌, ◌++◌, ◌==◌,
  if◌then◌else◌, arith, length, All, All-map, All-zip, Distinct,
}
use goatos.Memory.Ram.{Ram, read_u32}
use goatos.Memory.Frame.{
  FrameAllocator, FreeError, not_managed, never_allocated, already_free, max_frame_index,
  frame_size, start_address, is_reserved, region_of,
}
use goatos.Memory.Frame.Ops.{
  allocate, allocate_contiguous, FreeResult, freed, refused, link_of, free,
}
use goatos.Memory.Frame.Runs.{run_of}
use goatos.Memory.Frame.Chain.{member, member-All, Chain-SameLinks}
use goatos.Memory.Frame.Owners.{Owns, Owned-lt, handed_out-region}
use goatos.Memory.Frame.Owners.Take.{
  Allocated, AllocatedRun, allocate-Allocated, allocate_contiguous-AllocatedRun,
}
use goatos.Memory.Frame.Owners.Give.{remove, Freed, free-Freed, free-Owns}

-- Memory, the allocator, and the frames that callers have.
pub record World : Type 0 where
  pub ram : Ram
  pub alloc : FrameAllocator
  pub held : List ℕ

pub take_one : World → Option ℕ × FrameAllocator → World
take_one w (none, a) = record w { alloc = a }
take_one w (some i, a) = record w { alloc = a; held = i ∷ w.held }

pub take_run : World → ℕ → Option ℕ × FrameAllocator → World
take_run w count (none, a) = record w { alloc = a }
take_run w count (some start, a) = record w { alloc = a; held = run_of start count ++ w.held }

pub poke : Ram → ℕ → ℕ → Ram
poke ram address byte a = if a == address then byte else ram a

-- A caller frees a frame that it has, or by mistake one that `free` refuses; it writes to the frames
-- it has.
pub data Step (w : World) : World → Type 0 where
  takes : Step w (take_one w (allocate w.ram w.alloc))
  takes_run : (count : ℕ) → Step w (take_run w count (allocate_contiguous w.alloc count))
  gives :
      (i : ℕ)
      → member i w.held ≡ true
      → Step w (
          let (r, ram, a) = free w.ram w.alloc i in
          record { ram = ram; alloc = a; held = remove i w.held })
  misgives :
      (i : ℕ) (e : FreeError)
      → (free w.ram w.alloc i).0 ≡ refused e
      → Step w (let (r, ram, a) = free w.ram w.alloc i in record w { ram = ram; alloc = a })
  writes :
      (address byte : ℕ)
      → member (address / frame_size) w.held ≡ true
      → Step w (record w { ram = poke w.ram address byte })

pub data Reach (start : World) : World → Type 0 where
  here : Reach start start
  later : {v w : World} → Reach start v → Step v w → Reach start w

-- The frames that no caller has stand on a free list that is in order.
abbrev pub Settled : World → Type 0
Settled w = (frees : List ℕ) × Owns w.ram w.alloc w.held frees

take_one-Settled :
    (w : World) (frees : List ℕ) (r : Option ℕ × FrameAllocator)
    → Allocated w.ram w.held frees r
    → Settled (take_one w r)
unfolding take_one
take_one-Settled w frees (none, a) h = (frees, h.2)
take_one-Settled w frees (some i, a) h = (h.0, h.2)

take_run-Settled :
    (w : World) (frees : List ℕ) (count : ℕ) (r : Option ℕ × FrameAllocator)
    → AllocatedRun w.ram w.held frees count r
    → Settled (take_run w count r)
unfolding take_run
take_run-Settled w frees count (none, a) h = (frees, h)
take_run-Settled w frees count (some i, a) h = (frees, h)

-- A refused free has changed nothing.
refused-same :
    (ram : Ram) (a : FrameAllocator) (frees : List ℕ) (i : ℕ) (e : FreeError)
    (r : FreeResult × Ram × FrameAllocator)
    → Freed ram a frees i r
    → r.0 ≡ refused e
    → (r.1 ≡ ram) × (r.2 ≡ a)
refused-same ram a frees i e (refused not_managed, ram', b) h k = (h.1, h.2)
refused-same ram a frees i e (refused never_allocated, ram', b) h k = (h.3, h.4)
refused-same ram a frees i e (refused already_free, ram', b) h k = (h.2, h.3)
refused-same ram a frees i e (freed, ram', b) h k = absurd cc

-- A write to one frame leaves the links in the others.
poke-read_u32 :
    (ram : Ram) (address byte x : ℕ)
    → x < max_frame_index
    → address / frame_size ≢ x
    → read_u32 (poke ram address byte) (link_of x) ≡ read_u32 ram (link_of x)
unfolding poke read_u32 start_address
poke-read_u32 ram address byte x h n =
    let off : All (λ k. link_of x + k ≢ address) (0 ∷ 1 ∷ 2 ∷ 3 ∷ []) = omega arith in ground arith

writes-Owns :
    (w : World) (frees : List ℕ) (address byte : ℕ)
    → member (address / frame_size) w.held ≡ true
    → Owns w.ram w.alloc w.held frees
    → Owns (poke w.ram address byte) w.alloc w.held frees
writes-Owns w frees address byte m o = record {
  fits = o.fits;
  apart = o.apart;
  placed = o.placed;
  chain =
      Chain-SameLinks w.ram _ w.alloc.free_list frees
        (All-map _ _ frees
          (λ x p. poke-read_u32 w.ram address byte x (Owned-lt w.alloc x o.fits p.0) p.1)
          (All-zip _ _ frees o.free_owned (
            member-All (λ h. All (λ f. h ≢ f) frees) (address / frame_size) w.held o.lists_apart
              m)))
        o.chain;
  free_counted = o.free_counted;
  counted = o.counted;
  held_owned = o.held_owned;
  free_owned = o.free_owned;
  held_once = o.held_once;
  free_once = o.free_once;
  lists_apart = o.lists_apart;
}

-- Each step keeps the lists in order.
Step-Settled : (v w : World) → Step v w → Settled v → Settled w
Step-Settled v w takes (frees, o) =
    take_one-Settled v frees (allocate v.ram v.alloc)
      (allocate-Allocated v.ram v.alloc v.held frees o)
Step-Settled v w (takes_run count) (frees, o) =
    take_run-Settled v frees count (allocate_contiguous v.alloc count)
      (allocate_contiguous-AllocatedRun v.ram v.alloc v.held frees count o)
Step-Settled v w (gives i m) (frees, o) =
    (i ∷ frees, (free-Owns v.ram v.alloc v.held frees i o m).1)
Step-Settled v w (misgives i e k) (frees, o) =
    let same =
      refused-same v.ram v.alloc frees i e (free v.ram v.alloc i)
        (free-Freed v.ram v.alloc v.held frees i o) k in
    (frees, rw (same.0, same.1) o)
Step-Settled v w (writes address byte m) (frees, o) = (frees, writes-Owns v frees address byte m o)

-- From a state where the lists are in order, they are in order after any sequence of allocations,
-- frees, refused frees and writes of callers to frames they have: the free list runs through frames
-- that nobody has, no frame has two owners, and both counts are right.
pub Reach-Settled : (start w : World) → Settled start → Reach start w → Settled w
Reach-Settled start w s here = s
Reach-Settled start w s (later before step) = Step-Settled _ w step (Reach-Settled start _ s before)

-- In every state that is reached from one where the lists are in order, no frame has been given out
-- twice, and each frame that a caller has lies in the pool and outside every reservation.
pub Reach-exclusive :
    (start w : World)
    → Settled start
    → Reach start w
    → Distinct w.held
      × All (λ i. (is_reserved w.alloc i ≡ false) × (k : ℕ) × (region_of w.alloc i ≡ some k)) w.held
      × (w.alloc.in_use ≡ length w.held)
Reach-exclusive start w s r =
    let (frees, o) = Reach-Settled start w s r in
    (
      o.held_once,
      All-map _ _ w.held (λ i h. let k = handed_out-region w.alloc i h.0 in (h.1, k.0, k.1))
          o.held_owned,
      o.counted,
    )
