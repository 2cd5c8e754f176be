-- ===== src/Memory/Frame/Ops.antt =====
-- The operations of the frame allocator. Those that read or write a free frame's link take the
-- memory; `allocate` and `allocate_contiguous` advance the bump cursor in a loop on fuel, each round
-- of which is a function of its own.
use goatos.Base.{
  ℕ, zero, suc, ◌+◌, ◌-◌, ◌^◌, min, Bool, true, false, not, ◌||◌, Option, none, some, List, [], ◌∷◌,
  ◌==◌, ltb, leb, if◌then◌else◌, get_elem?,
}
use goatos.Memory.Ram.{Ram, read_u32, write_u32}
use goatos.Memory.Frame.{
  FrameAllocator, FrameRange, FreeError, not_managed, never_allocated, already_free, no_frame,
  start_address, is_reserved, region_of, handed_out,
}

-- The address of the word in a free frame that links to the next.
abbrev pub link_of : ℕ → ℕ
link_of = start_address

unfoldable pub push_free : Ram → FrameAllocator → ℕ → Ram × FrameAllocator
push_free ram a index = (
  write_u32 ram (link_of index) a.free_list,
  record a { free_list = index; free_count = a.free_count + 1 },
)

unfoldable pub pop_free : Ram → FrameAllocator → Option ℕ × FrameAllocator
pop_free ram a = if a.free_list == no_frame then (none, a) else (
  some a.free_list,
  record a { free_list = read_u32 ram (link_of a.free_list); free_count = a.free_count - 1 },
)

-- The walk of `on_free_list` from `current`, with `left` steps to go.
unfoldable pub walk : Ram → ℕ → ℕ → ℕ → Bool
walk ram index current zero = false
walk ram index current (suc left) =
    let rest = walk ram index (read_u32 ram (link_of current)) left in
    if current == no_frame then false else if current == index then true else rest

unfoldable pub on_free_list : Ram → FrameAllocator → ℕ → Bool
unfolding walk
on_free_list ram a index = walk ram index a.free_list a.free_count

-- What one round of a `while` loop over the cursor does.
pub data Round : Type 0 where
  stop : Round
  again : FrameAllocator → Round
  found : ℕ → FrameAllocator → Round

-- To the start of the next region, if there is one.
unfoldable pub advance : FrameAllocator → FrameAllocator
advance a = record a {
  cursor_region = a.cursor_region + 1;
  cursor_frame = elim (get_elem? a.regions (a.cursor_region + 1)) [
    | none ↦ a.cursor_frame
    | some region ↦ region.start
  ];
}

-- The body of the loop in `allocate`, in the region under the cursor.
unfoldable pub bump_in : FrameAllocator → FrameRange → Round
unfolding advance
bump_in a region =
    if leb region.limit a.cursor_frame
    then again (advance a)
    else if is_reserved a a.cursor_frame
    then again (record a { cursor_frame = a.cursor_frame + 1 })
    else found a.cursor_frame
        (record a { cursor_frame = a.cursor_frame + 1; in_use = a.in_use + 1 })

-- The loop's test, `cursor_region < region_count`, is that there is a region under the cursor.
unfoldable pub bump_round : FrameAllocator → Round
unfolding bump_in
bump_round a = elim (get_elem? a.regions a.cursor_region) [
  | none ↦ stop
  | some region ↦ bump_in a region
]

-- `(start..start + left).find(|&i| self.is_reserved(i))`
unfoldable pub find_reserved : FrameAllocator → ℕ → ℕ → Option ℕ
find_reserved a index zero = none
find_reserved a index (suc left) =
    let rest = find_reserved a (index + 1) left in if is_reserved a index then some index else rest

-- The body of the loop in `allocate_contiguous`.
unfoldable pub run_in : ℕ → FrameAllocator → FrameRange → Round
unfolding advance
run_in count a region =
    let start = a.cursor_frame in
    if leb region.limit start
    then again (advance a)
    else if is_reserved a start
    then again (record a { cursor_frame = start + 1 })
    else if ltb region.limit (min (start + count) (2 ^ 32 - 1))
    then again (advance a)
    else elim (find_reserved a start count) [
      | some reserved ↦ again (record a { cursor_frame = reserved + 1 })
      | none ↦ found start (record a { cursor_frame = start + count; in_use = a.in_use + count })
    ]

unfoldable pub run_round : ℕ → FrameAllocator → Round
unfolding run_in
run_round count a = elim (get_elem? a.regions a.cursor_region) [
  | none ↦ stop
  | some region ↦ run_in count a region
]

-- A loop on fuel; `Cursor.scan-Scanned` shows that `work` rounds are enough.
unfoldable pub scan : (FrameAllocator → Round) → ℕ → FrameAllocator → Option ℕ × FrameAllocator
scan round zero a = (none, a)
scan round (suc fuel) a = elim (round a) [
  | stop ↦ (none, a)
  | again b ↦ scan round fuel b
  | found index b ↦ (some index, b)
]

-- The rounds that a loop can take over these regions: one for each frame and one for each region.
unfoldable pub rounds_in : List FrameRange → ℕ
rounds_in [] = 0
rounds_in (r ∷ rs) = (r.limit - r.start) + 1 + rounds_in rs

-- The rounds from the frame `frame` of the region number `region` on.
unfoldable pub rounds_from : List FrameRange → ℕ → ℕ → ℕ
unfolding rounds_in
rounds_from [] region frame = 0
rounds_from (r ∷ rs) zero frame = (r.limit - frame) + 1 + rounds_in rs
rounds_from (r ∷ rs) (suc region) frame = rounds_from rs region frame

unfoldable pub work : FrameAllocator → ℕ
unfolding rounds_from
work a = rounds_from a.regions a.cursor_region a.cursor_frame

-- The rest of `allocate`, with what `pop_free` has returned.
unfoldable pub after_pop : Option ℕ → FrameAllocator → Option ℕ × FrameAllocator
after_pop (some index) a = (some index, record a { in_use = a.in_use + 1 })
after_pop none a = scan bump_round (suc (work a)) a

unfoldable pub allocate : Ram → FrameAllocator → Option ℕ × FrameAllocator
unfolding after_pop
allocate ram a = let (frame, b) = pop_free ram a in after_pop frame b

unfoldable pub allocate_contiguous : FrameAllocator → ℕ → Option ℕ × FrameAllocator
allocate_contiguous a count =
    if count == 0 then (none, a) else scan (run_round count) (suc (work a)) a

pub data FreeResult : Type 0 where
  freed : FreeResult
  refused : FreeError → FreeResult

unfoldable pub is_none {ℓ} : {A : Type ℓ} → Option A → Bool
is_none none = true
is_none (some a) = false

unfoldable pub free : Ram → FrameAllocator → ℕ → FreeResult × Ram × FrameAllocator
unfolding is_none
free ram a index =
    if is_none (region_of a index) || is_reserved a index
    then (refused not_managed, ram, a)
    else if not (handed_out a index)
    then (refused never_allocated, ram, a)
    else if on_free_list ram a index
    then (refused already_free, ram, a)
    else (let (ram', b) = push_free ram a index in
        (freed, ram', record b { in_use = b.in_use - 1 }))
