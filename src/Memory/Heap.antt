-- ===== src/Memory/Heap.antt =====
-- The kernel heap of kernel/src/memory/heap.rs: a first-fit free list, sorted by address, whose
-- headers stand in the free blocks themselves. Pointers are addresses and null is 0; the memory is a
-- function from addresses to bytes. Sums of addresses and sizes are `usize`, 32 bits wide.
pub mod Blocks
pub mod Chain
pub mod Take
pub mod Fit
pub mod Join
pub mod Insert
pub mod Walk
pub mod Place
pub mod Owners
pub mod Back
pub mod Fitted
pub mod Serve
pub mod Made
pub mod Release
mod Tests
use goatos.Base.{
  ℕ, zero, suc, ◌+◌, ◌-◌, ◌*◌, ◌/◌, ◌%◌, ◌^◌, Bool, true, false, not, ◌&&◌, ◌||◌, Option, none,
  some, ◌==◌, ltb, leb, if◌then◌else◌,
}
use goatos.Memory.Ram.{Ram, read_u32, write_u32}

abbrev pub align : ℕ
align = 8

abbrev pub header_size : ℕ
header_size = 8

pub record Heap : Type 0 where
  pub heap_start : ℕ
  pub heap_end : ℕ
  pub free_list : ℕ
  pub used : ℕ
  pub allocations : ℕ

unfoldable pub empty : Heap
empty = record { heap_start = 1; heap_end = 1; free_list = 0; used = 0; allocations = 0 }

unfoldable pub is_ready : Heap → Bool
is_ready h = ltb h.heap_start h.heap_end

-- The fields of the `FreeBlock` at an address.
unfoldable pub size_of : Ram → ℕ → ℕ
size_of ram block = read_u32 ram block

unfoldable pub next_of : Ram → ℕ → ℕ
next_of ram block = read_u32 ram (block + 4)

unfoldable pub set_size : Ram → ℕ → ℕ → Ram
set_size ram block size = write_u32 ram block size

unfoldable pub set_next : Ram → ℕ → ℕ → Ram
set_next ram block next = write_u32 ram (block + 4) next

unfoldable pub init : Ram → Heap → ℕ → ℕ → Ram × Heap
unfolding set_size set_next
init ram h start size = (
  set_next (set_size ram start size) start 0,
  record {
    heap_start = start;
    heap_end = start + size;
    free_list = start;
    used = 0;
    allocations = 0;
  },
)

-- `(value + mask) & !mask` for a power of two, `none` if the sum does not fit.
unfoldable pub align_up : ℕ → ℕ → Option ℕ
align_up value to =
    if ltb (value + (to - 1)) (2 ^ 32) then some ((value + (to - 1)) / to * to) else none

unfoldable pub aligned_block_size : ℕ → Option ℕ
unfolding align_up
aligned_block_size payload = elim (align_up payload align) [
  | none ↦ none
  | some without_header ↦
      if ltb (without_header + header_size) (2 ^ 32)
      then align_up (without_header + header_size) align
      else none
]

unfoldable pub unlink : Ram → Heap → ℕ → ℕ → Ram × Heap
unfolding set_next
unlink ram h prev new_next =
    if prev == 0 then (ram, record h { free_list = new_next }) else (set_next ram prev new_next, h)

-- The body of the loop in `allocate` once the block at `current` is large enough, in three parts: the
-- split, the header of the block that goes to the caller, and the whole.
unfoldable pub cut : Ram → Heap → ℕ → ℕ → ℕ → ℕ → Ram × Heap
unfolding unlink set_size set_next
cut ram h prev current needed remaining =
    let next = next_of ram current in
    let split = current + needed in
    if leb header_size remaining
    then unlink (set_next (set_size ram split remaining) split next) h prev split
    else unlink ram h prev next

unfoldable pub hand_over : Ram → Heap → ℕ → ℕ → Ram × Heap × ℕ
unfolding set_size set_next
hand_over ram h current total = (
  set_next (set_size ram current total) current 0,
  record h { used = h.used + total; allocations = (h.allocations + 1) % 2 ^ 32 },
  current + header_size,
)

unfoldable pub take_block : Ram → Heap → ℕ → ℕ → ℕ → Ram × Heap × ℕ
take_block ram h prev current needed =
    let remaining = size_of ram current - needed in
    let (ram', h') = cut ram h prev current needed remaining in
    hand_over ram' h' current (if leb header_size remaining then needed else needed + remaining)

-- The loop of `allocate`, on fuel.
unfoldable pub search : ℕ → Ram → Heap → ℕ → ℕ → ℕ → Ram × Heap × ℕ
search zero ram h needed prev current = (ram, h, 0)
search (suc fuel) ram h needed prev current =
    let later = search fuel ram h needed current (next_of ram current) in
    if current == 0
    then (ram, h, 0)
    else if leb needed (size_of ram current)
    then take_block ram h prev current needed
    else later

-- More blocks than the heap has room for; `Blocks` shows that no free list is longer.
unfoldable pub steps : Heap → ℕ
steps h = (h.heap_end - h.heap_start) / header_size + 1

unfoldable pub allocate : Ram → Heap → ℕ → ℕ → Ram × Heap × ℕ
allocate ram h size layout_align =
    if not (is_ready h) || size == 0
    then (ram, h, 0)
    else if ltb align layout_align
    then (ram, h, 0)
    else elim (aligned_block_size size) [
      | none ↦ (ram, h, 0)
      | some needed ↦ search (steps h) ram h needed 0 h.free_list
    ]

-- The loop of `insert_free`, on fuel: the last free block before `block`, and the one after it.
unfoldable pub locate : ℕ → Ram → ℕ → ℕ → ℕ → ℕ × ℕ
locate zero ram block prev current = (prev, current)
locate (suc fuel) ram block prev current =
    let later = locate fuel ram block current (next_of ram current) in
    if not (current == 0) && ltb current block then later else (prev, current)

unfoldable pub merge_following : Ram → ℕ → ℕ → Ram
unfolding set_size set_next
merge_following ram block current =
    if not (current == 0) && (block + size_of ram block == current)
    then (let ram' = set_size ram block (size_of ram block + size_of ram current) in
        set_next ram' block (next_of ram' current))
    else ram

unfoldable pub merge_previous : Ram → ℕ → ℕ → Ram
unfolding set_size set_next
merge_previous ram prev block =
    if not (prev == 0) && (prev + size_of ram prev == block)
    then (let ram' = set_size ram prev (size_of ram prev + size_of ram block) in
        set_next ram' prev (next_of ram' block))
    else ram

-- What `insert_free` does between `prev` and `current`.
unfoldable pub splice : Ram → Heap → ℕ → ℕ → ℕ → Ram × Heap
splice ram h block prev current =
    let (ram', h') = unlink (set_next ram block current) h prev block in
    (merge_previous (merge_following ram' block current) prev block, h')

unfoldable pub insert_free : Ram → Heap → ℕ → ℕ → Ram × Heap
insert_free ram h block size =
    let ram' = set_next (set_size ram block size) block 0 in
    let (prev, current) = locate (steps h) ram' block 0 h.free_list in
    splice ram' h block prev current

unfoldable pub deallocate : Ram → Heap → ℕ → Ram × Heap
deallocate ram h ptr =
    let block = (ptr + 2 ^ 32 - header_size) % 2 ^ 32 in
    let size = size_of ram block in
    if ptr == 0 || not (is_ready h)
    then (ram, h)
    else if ltb block h.heap_start || leb h.heap_end block
    then (ram, h)
    else if ltb size header_size || ltb h.heap_end ((block + size) % 2 ^ 32)
    then (ram, h)
    else insert_free ram (record h { used = h.used - size }) block size
