-- ===== src/Memory/Paging.antt =====
-- Paging, kernel/src/memory/paging.rs: the identity map that `init` builds in frames of the frame
-- allocator, with a hole at the stack's guard page. The control registers and the directory that the
-- two task state segments name are a state of their own.
pub mod Entries
pub mod Build
pub mod Rounds
pub mod Identity
pub mod Extent
pub mod Install
mod Tests
use goatos.Base.{
  ℕ, zero, suc, ◌+◌, ◌-◌, ◌*◌, ◌/◌, ◌%◌, ◌^◌, min, max, bit_and, bit_or, Bool, true, false, not,
  ◌&&◌, Option, none, some, List, [], ◌∷◌, ◌==◌, ltb, leb, if◌then◌else◌,
}
use goatos.Memory.Ram.{Ram, read_u32, write_u32}
use goatos.Memory.Map.{Region, MemoryMap, is_usable, end_of}
use goatos.Memory.Frame.{FrameAllocator, frame_size, start_address, containing_address}
use goatos.Memory.Frame.Ops.{allocate}

abbrev pub present : ℕ
present = 1

abbrev pub writable : ℕ
writable = 2

-- `PRESENT | WRITABLE`
abbrev pub kernel_page : ℕ
kernel_page = 3

abbrev pub entries : ℕ
entries = 1024

abbrev pub bytes_per_directory_entry : ℕ
bytes_per_directory_entry = 4194304

-- CR3, bit PG of CR0, and CR3 in the two task state segments.
pub record Cpu : Type 0 where
  pub cr3 : ℕ
  pub paging : Bool
  pub main_cr3 : ℕ
  pub double_fault_cr3 : ℕ

pub record Report : Type 0 where
  pub cr3 : ℕ
  pub mapped_end : ℕ
  pub page_tables : ℕ
  pub paging_enabled : Bool
  pub stack_guard : ℕ

abbrev pub failed : Report
failed = record {
  cr3 = 0;
  mapped_end = 0;
  page_tables = 0;
  paging_enabled = false;
  stack_guard = 0;
}

-- The loop of `identity_map_end`: the highest end of a usable region, cut off at 4 GiB.
unfoldable pub highest_usable : ℕ → List Region → ℕ
highest_usable end [] = end
highest_usable end (r ∷ rs) =
    highest_usable (if is_usable r then max end (min (end_of r) (2 ^ 32)) else end) rs

unfoldable pub identity_map_end : MemoryMap → ℕ
identity_map_end map =
    let end = highest_usable 0 map.regions in
    if end == 0
    then 0
    else min
        ((end + (bytes_per_directory_entry - 1))
          / bytes_per_directory_entry
          * bytes_per_directory_entry)
        (2 ^ 32 - bytes_per_directory_entry)

-- `ptr::write_bytes` with zeros over a frame.
unfoldable pub clear_frame : Ram → ℕ → Ram
clear_frame ram frame y =
    if leb (start_address frame) y && ltb y (start_address frame + frame_size) then 0 else ram y

-- A frame of the allocator, if it has one, wiped.
unfoldable pub wiped : Ram → Option ℕ × FrameAllocator → Option ℕ × Ram × FrameAllocator
wiped ram (none, a) = (none, ram, a)
wiped ram (some frame, a) = (some frame, clear_frame ram frame, a)

unfoldable pub allocate_zeroed_frame : Ram → FrameAllocator → Option ℕ × Ram × FrameAllocator
allocate_zeroed_frame ram a = wiped ram (allocate ram a)

unfoldable pub write_entry : Ram → ℕ → ℕ → ℕ → Ram
write_entry ram table index value = write_u32 ram (start_address table + index * 4) value

unfoldable pub read_entry : Ram → ℕ → ℕ → ℕ
read_entry ram table index = read_u32 ram (start_address table + index * 4)

-- The inner loop of `init`, with `left` pages to go: every page but the guard.
unfoldable pub fill_table : ℕ → Ram → ℕ → ℕ → ℕ → ℕ → Ram
fill_table zero ram table base stack_guard page_index = ram
fill_table (suc left) ram table base stack_guard page_index =
    let phys = base + page_index * frame_size in
    fill_table left
      (if phys == stack_guard
        then ram
        else write_entry ram table page_index (bit_or phys kernel_page))
      table base stack_guard (page_index + 1)

-- One page table, filled and hung off the directory.
unfoldable pub hang_table : Ram → ℕ → ℕ → ℕ → ℕ → Ram
hang_table ram directory stack_guard table_index table =
    write_entry
      (fill_table entries ram table (table_index * bytes_per_directory_entry) stack_guard 0)
      directory table_index (bit_or (start_address table) kernel_page)

-- The outer loop of `init`, with `left` tables to go: whether there were frames enough.
unfoldable pub build_tables : ℕ → Ram → FrameAllocator → ℕ → ℕ → ℕ → Bool × Ram × FrameAllocator
build_tables zero ram a directory stack_guard table_index = (true, ram, a)
build_tables (suc left) ram a directory stack_guard table_index =
    let (frame, ram', a') = allocate_zeroed_frame ram a in
    elim frame [
      | none ↦ (false, ram', a')
      | some table ↦
          build_tables left (hang_table ram' directory stack_guard table_index table) a' directory
            stack_guard (table_index + 1)
    ]

-- `tss::set_page_directory`
unfoldable pub set_page_directory : Cpu → ℕ → Cpu
set_page_directory cpu cr3 = record cpu { main_cr3 = cr3; double_fault_cr3 = cr3 }

unfoldable pub enable : Cpu → ℕ → Cpu
enable cpu page_directory = record cpu { cr3 = page_directory; paging = true }

-- `pde & !(FRAME_SIZE - 1)` is the multiple of the frame size below the entry.
unfoldable pub is_present : Ram → Cpu → ℕ → Bool
unfolding containing_address
is_present ram cpu virt =
    let pde = read_entry ram (containing_address cpu.cr3) (virt / bytes_per_directory_entry) in
    let table = containing_address (pde / frame_size * frame_size) in
    let pte = read_entry ram table (virt % bytes_per_directory_entry / frame_size) in
    if cpu.cr3 == 0
    then false
    else if bit_and pde present == 0
    then false
    else not (bit_and pte present == 0)

-- The end of `init`, once the tables stand: the registers, and the report on what they say.
unfoldable pub switch_on : Ram → Cpu → ℕ → ℕ → ℕ → Report × Cpu
unfolding set_page_directory enable
switch_on ram cpu mapped_end stack_guard cr3 =
    let cpu' = enable (set_page_directory cpu cr3) cr3 in
    let guard_unmapped = not (is_present ram cpu' stack_guard) in
    (
      record {
        cr3 = cpu'.cr3;
        mapped_end = mapped_end;
        page_tables = mapped_end / bytes_per_directory_entry;
        paging_enabled = cpu'.paging && (cpu'.cr3 == cr3) && guard_unmapped;
        stack_guard = if guard_unmapped then stack_guard else 0;
      },
      cpu',
    )

unfoldable pub init :
    Ram → FrameAllocator → Cpu → MemoryMap → ℕ → Report × Ram × FrameAllocator × Cpu
init ram a cpu map stack_guard =
    let mapped_end = identity_map_end map in
    let (frame, ram', a') = allocate_zeroed_frame ram a in
    if mapped_end == 0 then (failed, ram, a, cpu) else elim frame [
      | none ↦ (failed, ram', a', cpu)
      | some directory ↦
          let (built, ram2, a2) =
            build_tables (mapped_end / bytes_per_directory_entry) ram' a' directory stack_guard 0 in
          let (report, cpu2) =
            switch_on ram2 cpu mapped_end stack_guard (start_address directory) in
          if built then (report, ram2, a2, cpu2) else (failed, ram2, a2, cpu)
    ]
