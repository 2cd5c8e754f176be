-- ===== src/Memory/Layout.antt =====
-- The boot-time check of the address layout in kernel/src/memory/layout.rs. The addresses of the
-- linker's symbols, the heap's report and the answer of `paging::is_present` are arguments.
pub mod Sound
mod Tests
use Prim.Native.String.{String}
use goatos.Base.{
  ℕ, ◌+◌, ◌-◌, ◌*◌, min, ◌^◌, Bool, true, false, not, ◌&&◌, ◌||◌, Option, none, some, List, [], ◌∷◌,
  ◌==◌, ltb, leb, if◌then◌else◌,
}

abbrev pub kernel_stack_size : ℕ
kernel_stack_size = 64 * 1024

abbrev pub double_fault_stack_size : ℕ
double_fault_stack_size = 4096

abbrev pub guard_page_size : ℕ
guard_page_size = 4096

-- `HEAP_SIZE` of the heap
abbrev pub heap_size : ℕ
heap_size = 1024 * 1024

pub record Range : Type 0 where
  pub start : ℕ
  pub limit : ℕ

unfoldable pub len : Range → ℕ
len r = r.limit - r.start

unfoldable pub is_empty : Range → Bool
is_empty r = leb r.limit r.start

unfoldable pub overlaps : Range → Range → Bool
unfolding is_empty
overlaps r s =
    if is_empty r || is_empty s then false else ltb r.start s.limit && ltb s.start r.limit

unfoldable pub contains_range : Range → Range → Bool
unfolding is_empty
contains_range r s = not (is_empty s) && (leb r.start s.start && leb s.limit r.limit)

pub record Report : Type 0 where
  pub kernel_image : Range
  pub kernel_stack : Range
  pub double_fault_stack : Range
  pub guard_page : Range
  pub heap : Range
  pub failure : Option String

-- The heap's report: its first byte and size, and whether it is ready.
pub record HeapReport : Type 0 where
  pub start : ℕ
  pub size : ℕ
  pub ready : Bool

-- Tests in order, each with the reason to report if it holds: the first that holds.
unfoldable pub first_failure : List (Bool × String) → Option String
first_failure [] = none
first_failure ((fails, reason) ∷ rest) =
    let later = first_failure rest in if fails then some reason else later

unfoldable pub stack_tests : Range → Range → Range → Range → Bool → List (Bool × String)
unfolding len overlaps contains_range
stack_tests image stack fault guard guard_present =
    (not (len stack == kernel_stack_size), "kernel stack size does not match KERNEL_STACK_SIZE")
    ∷ (
      not (len fault == double_fault_stack_size),
      "double-fault stack size does not match DOUBLE_FAULT_STACK_SIZE",
    )
    ∷ (not (len guard == guard_page_size), "guard page size does not match GUARD_PAGE_SIZE")
    ∷ (not (contains_range image stack), "kernel stack is outside the kernel image")
    ∷ (not (contains_range image fault), "double-fault stack is outside the kernel image")
    ∷ (not (contains_range image guard), "guard page is outside the kernel image")
    ∷ (
      not (fault.limit == guard.start),
      "double-fault stack is not immediately below the guard page",
    )
    ∷ (not (guard.limit == stack.start), "guard page is not immediately below the kernel stack")
    ∷ (overlaps stack fault, "kernel stack and double-fault stack overlap")
    ∷ (overlaps stack guard || overlaps fault guard, "guard page overlaps a stack")
    ∷ (guard_present, "stack guard page is still mapped")
    ∷ []

unfoldable pub heap_tests : Range → Range → Range → Range → Range → List (Bool × String)
unfolding len overlaps
heap_tests image stack fault guard heap =
    (not (len heap == heap_size), "heap size does not match HEAP_SIZE")
    ∷ (overlaps image heap, "heap overlaps the kernel image (and therefore a stack)")
    ∷ (overlaps stack heap, "kernel stack and heap overlap")
    ∷ (overlaps fault heap, "double-fault stack and heap overlap")
    ∷ (overlaps guard heap, "guard page and heap overlap")
    ∷ []

-- The end of the heap is a sum that saturates.
unfoldable pub heap_range_of : HeapReport → Range
heap_range_of h =
    if h.ready
    then record { start = h.start; limit = min (h.start + h.size) (2 ^ 32 - 1) }
    else record { start = 0; limit = 0 }

unfoldable pub check : Range → Range → Range → ℕ → (ℕ → Bool) → HeapReport → Report
unfolding heap_range_of first_failure stack_tests heap_tests
check image stack fault guard_start is_present h =
    let guard : Range = record { start = guard_start; limit = guard_start + guard_page_size } in
    let heap = heap_range_of h in
    record {
      kernel_image = image;
      kernel_stack = stack;
      double_fault_stack = fault;
      guard_page = guard;
      heap = heap;
      failure =
          elim (first_failure (stack_tests image stack fault guard (is_present guard_start))) [
            | some reason ↦ some reason
            | none ↦
                if h.ready then first_failure (heap_tests image stack fault guard heap) else none
          ];
    }
