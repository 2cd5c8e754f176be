-- ===== src/Memory/Layout/Sound.antt =====
-- What the check decides, in terms of addresses.
use Prim.Native.String.{String}
use goatos.Base.{
  ℕ, ◌+◌, ◌≤◌, ◌≡◌, ◌↔◌, ◌⊎◌, refl, Bool, true, false, Option, none, some, List, [], ◌∷◌,
  if◌then◌else◌, arith, All,
}
use goatos.Memory.Layout.{
  Range, HeapReport, kernel_stack_size, double_fault_stack_size, guard_page_size, heap_size, len,
  is_empty, overlaps, contains_range, first_failure, stack_tests, heap_tests, heap_range_of, check,
}

-- From low to high addresses: the double-fault stack, the guard page and the kernel stack, side by
-- side in the kernel image and of the right sizes, and the guard page is not mapped.
abbrev pub Stacked : Range → Range → Range → ℕ → Bool → Type 0
Stacked image stack fault guard_start guard_present =
    (image.start ≤ fault.start)
    × (fault.limit ≡ fault.start + double_fault_stack_size)
    × (guard_start ≡ fault.limit)
    × (stack.start ≡ guard_start + guard_page_size)
    × (stack.limit ≡ stack.start + kernel_stack_size)
    × (stack.limit ≤ image.limit)
    × (guard_present ≡ false)

-- The heap has its size and shares no byte with the kernel image.
abbrev pub Aside : Range → Range → Type 0
Aside image heap =
    (heap.limit ≡ heap.start + heap_size)
    × ((heap.limit ≤ image.start) ⊎ (image.limit ≤ heap.start))

first_failure-none :
    (ts : List (Bool × String)) → (first_failure ts ≡ none) ↔ All (λ t. t.0 ≡ false) ts
unfolding first_failure
first_failure-none [] = (λ h. tt, λ h. refl)
first_failure-none ((b, reason) ∷ ts) =
    let rest = first_failure-none ts in
    (λ h. ground (arith, h, rest.0), λ h. ground (arith, h, rest.1))

stack_tests-Stacked :
    (image stack fault : Range) (guard_start : ℕ) (p : Bool)
    → All
        (λ t. t.0 ≡ false)
        (stack_tests image stack fault
          (record { start = guard_start; limit = guard_start + guard_page_size })
          p)
      ↔ Stacked image stack fault guard_start p
unfolding stack_tests len overlaps contains_range is_empty
stack_tests-Stacked image stack fault guard_start p =
    (λ h. ground (arith, h), λ h. ground (arith, h))

heap_tests-Aside :
    (image stack fault heap : Range) (guard_start : ℕ) (p : Bool)
    → Stacked image stack fault guard_start p
    → All
        (λ t. t.0 ≡ false)
        (heap_tests image stack fault
          (record { start = guard_start; limit = guard_start + guard_page_size })
          heap)
      ↔ Aside image heap
unfolding heap_tests len overlaps is_empty
heap_tests-Aside image stack fault heap guard_start p s =
    (λ h. ground (arith, h), λ h. ground (arith, h))

both-none :
    (S A : Type 0) (a : Option String) (ready : Bool) (b : Option String)
    → (a ≡ none) ↔ S
    → (S → (b ≡ none) ↔ A)
    → ((elim a [ some reason ↦ some reason | none ↦ if ready then b else none ]) ≡ none)
      ↔ (S × (ready ≡ true → A))
both-none S A (some r) ready b p q = (λ h. ground (arith, h), λ h. ground (arith, p.1 h.0))
both-none S A none false b p q = (λ h. (p.0 refl, λ t. ground (arith, t)), λ h. refl)
both-none S A none true b p q =
    (λ h. (p.0 refl, λ t. (q (p.0 refl)).0 h), λ h. (q h.0).1 (h.1 refl))

-- The check reports no failure exactly if the double-fault stack, the unmapped guard page and the
-- kernel stack lie side by side in the kernel image with their sizes, and the heap, where it is
-- ready, has its size and lies outside the kernel image.
pub check-Sound :
    (image stack fault : Range) (guard_start : ℕ) (is_present : ℕ → Bool) (h : HeapReport)
    → ((check image stack fault guard_start is_present h).failure ≡ none) ↔ (
        Stacked image stack fault guard_start (is_present guard_start)
        × (h.ready ≡ true → Aside image (heap_range_of h)))
unfolding check
check-Sound image stack fault guard_start is_present h =
    let p = is_present guard_start in
    let guard : Range = record { start = guard_start; limit = guard_start + guard_page_size } in
    let tests = first_failure-none (stack_tests image stack fault guard p) in
    let more = first_failure-none (heap_tests image stack fault guard (heap_range_of h)) in
    let stacks = stack_tests-Stacked image stack fault guard_start p in
    let beside = heap_tests-Aside image stack fault (heap_range_of h) guard_start p in
    both-none (Stacked image stack fault guard_start p) (Aside image (heap_range_of h)) _ h.ready _
      (λ e. stacks.0 (tests.0 e), λ s. tests.1 (stacks.1 s))
      (λ s. (λ e. (beside s).0 (more.0 e), λ a. more.1 ((beside s).1 a)))
