-- ===== src/Memory/Layout/Tests.antt =====
-- The layout of an image with its stacks, and the theorem about the check there.
use goatos.Base.{◌≡◌, ◌↔◌, true, false, none}
use goatos.Memory.Layout.{Range, HeapReport, heap_range_of, check}
use goatos.Memory.Layout.Sound.{Stacked, Aside, check-Sound}

abbrev image : Range
image = record { start = 0x8000; limit = 0x40000 }

abbrev stack : Range
stack = record { start = 0x22000; limit = 0x32000 }

abbrev fault : Range
fault = record { start = 0x20000; limit = 0x21000 }

abbrev heap : HeapReport
heap = record { start = 0x100000; size = 0x100000; ready = true }

check-Sound_example :
    ((check image stack fault 0x21000 (λ a. false) heap).failure ≡ none)
    ↔ (Stacked image stack fault 0x21000 false × (true ≡ true → Aside image (heap_range_of heap)))
check-Sound_example = check-Sound image stack fault 0x21000 (λ a. false) heap
