-- ===== src/Memory/Heap/Tests.antt =====
-- The theorems on the kernel heap at a heap of 64 bytes.
use goatos.Base.{◌-◌, ◌≡◌, ◌⊎◌, inl, refl, List, [], ◌∷◌, arith}
use goatos.Memory.Ram.{Ram, read_u32, write_u32}
use goatos.Memory.Heap.{
  Heap, header_size, size_of, next_of, empty, init, allocate, deallocate, aligned_block_size,
}
use goatos.Memory.Heap.Blocks.{Block, insert, total}
use goatos.Memory.Heap.Owners.{Owned, init-Owned}
use goatos.Memory.Heap.Serve.{Refused, Granted, allocate-Owned}
use goatos.Memory.Heap.Release.{deallocate-Owned, allocate-deallocate, deallocate-whole}

abbrev zero_ram : Ram
zero_ram y = 0

abbrev whole : List Block
whole = record { start = 16; size = 64 } ∷ []

-- A fresh heap.
abbrev fresh : Ram × Heap
fresh = init zero_ram empty 16 64

allocate-Owned_example :
    Refused fresh.0 fresh.1 20 whole (allocate fresh.0 fresh.1 20 4)
    ⊎ Granted fresh.0 fresh.1 20 [] whole (allocate fresh.0 fresh.1 20 4)
allocate-Owned_example =
    allocate-Owned fresh.0 fresh.1 [] whole 20 4
      (init-Owned zero_ram empty 16 64 (omega arith) (omega arith) (omega arith) (omega arith)
        (omega arith))
      (omega arith) (omega arith)

allocate-deallocate_example :
    Refused fresh.0 fresh.1 20 whole (allocate fresh.0 fresh.1 20 4)
    ⊎ (Owned
          (deallocate
            (allocate fresh.0 fresh.1 20 4).0
            (allocate fresh.0 fresh.1 20 4).1
            (allocate fresh.0 fresh.1 20 4).2).0
          (deallocate
            (allocate fresh.0 fresh.1 20 4).0
            (allocate fresh.0 fresh.1 20 4).1
            (allocate fresh.0 fresh.1 20 4).2).1
          []
          whole
        × Unit {0})
allocate-deallocate_example =
    allocate-deallocate fresh.0 fresh.1 [] whole 20 4
      (init-Owned zero_ram empty 16 64 (omega arith) (omega arith) (omega arith) (omega arith)
        (omega arith))
      (omega arith) (omega arith)

-- The same request, run: 20 bytes take a block of 32 and get the address behind its header.
allocate_run : (allocate fresh.0 fresh.1 20 4).2 ≡ 24
unfolding allocate init goatos.Memory.Heap.search goatos.Memory.Heap.take_block
    goatos.Memory.Heap.steps aligned_block_size goatos.Memory.Heap.is_ready
    goatos.Memory.Heap.hand_over goatos.Memory.Heap.cut size_of read_u32 write_u32
allocate_run = refl

-- A heap with the first of its two blocks handed out.
abbrev half_ram : Ram
half_ram = write_u32 (write_u32 (write_u32 zero_ram 16 32) 48 32) 52 0

abbrev half_heap : Heap
half_heap = record { heap_start = 16; heap_end = 80; free_list = 48; used = 32; allocations = 1 }

abbrev given : Block
given = record { start = 16; size = 32 }

abbrev left : List Block
left = record { start = 48; size = 32 } ∷ []

half : Owned half_ram half_heap (given ∷ []) left
unfolding size_of next_of read_u32 write_u32 total
half = record {
  chain = (refl, refl, refl);
  spaced = (omega arith, omega arith, tt);
  within = (omega arith, tt);
  base = omega arith;
  ready = omega arith;
  words = omega arith;
  lives = (
    record {
      above = omega arith;
      below = omega arith;
      large = omega arith;
      header = refl;
      apart = (inl (omega arith), tt);
    },
    tt,
  );
  pairwise = (tt, tt);
  free_aligned = ((omega arith, omega arith), tt);
  live_aligned = ((omega arith, omega arith), tt);
  counted = refl;
  complete = omega arith;
}

deallocate-Owned_example :
    Owned
      (deallocate half_ram half_heap 24).0
      (deallocate half_ram half_heap 24).1
      []
      (insert left given)
    × Unit {0}
deallocate-Owned_example =
    deallocate-Owned half_ram half_heap (given ∷ []) left [] given half (inl (refl, refl))

deallocate-whole_example :
    ((deallocate half_ram half_heap 24).1.free_list
      ≡ (deallocate half_ram half_heap 24).1.heap_start)
    × (size_of (deallocate half_ram half_heap 24).0 (deallocate half_ram half_heap 24).1.heap_start
        ≡ (deallocate half_ram half_heap 24).1.heap_end
          - (deallocate half_ram half_heap 24).1.heap_start)
    × (next_of (deallocate half_ram half_heap 24).0 (deallocate half_ram half_heap 24).1.heap_start
        ≡ 0)
    × ((deallocate half_ram half_heap 24).1.used ≡ 0)
deallocate-whole_example = deallocate-whole half_ram half_heap left given half
