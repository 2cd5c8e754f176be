-- ===== src/Memory/Paging/Tests.antt =====
-- The theorem on paging at a machine with two regions of memory.
use goatos.Base.{◌⊎◌, ◌≡◌, false, true, [], ◌∷◌, arith, refl}
use goatos.Memory.Ram.{Ram}
use goatos.Memory.Map.{MemoryMap, usable, end_of, is_usable}
use goatos.Memory.Frame.{FrameAllocator, new}
use goatos.Memory.Frame.Fresh.{new-Owns}
use goatos.Memory.Paging.{Cpu, init, identity_map_end, highest_usable}
use goatos.Memory.Paging.Install.{Failed, Installed, init-Installed}

abbrev two_regions : MemoryMap
two_regions = record {
  regions =
      record { base = 0; size = 0xa0000; kind = usable }
      ∷ record { base = 0x100000; size = 0x100000; kind = usable }
      ∷ [];
  reported = 2;
  available = true;
}

abbrev zero_ram : Ram
zero_ram y = 0

abbrev pool : FrameAllocator
pool = new 0x8000 0x20000 two_regions

abbrev reset_cpu : Cpu
reset_cpu = record { cr3 = 0; paging = false; main_cr3 = 0; double_fault_cr3 = 0 }

-- One table of 4 MiB covers the two regions.
identity_map_end_run : identity_map_end two_regions ≡ 0x400000
unfolding identity_map_end highest_usable is_usable end_of
identity_map_end_run = refl

init-Installed_example :
    Failed reset_cpu two_regions (init zero_ram pool reset_cpu two_regions 0x10000)
    ⊎ Installed zero_ram two_regions 0x10000 [] (init zero_ram pool reset_cpu two_regions 0x10000)
unfolding end_of
init-Installed_example =
    init-Installed zero_ram pool reset_cpu two_regions 0x10000 [] []
      (new-Owns zero_ram 0x8000 0x20000 two_regions (ground arith)) (omega arith) (omega arith)
