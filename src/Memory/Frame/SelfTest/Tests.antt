-- ===== src/Memory/Frame/SelfTest/Tests.antt =====
-- The theorem on the self-test at a region of sixteen frames that nobody has.
use goatos.Base.{ℕ, ◌≡◌, ◌<◌, ◌⊎◌, refl, none, some, List, [], ◌∷◌, length, arith}
use goatos.Memory.Ram.{Ram}
use goatos.Memory.Frame.{FrameAllocator, no_frame}
use goatos.Memory.Frame.Owners.{Owns}
use goatos.Memory.Frame.Owners.Take.{Exhausted}
use goatos.Memory.Frame.SelfTest.{ran_out, self_test}
use goatos.Memory.Frame.SelfTest.Lists.{onto}
use goatos.Memory.Frame.SelfTest.Passed.{self_test-Passed}

abbrev memory : Ram
memory a = 0

abbrev fresh : FrameAllocator
fresh = record {
  regions = record { start = 16; limit = 32 } ∷ [];
  reservations = [];
  cursor_region = 0;
  cursor_frame = 16;
  free_list = no_frame;
  free_count = 0;
  total = 16;
  in_use = 0;
}

fresh-Owns : Owns memory fresh [] []
fresh-Owns = record {
  fits = (omega arith, tt);
  apart = (tt, tt);
  placed = λ r e. ground (arith, e);
  chain = refl;
  free_counted = refl;
  counted = refl;
  held_owned = tt;
  free_owned = tt;
  held_once = tt;
  free_once = tt;
  lists_apart = tt;
}

self_test-Passed_example :
    (let r = self_test memory fresh in
      (frees' : List ℕ) × (((r.0.failure ≡ none) × (length r.0.frames ≡ 8) × Owns r.1 r.2 [] frees')
        ⊎ ((r.0.failure ≡ some ran_out)
            × (length r.0.frames < 8)
            × Exhausted r.2
            × Owns r.1 r.2 (onto r.0.frames []) [])))
self_test-Passed_example = self_test-Passed memory fresh [] [] fresh-Owns
