-- ===== src/Memory/Paging/Install.antt =====
-- The whole of `init`: the end of the map, the directory and its tables, and the switch to paging.
use goatos.Base.{
  ℕ, ◌-◌, ◌*◌, ◌/◌, ◌%◌, ◌^◌, ◌≤◌, ◌<◌, ◌≡◌, ◌≢◌, ◌⊎◌, inl, inr, refl, sym, ap, ◌∙◌, subst, min,
  Bool, true, false, Option, none, some, List, ◌∷◌, ◌==◌, if◌then◌else◌, arith, Bool-cases, All,
}
use goatos.Memory.Ram.{Ram}
use goatos.Memory.Map.{MemoryMap, is_usable, end_of}
use goatos.Memory.Frame.{FrameAllocator, frame_size, max_frame_index, start_address}
use goatos.Memory.Frame.Ops.{allocate}
use goatos.Memory.Frame.Chain.{member, member-All}
use goatos.Memory.Frame.Owners.{Owns, Owned-lt}
use goatos.Memory.Frame.Owners.Take.{Allocated, Exhausted, allocate-Allocated}
use goatos.Memory.Paging.{
  Cpu, Report, failed, entries, bytes_per_directory_entry, identity_map_end, clear_frame,
  build_tables, is_present, switch_on, init,
}
use goatos.Memory.Paging.Entries.{Inside, Inside-Beside, clear_frame-frame, read_entry-clear_frame}
use goatos.Memory.Paging.Build.{Partial, Owns-kept}
use goatos.Memory.Paging.Rounds.{Tables, build-Tables, zeroed-none, zeroed-some}
use goatos.Memory.Paging.Identity.{walk_tables, mapped, walk_tables-Partial, is_present-Partial}
use goatos.Memory.Paging.Extent.{identity_map_end-tables, identity_map_end-covers}

-- `init` has failed: nothing is switched on, and there is no usable memory or no frame left.
abbrev pub Failed : Cpu → MemoryMap → Report × Ram × FrameAllocator × Cpu → Type 0
Failed cpu map r = (r.0 ≡ failed) × ((r.3 ≡ cpu) × ((identity_map_end map ≡ 0) ⊎ Exhausted r.2))

-- `init` has switched paging on.
pub record Installed (ram : Ram) (map : MemoryMap) (stack_guard : ℕ) (held : List ℕ)
    (r : Report × Ram × FrameAllocator × Cpu) : Type 0 where
  pub held_now : List ℕ
  pub free_now : List ℕ
  pub owns : Owns r.1 r.2 held_now free_now
  pub still_held : (x : ℕ) → member x held ≡ true → member x held_now ≡ true
  pub kept : (x y : ℕ) → member x held ≡ true → Inside y x → r.1 y ≡ ram y
  pub covers :
      All
        (λ g.
          is_usable g ≡ true
          → min (end_of g) (2 ^ 32 - bytes_per_directory_entry) ≤ identity_map_end map)
        map.regions
  pub paging : r.3.paging ≡ true
  pub task_segments : (r.3.main_cr3 ≡ r.3.cr3) × (r.3.double_fault_cr3 ≡ r.3.cr3)
  pub identity :
      (virt : ℕ)
      → virt < 2 ^ 32
      → walk_tables r.1 r.3.cr3 virt
        ≡ (if mapped (identity_map_end map) stack_guard virt then some virt else none)
  pub checked :
      r.3.cr3 ≢ 0
      → (virt : ℕ) → virt < 2 ^ 32
      → is_present r.1 r.3 virt ≡ mapped (identity_map_end map) stack_guard virt
  pub reported :
      r.3.cr3 ≢ 0
      → (r.0.mapped_end ≡ identity_map_end map)
        × ((r.0.paging_enabled ≡ true) × (r.0.stack_guard ≡ stack_guard))

-- The guard page is a hole.
mapped-guard :
    (end stack_guard : ℕ)
    → stack_guard % frame_size ≡ 0
    → mapped end stack_guard stack_guard ≡ false
unfolding mapped
mapped-guard end stack_guard even = ground (arith, even)

module _ (cpu : Cpu) (map : MemoryMap) (stack_guard : ℕ) (even : stack_guard % frame_size ≡ 0)
    (word : stack_guard < 2 ^ 32) where
  -- The switch, once the directory and its tables stand.
  switch_on-Installed :
      (ram0 ram : Ram) (a : FrameAllocator) (held0 held free : List ℕ) (directory : ℕ)
      → Partial ram0 held0 directory stack_guard
          (identity_map_end map / bytes_per_directory_entry)
          ram
          a
          held
          free
      → (let s = switch_on ram cpu (identity_map_end map) stack_guard (start_address directory) in
          Installed ram0 map stack_guard held0 (s.0, ram, a, s.1))
  unfolding switch_on start_address
  switch_on-Installed ram0 ram a held0 held free directory p =
      let count = identity_map_end map / bytes_per_directory_entry in
      let room : count ≤ entries = omega (arith, (identity_map_end-tables map).1) in
      let end : count * bytes_per_directory_entry ≡ identity_map_end map =
        sym (identity_map_end-tables map).0 in
      let s = switch_on ram cpu (identity_map_end map) stack_guard (start_address directory) in
      let here : s.1.cr3 ≡ directory * frame_size = omega (arith, p.small) in
      let checked : s.1.cr3 ≢ 0
          → (virt : ℕ) → virt < 2 ^ 32
          → is_present ram s.1 virt ≡ mapped (identity_map_end map) stack_guard virt =
        λ n virt lt.
          is_present-Partial ram0 held0 directory stack_guard count ram a held free p room virt lt
            s.1 here (omega (arith, n, here))
          ∙ ap (λ e. mapped e stack_guard virt) end in
      record {
        held_now = held;
        free_now = free;
        owns = p.owns;
        still_held = p.grew;
        kept = p.kept;
        covers = identity_map_end-covers map;
        paging = refl;
        task_segments = (refl, refl);
        identity = λ virt lt.
            ap (λ c. walk_tables ram c virt) here
            ∙ walk_tables-Partial ram0 held0 directory stack_guard count ram a held free p room virt
                lt
            ∙ ap (λ e. if mapped e stack_guard virt then some virt else none) end;
        checked = checked;
        reported = λ n.
            let hole : is_present ram s.1 stack_guard ≡ false =
              checked n stack_guard word ∙ mapped-guard (identity_map_end map) stack_guard even in
            (refl, (rw hole (ground arith), rw hole refl));
      }

  -- The rest of `init`, with the tables, and with the directory's frame.
  abbrev after_tables : ℕ → Bool × Ram × FrameAllocator → Report × Ram × FrameAllocator × Cpu
  after_tables directory r =
      let (built, ram2, a2) = r in
      let (report, cpu2) =
        switch_on ram2 cpu (identity_map_end map) stack_guard (start_address directory) in
      if built then (report, ram2, a2, cpu2) else (failed, ram2, a2, cpu)

  abbrev after_directory :
      Ram → FrameAllocator → Option ℕ × Ram × FrameAllocator → Report × Ram × FrameAllocator × Cpu
  after_directory ram a r =
      let mapped_end = identity_map_end map in
      let (frame, ram', a') = r in
      if mapped_end == 0 then (failed, ram, a, cpu) else elim frame [
        | none ↦ (failed, ram', a', cpu)
        | some directory ↦
            after_tables directory (
              build_tables (mapped_end / bytes_per_directory_entry) ram' a' directory stack_guard 0)
      ]

  empty_directory :
      (ram : Ram) (a b : FrameAllocator) (held free rest : List ℕ) (t : ℕ)
      → Owns ram a held free
      → Owns ram b (t ∷ held) rest
      → Partial ram held t stack_guard 0 (clear_frame ram t) b (t ∷ held) rest
  empty_directory ram a b held free rest t v w =
      let small : t < max_frame_index = Owned-lt b t w.fits w.held_owned.0 in
      let apart : (x : ℕ) → member x held ≡ true → t ≢ x =
        λ x m. member-All (λ y. t ≢ y) x held w.held_once.0 m in
      record {
        owns =
            Owns-kept ram (clear_frame ram t) b (t ∷ held) rest t t w (ground arith) (ground arith)
              (λ y o p. clear_frame-frame t small ram y o);
        small = small;
        owned = ground arith;
        hung = λ index lt. absurd (omega arith);
        rest = λ index le lt. read_entry-clear_frame t small ram index lt;
        apart = apart;
        grew = λ x m. ground (arith, m);
        kept = λ x y m i.
            clear_frame-frame t small ram y (Inside-Beside y x t (λ e. apart x m (sym e)) i);
      }

  Tables-Installed :
      (ram0 : Ram) (held0 : List ℕ) (directory : ℕ) (r : Bool × Ram × FrameAllocator)
      → Tables ram0 held0 directory stack_guard (identity_map_end map / bytes_per_directory_entry) r
      → Failed cpu map (after_tables directory r)
        ⊎ Installed ram0 map stack_guard held0 (after_tables directory r)
  Tables-Installed ram0 held0 directory (false, ram, a) t = inl (refl, (refl, inr t))
  Tables-Installed ram0 held0 directory (true, ram, a) t =
      inr (switch_on-Installed ram0 ram a held0 t.0 t.1 directory t.2)

  directory-Installed :
      (ram : Ram) (a : FrameAllocator) (held free : List ℕ) (r : Option ℕ × FrameAllocator)
      → identity_map_end map ≢ 0
      → Owns ram a held free
      → allocate ram a ≡ r
      → Allocated ram held free r
      → Failed cpu map (init ram a cpu map stack_guard)
        ⊎ Installed ram map stack_guard held (init ram a cpu map stack_guard)
  unfolding init
  directory-Installed ram a held free (none, b) n w e g =
      let run : init ram a cpu map stack_guard ≡ (failed, ram, b, cpu) =
        ap (after_directory ram a) (zeroed-none ram a b e) ∙ ground (arith, n) in
      rw run (inl (refl, (refl, inr g.1)))
  directory-Installed ram a held free (some t, b) n w e g =
      let tables =
        build_tables (identity_map_end map / bytes_per_directory_entry) (clear_frame ram t) b t
          stack_guard 0 in
      let run : init ram a cpu map stack_guard ≡ after_tables t tables =
        ap (after_directory ram a) (zeroed-some ram a b t e) ∙ ground (arith, n) in
      rw run (
        Tables-Installed ram held t tables (
          subst (λ n. Tables ram held t stack_guard n tables) (omega arith)
            (build-Tables ram held t stack_guard (identity_map_end map / bytes_per_directory_entry)
              0 (clear_frame ram t) b (t ∷ held) g.0 (empty_directory ram a b held free g.0 t w g.2)
              (omega (arith, (identity_map_end-tables map).1)))))

init-empty :
    (ram : Ram) (a : FrameAllocator) (cpu : Cpu) (map : MemoryMap) (stack_guard : ℕ)
    → identity_map_end map ≡ 0
    → init ram a cpu map stack_guard ≡ (failed, ram, a, cpu)
unfolding init
init-empty ram a cpu map stack_guard e = ground (arith, e)

-- On a frame allocator in order (`Owns`), with the guard at a page of the 32-bit address space, `init`
-- has one of two outcomes. It fails, leaves the registers alone, and there is no usable memory or no
-- frame left. Or paging is on, and both task state segments name the directory: as the processor
-- walks the tables, each address below the end of the map stands for itself, except for the guard
-- page, which with all above the end stands for nothing; usable memory is below that end up to 4 GiB
-- less 4 MiB; the allocator is in order, its old holders still have their frames, with the bytes they
-- had; and unless the directory is frame 0, `is_present` says of each address whether it is mapped,
-- and the report has the end of the map, the guard page, and paging as enabled.
pub init-Installed :
    (ram : Ram) (a : FrameAllocator) (cpu : Cpu) (map : MemoryMap) (stack_guard : ℕ)
    (held free : List ℕ)
    → Owns ram a held free
    → stack_guard % frame_size ≡ 0
    → stack_guard < 2 ^ 32
    → (let r = init ram a cpu map stack_guard in
        Failed cpu map r ⊎ Installed ram map stack_guard held r)
init-Installed ram a cpu map stack_guard held free w even word =
    elim (Bool-cases (identity_map_end map == 0)) [
      | inl e ↦
          rw (init-empty ram a cpu map stack_guard (ground (arith, e)))
            (inl (refl, (refl, inl (ground (arith, e)))))
      | inr e ↦
          directory-Installed cpu map stack_guard even word ram a held free (allocate ram a)
            (ground (arith, e)) w refl (allocate-Allocated ram a held free w)
    ]
