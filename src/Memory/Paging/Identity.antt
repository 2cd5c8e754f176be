-- ===== src/Memory/Paging/Identity.antt =====
-- What the tables that `init` builds mean to the processor: each address below the end of the map
-- stands for itself, but for those of the guard page, which stand for nothing.
use goatos.Base.{
  ℕ, ◌+◌, ◌*◌, ◌/◌, ◌%◌, ◌^◌, ◌≤◌, ◌<◌, ◌≡◌, ◌≢◌, inl, inr, refl, ap, ◌∙◌, bit_and, Bool, false,
  not, ◌&&◌, Option, none, some, List, ◌==◌, ltb, if◌then◌else◌, arith, Bool-cases,
}
use goatos.Base.Bits.{bit_and_lowest}
use goatos.Memory.Ram.{Ram, read_u32}
use goatos.Memory.Frame.{
  FrameAllocator, frame_size, max_frame_index, start_address, containing_address,
}
use goatos.Memory.Paging.{Cpu, entries, bytes_per_directory_entry, present, read_entry, is_present}
use goatos.Memory.Paging.Build.{Partial, page_entry}

-- The processor's walk of the tables, for 4 KiB pages without PAE: bit 0 of an entry says that it is
-- present, and its upper 20 bits name a frame.
unfoldable pub walk_page : ℕ → ℕ → Option ℕ
walk_page pte virt = if pte % 2 == 0 then none else some (pte / 4096 * 4096 + virt % 4096)

unfoldable pub walk_table : Ram → ℕ → ℕ → Option ℕ
walk_table ram pde virt =
    if pde % 2 == 0
    then none
    else walk_page (read_u32 ram (pde / 4096 * 4096 + virt / 4096 % 1024 * 4)) virt

unfoldable pub walk_tables : Ram → ℕ → ℕ → Option ℕ
walk_tables ram cr3 virt = walk_table ram (read_u32 ram (cr3 + virt / 4194304 * 4)) virt

-- Below the end, and not on the guard page.
unfoldable pub mapped : ℕ → ℕ → ℕ → Bool
mapped end stack_guard virt = ltb virt end && not (virt / frame_size * frame_size == stack_guard)

module _ (ram : Ram) (frame : ℕ) (small : frame < max_frame_index) where
  read_entry_word :
      (index : ℕ) → read_u32 ram (frame * 4096 + index * 4) ≡ read_entry ram frame index
  unfolding read_entry start_address
  read_entry_word index = ap (λ b. read_u32 ram (b + index * 4)) (omega arith)

  containing_start : containing_address (frame * 4096) ≡ frame
  unfolding containing_address
  containing_start = omega arith

  -- A directory entry for the frame leads to it.
  walk_table-frame :
      (virt : ℕ)
      → walk_table ram (frame * frame_size + 3) virt
        ≡ walk_page (read_entry ram frame (virt % bytes_per_directory_entry / frame_size)) virt
  unfolding walk_table
  walk_table-frame virt =
      let odd : ((frame * 4096 + 3) % 2 == 0) ≡ false = ground arith in
      let base : (frame * 4096 + 3) / 4096 * 4096 ≡ frame * 4096 = omega arith in
      let page : virt / 4096 % 1024 ≡ virt % bytes_per_directory_entry / frame_size = omega arith in
      rw (odd, base, page, walk_table)
        (ap (λ e. walk_page e virt)
          (read_entry_word (virt % bytes_per_directory_entry / frame_size)))

walk_page-page_entry :
    (stack_guard virt end : ℕ)
    → virt < end
    → walk_page
        (page_entry stack_guard
          (virt / bytes_per_directory_entry)
          (virt % bytes_per_directory_entry / frame_size))
        virt
      ≡ (if mapped end stack_guard virt then some virt else none)
unfolding walk_page mapped
walk_page-page_entry stack_guard virt end lt = ground (arith, lt)

walk_table-none :
    (ram : Ram) (virt end stack_guard : ℕ)
    → ltb virt end ≡ false
    → walk_table ram 0 virt ≡ (if mapped end stack_guard virt then some virt else none)
unfolding walk_table mapped
walk_table-none ram virt end stack_guard off = rw (off, mapped) refl

-- The kernel's check, by the entries that it reads.
present_page :
    (pde virt end stack_guard : ℕ)
    → pde % 2 ≡ 1
    → virt < end
    → (if bit_and pde present == 0
        then false
        else not (
            bit_and
              (page_entry stack_guard
                (virt / bytes_per_directory_entry)
                (virt % bytes_per_directory_entry / frame_size))
              present
            == 0))
      ≡ mapped end stack_guard virt
unfolding mapped
present_page pde virt end stack_guard odd lt =
    rw
      (
        bit_and_lowest pde,
        bit_and_lowest (
            page_entry stack_guard (virt / bytes_per_directory_entry)
              (virt % bytes_per_directory_entry / frame_size)),
      )
      (ground (arith, odd, lt))

absent_table :
    (virt end stack_guard : ℕ) → ltb virt end ≡ false → false ≡ mapped end stack_guard virt
unfolding mapped
absent_table virt end stack_guard off = rw (off, mapped) refl

module _ (ram0 : Ram) (held0 : List ℕ) (directory stack_guard count : ℕ) (ram : Ram)
    (a : FrameAllocator) (held free : List ℕ)
    (p : Partial ram0 held0 directory stack_guard count ram a held free) (room : count ≤ entries)
    (virt : ℕ) (word : virt < 2 ^ 32) where
  -- Through the processor's eyes.
  pub walk_tables-Partial :
      walk_tables ram (directory * frame_size) virt
      ≡ (if mapped (count * bytes_per_directory_entry) stack_guard virt then some virt else none)
  unfolding walk_tables
  walk_tables-Partial =
      let index = virt / bytes_per_directory_entry in
      let page = virt % bytes_per_directory_entry / frame_size in
      let first = read_entry_word ram directory p.small index in
      elim (Bool-cases (ltb index count)) [
        | inl e ↦
            let h = p.hung index (ground (arith, e)) in
            ap (λ w. walk_table ram w virt) (first ∙ h.named)
            ∙ walk_table-frame ram h.table h.small virt
            ∙ ap (λ w. walk_page w virt) (h.pages page (omega arith))
            ∙ walk_page-page_entry stack_guard virt (count * bytes_per_directory_entry)
                (ground (arith, e))
        | inr e ↦
            let beyond : count ≤ index = ground (arith, e) in
            let off : ltb virt (count * bytes_per_directory_entry) ≡ false =
              ground (arith, beyond) in
            ap (λ w. walk_table ram w virt) (first ∙ p.rest index beyond (omega arith))
            ∙ walk_table-none ram virt (count * bytes_per_directory_entry) stack_guard off
      ]

  -- Through the kernel's own check.
  pub is_present-Partial :
      (cpu : Cpu)
      → cpu.cr3 ≡ directory * frame_size
      → directory ≢ 0
      → is_present ram cpu virt ≡ mapped (count * bytes_per_directory_entry) stack_guard virt
  unfolding is_present
  is_present-Partial cpu c n =
      let index = virt / bytes_per_directory_entry in
      let page = virt % bytes_per_directory_entry / frame_size in
      let live : (cpu.cr3 == 0) ≡ false = ground (arith, c, n) in
      let here : containing_address cpu.cr3 ≡ directory =
        ap containing_address c ∙ containing_start ram directory p.small in
      elim (Bool-cases (ltb index count)) [
        | inl e ↦
            let h = p.hung index (ground (arith, e)) in
            let there : containing_address ((h.table * frame_size + 3) / frame_size * frame_size)
                ≡ h.table =
              ap containing_address (omega arith) ∙ containing_start ram h.table h.small in
            rw (live, here, h.named, there, h.pages page (omega arith))
              (present_page (h.table * frame_size + 3) virt (count * bytes_per_directory_entry)
                stack_guard (omega arith) (ground (arith, e)))
        | inr e ↦
            let beyond : count ≤ index = ground (arith, e) in
            rw (live, here, p.rest index beyond (omega arith))
              (absent_table virt (count * bytes_per_directory_entry) stack_guard
                (ground (arith, beyond)))
      ]
