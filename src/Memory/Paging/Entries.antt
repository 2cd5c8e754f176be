-- ===== src/Memory/Paging/Entries.antt =====
-- Reads and writes of the entries of a table, and a page table once it is filled.
use goatos.Base.{
  ℕ, zero, suc, ◌+◌, ◌*◌, ◌/◌, ◌%◌, ◌^◌, ◌≤◌, ◌<◌, ◌≡◌, ◌≢◌, ◌⊎◌, inl, inr, refl, sym, ap, ◌∙◌,
  bit_or, ◌==◌, if◌then◌else◌, arith, Bool-cases,
}
use goatos.Base.Bits.{bit_or_three}
use goatos.Memory.Ram.{Ram, read_u32, read_u32-write_u32, read_u32-same, write_u32-apart}
use goatos.Memory.Frame.{frame_size, max_frame_index, start_address}
use goatos.Memory.Paging.{entries, kernel_page, clear_frame, write_entry, read_entry, fill_table}

-- A byte of the frame, and a byte before or behind it.
abbrev pub Inside : ℕ → ℕ → Type 0
Inside y frame = (frame * frame_size ≤ y) × (y < frame * frame_size + frame_size)

abbrev pub Beside : ℕ → ℕ → Type 0
Beside y frame = (y < frame * frame_size) ⊎ (frame * frame_size + frame_size ≤ y)

pub Inside-Beside : (y f g : ℕ) → f ≢ g → Inside y f → Beside y g
Inside-Beside y f g n i = omega (arith, n, i)

pub kernel_entry : (phys : ℕ) → phys % 4 ≡ 0 → bit_or phys kernel_page ≡ phys + 3
kernel_entry phys h =
    let quarter : phys ≡ phys / 4 * 4 = omega arith in
    ap (λ p. bit_or p 3) quarter ∙ bit_or_three (phys / 4) ∙ omega arith

module _ (table : ℕ) (small : table < max_frame_index) where
  pub write_entry-frame :
      (ram : Ram) (index value y : ℕ)
      → (y < table * frame_size + index * 4) ⊎ (table * frame_size + index * 4 + 4 ≤ y)
      → write_entry ram table index value y ≡ ram y
  unfolding write_entry start_address
  write_entry-frame ram index value y o =
      write_u32-apart ram (table * 2 ^ 12 % 2 ^ 32 + index * 4) value y (omega (arith, o))

  pub read_entry-same :
      (ram ram' : Ram) (index : ℕ)
      → ((y : ℕ)
          → table * frame_size + index * 4 ≤ y
          → y < table * frame_size + index * 4 + 4
          → ram' y ≡ ram y)
      → read_entry ram' table index ≡ read_entry ram table index
  unfolding read_entry start_address
  read_entry-same ram ram' index same =
      read_u32-same ram ram' (table * 2 ^ 12 % 2 ^ 32 + index * 4)
        (λ y p q. same y (omega arith) (omega arith))

  -- Entries of a frame whose bytes are the same.
  pub read_entry-kept :
      (ram ram' : Ram) (index : ℕ)
      → index < entries
      → ((y : ℕ) → Inside y table → ram' y ≡ ram y)
      → read_entry ram' table index ≡ read_entry ram table index
  read_entry-kept ram ram' index lt same =
      read_entry-same ram ram' index (λ y p q. same y (omega arith))

  pub read_entry-write_entry :
      (ram : Ram) (index value : ℕ)
      → value < 2 ^ 32
      → read_entry (write_entry ram table index value) table index ≡ value
  unfolding read_entry write_entry
  read_entry-write_entry ram index value lt =
      read_u32-write_u32 ram (start_address table + index * 4) value lt

  pub clear_frame-frame : (ram : Ram) (y : ℕ) → Beside y table → clear_frame ram table y ≡ ram y
  unfolding clear_frame start_address
  clear_frame-frame ram y o = ground (arith, o)

  pub read_entry-clear_frame :
      (ram : Ram) (index : ℕ) → index < entries → read_entry (clear_frame ram table) table index ≡ 0
  unfolding read_entry clear_frame start_address read_u32
  read_entry-clear_frame ram index lt = ground (arith, lt)

  module _ (base stack_guard : ℕ) where
    pub fill_table-frame :
        (left : ℕ) (ram : Ram) (index y : ℕ)
        → (y < table * frame_size + index * 4) ⊎ (table * frame_size + (index + left) * 4 ≤ y)
        → fill_table left ram table base stack_guard index y ≡ ram y
    unfolding fill_table
    fill_table-frame zero ram index y o = refl
    fill_table-frame (suc left) ram index y o =
        elim (Bool-cases (base + index * frame_size == stack_guard)) [
          | inl e ↦ rw (e, fill_table) (fill_table-frame left ram (index + 1) y (omega (arith, o)))
          | inr e ↦
              rw (e, fill_table)
                (fill_table-frame left _ (index + 1) y (omega (arith, o))
                  ∙ write_entry-frame ram index (bit_or (base + index * frame_size) kernel_page) y
                      (omega (arith, o)))
        ]

    -- What an entry of the filled table is: absent at the guard page, else the page of its own number.
    pub fill_table-entry :
        (left : ℕ) (ram : Ram) (index j : ℕ)
        → base % frame_size ≡ 0
        → base + entries * frame_size ≤ 2 ^ 32
        → index + left ≤ entries
        → index ≤ j
        → j < index + left
        → read_entry (fill_table left ram table base stack_guard index) table j ≡ (
            if base + j * frame_size == stack_guard
            then read_entry ram table j
            else base + j * frame_size + 3)
    unfolding fill_table
    fill_table-entry zero ram index j even top room lo hi = absurd (omega arith)
    fill_table-entry (suc left) ram index j even top room lo hi =
        let phys = base + index * frame_size in
        elim (Bool-cases (phys == stack_guard)) [
          | inl e ↦
              rw (e, fill_table)
                (elim (Bool-cases (index == j)) [
                  | inl k ↦
                      let here : index ≡ j = ground (arith, k) in
                      rw (sym here, e)
                        (read_entry-same ram _ index
                          (λ y p q. fill_table-frame left ram (index + 1) y (omega arith)))
                  | inr k ↦
                      fill_table-entry left ram (index + 1) j even top (omega arith)
                        (ground (arith, k, lo)) (omega arith)
                ])
          | inr e ↦
              rw (e, fill_table)
                (elim (Bool-cases (index == j)) [
                  | inl k ↦
                      let here : index ≡ j = ground (arith, k) in
                      let ram1 = write_entry ram table index (bit_or phys kernel_page) in
                      rw (sym here, e)
                        (read_entry-same ram1 _ index
                            (λ y p q. fill_table-frame left ram1 (index + 1) y (omega arith))
                          ∙ read_entry-write_entry ram index (bit_or phys kernel_page)
                              (omega (arith, kernel_entry phys (omega (arith, even)), top))
                          ∙ kernel_entry phys (omega (arith, even)))
                  | inr k ↦
                      let ram1 = write_entry ram table index (bit_or phys kernel_page) in
                      let far : index < j = ground (arith, k, lo) in
                      rw
                        (sym (
                          read_entry-same ram ram1 j (λ y p q.
                            write_entry-frame ram index (bit_or phys kernel_page) y (omega arith))))
                        (fill_table-entry left ram1 (index + 1) j even top (omega arith)
                          (omega arith) (omega arith))
                ])
        ]
