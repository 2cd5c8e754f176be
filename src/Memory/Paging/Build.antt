-- ===== src/Memory/Paging/Build.antt =====
-- The outer loop of `init`: each round hangs one more page table off the directory, in a frame that
-- nobody else has.
use goatos.Base.{
  ℕ, ◌+◌, ◌*◌, ◌%◌, ◌^◌, ◌≤◌, ◌<◌, ◌≡◌, ◌≢◌, sym, ap, ◌∙◌, bit_or, true, List, ◌∷◌, ◌==◌,
  if◌then◌else◌, arith, All, All-map, All-zip,
}
use goatos.Memory.Ram.{Ram, read_u32, read_u32-same}
use goatos.Memory.Frame.{FrameAllocator, frame_size, max_frame_index, start_address}
use goatos.Memory.Frame.Chain.{member, member-All, SameLinks, Chain-SameLinks}
use goatos.Memory.Frame.Owners.{Owns, Owned-lt}
use goatos.Memory.Paging.{
  entries, bytes_per_directory_entry, kernel_page, clear_frame, read_entry, fill_table, hang_table,
}
use goatos.Memory.Paging.Entries.{
  Inside, Beside, Inside-Beside, kernel_entry, write_entry-frame, read_entry-same, read_entry-kept,
  read_entry-write_entry, clear_frame-frame, read_entry-clear_frame, fill_table-frame,
  fill_table-entry,
}

-- The page table entry of the page number `page` of the table number `index`.
abbrev pub page_entry : ℕ → ℕ → ℕ → ℕ
page_entry stack_guard index page =
    let phys = index * bytes_per_directory_entry + page * frame_size in
    if phys == stack_guard then 0 else phys + 3

-- The directory names a table of its own for these 4 MiB, and the table maps them one to one.
pub record Hung (ram : Ram) (directory stack_guard : ℕ) (held : List ℕ) (index : ℕ) : Type 0 where
  pub table : ℕ
  pub small : table < max_frame_index
  pub apart : directory ≢ table
  pub owned : member table held ≡ true
  pub named : read_entry ram directory index ≡ table * frame_size + 3
  pub pages :
      (page : ℕ) → page < entries → read_entry ram table page ≡ page_entry stack_guard index page

-- A directory with its first `count` tables, in frames that were not among `held0`, whose bytes are
-- as they were in `ram0`.
pub record Partial (ram0 : Ram) (held0 : List ℕ) (directory stack_guard count : ℕ) (ram : Ram)
    (a : FrameAllocator) (held free : List ℕ) : Type 0 where
  pub owns : Owns ram a held free
  pub small : directory < max_frame_index
  pub owned : member directory held ≡ true
  pub hung : (index : ℕ) → index < count → Hung ram directory stack_guard held index
  pub rest : (index : ℕ) → count ≤ index → index < entries → read_entry ram directory index ≡ 0
  pub apart : (x : ℕ) → member x held0 ≡ true → directory ≢ x
  pub grew : (x : ℕ) → member x held0 ≡ true → member x held ≡ true
  pub kept : (x y : ℕ) → member x held0 ≡ true → Inside y x → ram y ≡ ram0 y

-- Hanging the table `table` changes bytes of its frame and one entry of the directory.
module _ (ram : Ram) (directory stack_guard index table : ℕ) (small_d : directory < max_frame_index)
    (small_t : table < max_frame_index) (apart : table ≢ directory) (room : index < entries) where
  abbrev pub wiped_ram : Ram
  wiped_ram = clear_frame ram table

  abbrev filled : Ram
  filled = fill_table entries wiped_ram table (index * bytes_per_directory_entry) stack_guard 0

  filled-frame : (y : ℕ) → Beside y table → filled y ≡ ram y
  filled-frame y o =
      fill_table-frame table small_t (index * bytes_per_directory_entry) stack_guard entries
        wiped_ram 0 y (omega (arith, o))
      ∙ clear_frame-frame table small_t ram y o

  pub hang_table-frame :
      (y : ℕ)
      → Beside y table
      → Beside y directory
      → hang_table wiped_ram directory stack_guard index table y ≡ ram y
  unfolding hang_table
  hang_table-frame y o p =
      write_entry-frame directory small_d filled index (bit_or (start_address table) kernel_page) y
        (omega (arith, p, room))
      ∙ filled-frame y o

  pub hang_table-other :
      (j : ℕ)
      → j ≢ index
      → j < entries
      → read_entry (hang_table wiped_ram directory stack_guard index table) directory j
        ≡ read_entry ram directory j
  unfolding hang_table
  hang_table-other j n lt =
      read_entry-same directory small_d filled _ j (λ y p q.
        write_entry-frame directory small_d filled index (bit_or (start_address table) kernel_page)
          y (omega (arith, n)))
      ∙ read_entry-kept directory small_d ram filled j lt
          (λ y i. filled-frame y (Inside-Beside y directory table (λ e. apart (sym e)) i))

  pub hang_table-Hung :
      (held : List ℕ)
      → Hung
          (hang_table wiped_ram directory stack_guard index table)
          directory
          stack_guard
          (table ∷ held)
          index
  unfolding hang_table start_address
  hang_table-Hung held =
      let base = index * bytes_per_directory_entry in
      let value = bit_or (start_address table) kernel_page in
      let word : value ≡ table * frame_size + 3 =
        kernel_entry (start_address table) (omega arith) ∙ omega arith in
      record {
        table = table;
        small = small_t;
        apart = λ e. apart (sym e);
        owned = ground arith;
        named =
            read_entry-write_entry directory small_d filled index value (omega (arith, word))
            ∙ word;
        pages = λ page lt.
            read_entry-kept table small_t filled _ page lt (λ y i.
              write_entry-frame directory small_d filled index value y
                (omega (arith, Inside-Beside y table directory apart i, room)))
            ∙ fill_table-entry table small_t base stack_guard entries wiped_ram 0 page (omega arith)
                (omega arith) (omega arith) (omega arith) (omega arith)
            ∙ ap
                (λ v.
                  if base + page * frame_size == stack_guard
                  then v
                  else base + page * frame_size + 3)
                (read_entry-clear_frame table small_t ram page lt);
      }

-- A table stays hung while its bytes and its entry of the directory do.
pub Hung-kept :
    (ram ram' : Ram) (directory stack_guard index x : ℕ) (held : List ℕ)
    → (h : Hung ram directory stack_guard held index)
    → read_entry ram' directory index ≡ read_entry ram directory index
    → ((y : ℕ) → Inside y h.table → ram' y ≡ ram y)
    → Hung ram' directory stack_guard (x ∷ held) index
Hung-kept ram ram' directory stack_guard index x held h named same = record {
  table = h.table;
  small = h.small;
  apart = h.apart;
  owned = ground (arith, h.owned);
  named = named ∙ h.named;
  pages = λ page lt. read_entry-kept h.table h.small ram ram' page lt same ∙ h.pages page lt;
}

-- The word that links a free frame to the next.
first_word :
    (ram ram' : Ram) (x : ℕ)
    → x < max_frame_index
    → ((y : ℕ) → Inside y x → ram' y ≡ ram y)
    → read_u32 ram' (start_address x) ≡ read_u32 ram (start_address x)
unfolding start_address
first_word ram ram' x lt same =
    read_u32-same ram ram' (x * 2 ^ 12 % 2 ^ 32) (λ y p q. same y (omega arith))

-- Writing to frames that are handed out leaves the allocator in order.
pub Owns-kept :
    (ram ram' : Ram) (a : FrameAllocator) (held free : List ℕ) (t d : ℕ)
    → Owns ram a held free
    → member t held ≡ true
    → member d held ≡ true
    → ((y : ℕ) → Beside y t → Beside y d → ram' y ≡ ram y)
    → Owns ram' a held free
Owns-kept ram ram' a held free t d w p q same =
    let t_apart : All (λ x. t ≢ x) free =
      member-All (λ h. All (λ x. h ≢ x) free) t held w.lists_apart p in
    let d_apart : All (λ x. d ≢ x) free =
      member-All (λ h. All (λ x. h ≢ x) free) d held w.lists_apart q in
    let links : SameLinks ram ram' free =
      All-map (λ x. (t ≢ x) × ((d ≢ x) × (x < max_frame_index))) _ free
        (λ x n. first_word ram ram' x n.1.1 (λ y i.
          same y (Inside-Beside y x t (λ e. n.0 (sym e)) i)
            (Inside-Beside y x d (λ e. n.1.0 (sym e)) i)))
        (All-zip _ _ free t_apart (
          All-zip _ _ free d_apart
            (All-map _ _ free (λ x o. Owned-lt a x w.fits o) w.free_owned))) in
    record {
      fits = w.fits;
      apart = w.apart;
      placed = w.placed;
      chain = Chain-SameLinks ram ram' a.free_list free links w.chain;
      free_counted = w.free_counted;
      counted = w.counted;
      held_owned = w.held_owned;
      free_owned = w.free_owned;
      held_once = w.held_once;
      free_once = w.free_once;
      lists_apart = w.lists_apart;
    }
