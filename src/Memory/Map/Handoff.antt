-- ===== src/Memory/Map/Handoff.antt =====
-- The agreement with the boot sector: the layout of the handoff block, and what `load` makes of it.
use goatos.Base.{
  ℕ, zero, suc, ◌+◌, ◌*◌, ◌^◌, ◌≤◌, ◌<◌, min, bit_and, ◌≡◌, ◌≢◌, refl, true, ◌||◌, List, [], ◌∷◌,
  ◌++◌, arith, if◌then◌else◌, ◌==◌, length, All,
}
use goatos.Memory.Ram.{
  Ram, read_u32, read_u64, bytes_u32, bytes_u64, Holds, read_u32_lem, read_u64_lem,
  Holds-append_left, Holds-append_right,
}
use goatos.Memory.Map.{
  Region, from_raw, handoff_addr, signature, max_entries, entries_offset, entry_size, load_entries,
  load, empty,
}

-- A raw E820 entry, each field within its width.
pub record Entry : Type 0 where
  pub base : ℕ
  pub size : ℕ
  pub kind : ℕ
  pub attributes : ℕ

abbrev pub Fits : Entry → Type 0
Fits e = (e.base < 2 ^ 64) × (e.size < 2 ^ 64) × (e.kind < 2 ^ 32) × (e.attributes < 2 ^ 32)

abbrev pub entry_bytes : Entry → List ℕ
entry_bytes e =
    bytes_u64 e.base ++ (bytes_u64 e.size ++ (bytes_u32 e.kind ++ bytes_u32 e.attributes))

unfoldable pub entries_bytes : List Entry → List ℕ
entries_bytes [] = []
entries_bytes (e ∷ es) = entry_bytes e ++ entries_bytes es

abbrev pub block_bytes : ℕ → List Entry → List ℕ
block_bytes count es = bytes_u32 signature ++ (bytes_u32 count ++ entries_bytes es)

-- The entries to keep: not empty, and not marked as one to ignore.
pub kept : List Entry → List Region
kept [] = []
kept (e ∷ es) =
    if e.size == 0 || bit_and e.attributes 1 == 0
    then kept es
    else record { base = e.base; size = e.size; kind = from_raw (e.kind) } ∷ kept es

record Reads (ram : Ram) (a : ℕ) (e : Entry) : Type 0 where
  base : read_u64 ram a ≡ e.base
  size : read_u64 ram (a + 8) ≡ e.size
  kind : read_u32 ram (a + 16) ≡ e.kind
  attributes : read_u32 ram (a + 20) ≡ e.attributes

entry-Reads : (ram : Ram) (a : ℕ) (e : Entry) → Fits e → Holds ram a (entry_bytes e) → Reads ram a e
entry-Reads ram a e f h =
    let tail = bytes_u32 e.kind ++ bytes_u32 e.attributes in
    let h1 =
      Holds-append_right ram a (a + 8) (bytes_u64 e.base) (bytes_u64 e.size ++ tail) (omega arith)
        h in
    let h2 = Holds-append_right ram (a + 8) (a + 16) (bytes_u64 e.size) tail (omega arith) h1 in
    let h3 =
      Holds-append_right ram (a + 16) (a + 20) (bytes_u32 e.kind) (bytes_u32 e.attributes)
        (omega arith) h2 in
    record {
      base =
          read_u64_lem ram a e.base f.0
            (Holds-append_left ram a (bytes_u64 e.base) (bytes_u64 e.size ++ tail) h);
      size =
          read_u64_lem ram (a + 8) e.size f.1
            (Holds-append_left ram (a + 8) (bytes_u64 e.size) tail h1);
      kind =
          read_u32_lem ram (a + 16) e.kind f.2
            (Holds-append_left ram (a + 16) (bytes_u32 e.kind) (bytes_u32 e.attributes) h2);
      attributes = read_u32_lem ram (a + 20) e.attributes f.3 h3;
    }

load_entries-kept :
    (ram : Ram) (i a : ℕ) (es : List Entry)
    → All Fits es
    → a ≡ handoff_addr + entries_offset + i * entry_size
    → Holds ram a (entries_bytes es)
    → load_entries ram i (length es) ≡ kept es
unfolding load_entries entries_bytes kept
load_entries-kept ram i a [] f e h = refl
load_entries-kept ram i a (x ∷ es) f e h =
    let r =
      entry-Reads ram a x f.0 (Holds-append_left ram a (entry_bytes x) (entries_bytes es) h) in
    let rest =
      load_entries-kept ram (i + 1) (a + 24) es f.1 (omega arith)
        (Holds-append_right ram a (a + 24) (entry_bytes x) (entries_bytes es) (omega arith) h) in
    rw (← e, r.base, r.size, r.kind, r.attributes, rest)

-- With a block in memory that says `count` entries and holds the first 32 of them or all, `load`
-- gives the entries that are neither empty nor to be ignored, in order, and the count.
pub load-kept :
    (ram : Ram) (count : ℕ) (es : List Entry)
    → All Fits es
    → count < 2 ^ 32
    → length es ≡ min count max_entries
    → Holds ram handoff_addr (block_bytes count es)
    → load ram ≡ record { regions = kept es; reported = count; available = true }
unfolding load
load-kept ram count es f lt n h =
    let after_signature =
      Holds-append_right ram handoff_addr (handoff_addr + 4) (bytes_u32 signature)
        (bytes_u32 count ++ entries_bytes es) (omega arith) h in
    let marked = read_u32_lem ram handoff_addr signature (omega arith) (
      Holds-append_left ram handoff_addr (bytes_u32 signature) (bytes_u32 count ++ entries_bytes es)
        h) in
    let counted = read_u32_lem ram (handoff_addr + 4) count lt (
      Holds-append_left ram (handoff_addr + 4) (bytes_u32 count) (entries_bytes es)
        after_signature) in
    let entries = load_entries-kept ram 0 (handoff_addr + 8) es f (omega arith) (
      Holds-append_right ram (handoff_addr + 4) (handoff_addr + 8) (bytes_u32 count)
        (entries_bytes es) (omega arith) after_signature) in
    rw (marked, counted, ← n, entries)

-- Without the signature the map is empty and marked as not available, whatever else stands there.
pub load-empty : (ram : Ram) → read_u32 ram handoff_addr ≢ signature → load ram ≡ empty
unfolding load
load-empty ram h = ground arith

load_entries-bounds :
    (ram : Ram) (i n : ℕ)
    → (length (load_entries ram i n) ≤ n) × All (λ r. r.size ≢ 0) (load_entries ram i n)
unfolding load_entries
load_entries-bounds ram i zero = (omega arith, tt)
load_entries-bounds ram i (suc n) = ground (arith, load_entries-bounds ram (i + 1) n)

-- Whatever the block holds, the map has at most 32 regions and none of them is empty.
pub load-bounds :
    (ram : Ram)
    → (length (load ram).regions ≤ max_entries) × All (λ r. r.size ≢ 0) (load ram).regions
unfolding load
load-bounds ram =
    ground (arith, load_entries-bounds ram 0 (min (read_u32 ram (handoff_addr + 4)) max_entries))
