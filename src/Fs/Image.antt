-- ===== src/Fs/Image.antt =====
-- The on-disk format, as scripts/build-goatfs.py packs it: what the superblock, the directory and
-- the sectors of a file hold.
use goatos.Base.{
  ℕ, zero, suc, ◌+◌, ◌-◌, ◌*◌, ◌^◌, ◌≤◌, ◌<◌, ◌≡◌, ◌⊎◌, inl, inr, refl, ap, ap₂, subst, true, List,
  [], ◌∷◌, ◌++◌, arith, length, length-append, length-replicate, replicate, All, ◌∙◌,
}
use goatos.Memory.Ram.{
  Ram, read_u32, bytes_u32, Holds, read_u32_lem, Holds-append_left, Holds-append_right,
}
use goatos.Fs.{
  Disk, DirEntry, Outcome, ok, err, magic, version, max_files, max_file_size, name_len,
  dir_entry_size, sector_size, fs_base_lba, slice, same_bytes, upto_zero, all_printable,
  transfer_of,
}

-- An entry that the directory may hold.
abbrev pub Proper : DirEntry → Type 0
Proper e =
    (0 < length e.name)
    × (length e.name ≤ name_len)
    × (all_printable e.name ≡ true)
    × (e.size ≤ max_file_size)
    × (2 ≤ e.lba_off)

abbrev pub padded : List ℕ → List ℕ
padded name = name ++ replicate (name_len - length name) 0

abbrev pub entry_bytes : DirEntry → List ℕ
entry_bytes e = padded e.name ++ (bytes_u32 e.size ++ bytes_u32 e.lba_off)

abbrev pub super_bytes : ℕ → List ℕ
super_bytes count = magic ++ (bytes_u32 version ++ bytes_u32 count)

-- From the entry `i` on the directory sector holds these entries.
abbrev pub HoldsFiles : Ram → ℕ → List DirEntry → Type 0
HoldsFiles sector i [] = Unit {0}
HoldsFiles sector i (e ∷ es) =
    Holds sector (i * dir_entry_size) (entry_bytes e) × HoldsFiles sector (i + 1) es

-- A disk with a file system of these files on it.
pub record Image (disk : Disk) (es : List DirEntry) : Type 0 where
  pub super : Ram
  pub directory : Ram
  pub reads_super : disk fs_base_lba sector_size ≡ ok super
  pub reads_directory : disk (fs_base_lba + 1) sector_size ≡ ok directory
  pub super_holds : Holds super 0 (super_bytes (length es))
  pub directory_holds : HoldsFiles directory 0 es
  pub proper : All Proper es
  pub words : All (λ e. fs_base_lba + e.lba_off < 2 ^ 32) es
  pub few : length es ≤ max_files

-- The file's sectors hold these bytes; an empty file has no sectors.
pub record Stored (disk : Disk) (e : DirEntry) (contents : List ℕ) : Type 0 where
  pub sectors : Ram
  pub reads_sectors : 0 < e.size → disk (fs_base_lba + e.lba_off) (transfer_of e.size) ≡ ok sectors
  pub sectors_hold : Holds sectors 0 contents
  pub whole : length contents ≡ e.size

pub Outcome-cases :
    {E A : Type 0} (o : Outcome E A) → ((e : E) × (o ≡ err e)) ⊎ ((a : A) × (o ≡ ok a))
Outcome-cases (ok a) = inr (a, refl)
Outcome-cases (err e) = inl (e, refl)

pub length-slice : (ram : Ram) (a n : ℕ) → length (slice ram a n) ≡ n
unfolding slice
length-slice ram a zero = refl
length-slice ram a (suc n) = ap suc (length-slice ram (suc a) n)

pub same_bytes_refl : (xs : List ℕ) → same_bytes xs xs ≡ true
unfolding same_bytes
same_bytes_refl [] = refl
same_bytes_refl (x ∷ xs) = ground (arith, same_bytes_refl xs)

pub slice-Holds : (ram : Ram) (a : ℕ) (bs : List ℕ) → Holds ram a bs → slice ram a (length bs) ≡ bs
unfolding slice
slice-Holds ram a [] h = refl
slice-Holds ram a (b ∷ bs) h = ap₂ ◌∷◌ h.0 (slice-Holds ram (suc a) bs h.1)

upto_zero-zeros : (n : ℕ) → upto_zero (replicate n 0) ≡ []
unfolding upto_zero
upto_zero-zeros zero = refl
upto_zero-zeros (suc n) = ground arith

pub upto_zero-pad :
    (name : List ℕ) (n : ℕ) → all_printable name ≡ true → upto_zero (name ++ replicate n 0) ≡ name
unfolding upto_zero all_printable
upto_zero-pad [] n h = upto_zero-zeros n
upto_zero-pad (x ∷ xs) n h = ground (arith, upto_zero-pad xs n)

pub length-padded : (name : List ℕ) → length name ≤ name_len → length (padded name) ≡ name_len
length-padded name h = omega (
  arith,
  length-append name (replicate (name_len - length name) 0),
  length-replicate {A = ℕ} (name_len - length name) 0,
)

-- What `mount` reads in a directory entry: its name, its size and its first sector.
pub entry-name :
    (sector : Ram) (a : ℕ) (e : DirEntry)
    → Proper e
    → Holds sector a (entry_bytes e)
    → upto_zero (slice sector a name_len) ≡ e.name
entry-name sector a e p h =
    let full =
      slice-Holds sector a (padded e.name)
        (Holds-append_left sector a (padded e.name) (bytes_u32 e.size ++ bytes_u32 e.lba_off) h) in
    let cut : slice sector a name_len ≡ padded e.name =
      subst (λ n. slice sector a n ≡ padded e.name) (length-padded e.name p.1) full in
    ap upto_zero cut ∙ upto_zero-pad e.name _ p.2

pub entry-words :
    (sector : Ram) (a : ℕ) (e : DirEntry)
    → Proper e
    → e.lba_off < 2 ^ 32
    → Holds sector a (entry_bytes e)
    → (read_u32 sector (a + 32) ≡ e.size) × (read_u32 sector (a + 36) ≡ e.lba_off)
entry-words sector a e p w h =
    let tail =
      Holds-append_right sector a (a + 32) (padded e.name) (bytes_u32 e.size ++ bytes_u32 e.lba_off)
        (omega (arith, length-padded e.name p.1)) h in
    (
      read_u32_lem sector (a + 32) e.size (omega arith)
          (Holds-append_left sector (a + 32) (bytes_u32 e.size) (bytes_u32 e.lba_off) tail),
      read_u32_lem sector (a + 36) e.lba_off w (
          Holds-append_right sector (a + 32) (a + 36) (bytes_u32 e.size) (bytes_u32 e.lba_off)
            (omega arith) tail),
    )
