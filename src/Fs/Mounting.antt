-- ===== src/Fs/Mounting.antt =====
-- What `init` makes of a disk, good or bad.
use goatos.Base.{
  ℕ, zero, suc, ◌+◌, ◌*◌, ◌^◌, ◌≤◌, ◌<◌, ◌≡◌, refl, true, false, inl, inr, some, List, [], ◌∷◌,
  ◌++◌, arith, ltb, length, All, Option-cases,
}
use goatos.Memory.Ram.{
  Ram, read_u32, bytes_u32, Holds, read_u32_lem, Holds-append_left, Holds-append_right,
}
use goatos.Fs.{
  Disk, DirEntry, Fs, FsError, Outcome, ok, err, magic, version, max_files, name_len,
  dir_entry_size, fs_base_lba, sector_size, slice, upto_zero, parse_entry, parse_entries,
  mount_directory, mount, finish, init,
}
use goatos.Fs.Image.{
  Outcome-cases, same_bytes_refl, length-slice, Proper, Image, HoldsFiles, entry_bytes, slice-Holds,
  entry-name, entry-words,
}

parse_entry_lem :
    (sector : Ram) (a : ℕ) (e : DirEntry)
    → Proper e
    → e.lba_off < 2 ^ 32
    → Holds sector a (entry_bytes e)
    → parse_entry sector a ≡ some e
unfolding parse_entry
parse_entry_lem sector a e p w h =
    let words = entry-words sector a e p w h in
    rw (entry-name sector a e p h, words.0, words.1) (ground (arith, p))

parse_entries_lem :
    (sector : Ram) (i : ℕ) (es : List DirEntry)
    → All Proper es
    → All (λ e. fs_base_lba + e.lba_off < 2 ^ 32) es
    → HoldsFiles sector i es
    → parse_entries sector i (length es) ≡ (es, true)
unfolding parse_entries
parse_entries_lem sector i [] p w h = refl
parse_entries_lem sector i (e ∷ es) p w h = rw (
  parse_entry_lem sector (i * dir_entry_size) e p.0 (omega (arith, w.0)) h.0,
  parse_entries_lem sector (i + 1) es p.1 w.1 h.1,
  parse_entries,
)

mount_directory-Image :
    (disk : Disk) (fs : Fs) (es : List DirEntry)
    → Image disk es
    → mount_directory disk fs (length es) ≡ (ok (length es), record fs { files = es })
unfolding mount_directory
mount_directory-Image disk fs es m = rw (
  m.reads_directory,
  parse_entries_lem m.directory 0 es m.proper m.words m.directory_holds,
  mount_directory,
)

mount-Image :
    (disk : Disk) (fs : Fs) (es : List DirEntry)
    → Image disk es
    → mount disk fs ≡ (ok (length es), record fs { files = es })
unfolding mount
mount-Image disk fs es m =
    let s = m.super_holds in
    let words = bytes_u32 version ++ bytes_u32 (length es) in
    let tail = Holds-append_right m.super 0 8 magic words refl s in
    let marked : slice m.super 0 8 ≡ magic =
      slice-Holds m.super 0 magic (Holds-append_left m.super 0 magic words s) in
    let versioned =
      read_u32_lem m.super 8 version (omega arith)
        (Holds-append_left m.super 8 (bytes_u32 version) (bytes_u32 (length es)) tail) in
    let counted =
      read_u32_lem m.super 12 (length es) (omega (arith, m.few))
        (Holds-append_right m.super 8 12 (bytes_u32 version) (bytes_u32 (length es)) refl tail) in
    let room : ltb max_files (length es) ≡ false = ground (arith, m.few) in
    rw (m.reads_super, mount)
      (rw (marked, same_bytes_refl magic, versioned, counted, room)
        (mount_directory-Image disk fs es m))

-- Mounting a disk with an image on it succeeds, and the files are those of the image, in order; what
-- was mounted before does not matter.
pub init-Image :
    (disk : Disk) (fs : Fs) (es : List DirEntry)
    → Image disk es
    → init disk fs ≡ (
      record { mounted = true; file_count = length es; detail = "mounted" },
      record { mounted = true; files = es },
    )
unfolding init finish
init-Image disk fs es m = rw (mount-Image disk (record fs { mounted = false }) es m, init)

length-upto_zero : (xs : List ℕ) → length (upto_zero xs) ≤ length xs
unfolding upto_zero
length-upto_zero [] = omega arith
length-upto_zero (x ∷ xs) = ground (arith, length-upto_zero xs)

parse_entry-Proper :
    (sector : Ram) (a : ℕ) (e : DirEntry) → parse_entry sector a ≡ some e → Proper e
unfolding parse_entry
parse_entry-Proper sector a e h =
    ground (arith, length-upto_zero (slice sector a name_len), length-slice sector a name_len)

parse_entries-Proper :
    (sector : Ram) (i n : ℕ)
    → All Proper (parse_entries sector i n).0 × (length (parse_entries sector i n).0 ≤ n)
unfolding parse_entries
parse_entries-Proper sector i zero = (tt, omega arith)
parse_entries-Proper sector i (suc n) =
    let rest = parse_entries-Proper sector (i + 1) n in
    elim (Option-cases (parse_entry sector (i * dir_entry_size))) [
      | inl e ↦ rw (e, parse_entries) (tt, omega arith)
      | inr (f, e) ↦
          rw (e, parse_entries) ((parse_entry-Proper sector _ f e, rest.0), omega (arith, rest.1))
    ]

-- The file table holds at most eight entries, each with a printable name of at most 32 bytes, a size
-- of at most 4096 bytes, and sectors behind the directory.
abbrev pub IsValid : Fs → Type 0
IsValid fs = All Proper fs.files × (length fs.files ≤ max_files)

mount_directory-IsValid :
    (disk : Disk) (fs : Fs) (n : ℕ)
    → n ≤ max_files
    → IsValid fs
    → IsValid (mount_directory disk fs n).1
unfolding mount_directory
mount_directory-IsValid disk fs n h v = elim (Outcome-cases (disk (fs_base_lba + 1) sector_size)) [
  | inl (e, k) ↦ rw (k, mount_directory) v
  | inr (sector, k) ↦
      let p = parse_entries-Proper sector 0 n in rw (k, mount_directory) (p.0, omega (arith, p.1))
]

mount-IsValid : (disk : Disk) (fs : Fs) → IsValid fs → IsValid (mount disk fs).1
unfolding mount
mount-IsValid disk fs v = elim (Outcome-cases (disk fs_base_lba sector_size)) [
  | inl (e, k) ↦ rw (k, mount) v
  | inr (sector, k) ↦
      let within : read_u32 sector 12 ≤ max_files
          → IsValid (mount_directory disk fs (read_u32 sector 12)).1 =
        λ h. mount_directory-IsValid disk fs (read_u32 sector 12) h v in
      rw (k, mount) (ground (arith, v, within))
]

finish-IsValid : (r : Outcome FsError ℕ) (fs : Fs) → IsValid fs → IsValid (finish r fs).1
unfolding finish
finish-IsValid (ok n) fs v = v
finish-IsValid (err e) fs v = v

-- Whatever the disk holds, and whether mounting succeeds or fails, a valid file table
-- stays valid.
pub init-IsValid : (disk : Disk) (fs : Fs) → IsValid fs → IsValid (init disk fs).1
unfolding init
init-IsValid disk fs v =
    let fresh = record fs { mounted = false } in
    finish-IsValid (mount disk fresh).0 (mount disk fresh).1 (mount-IsValid disk fresh v)
