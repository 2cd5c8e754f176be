-- ===== src/Fs.antt =====
-- The read-only file system of kernel/src/fs.rs: `init` and `mount` read the superblock and the
-- directory, `read_file` copies a file's bytes out. A `DirEntry` keeps its name as a list, which
-- stands for the array and `name_len`; the state keeps the first `file_count` entries. The disk is
-- the function `read_lba` of kernel/src/ata.rs, a parameter here.
pub mod Image
pub mod Mounting
pub mod Answers
pub mod Reading
mod Tests
use Prim.Native.String.{String}
use goatos.Base.{
  ℕ, zero, suc, ◌+◌, ◌-◌, ◌*◌, ◌/◌, ◌%◌, ◌^◌, Bool, true, false, not, ◌&&◌, ◌||◌, Option, none,
  some, List, [], ◌∷◌, ◌++◌, ◌==◌, ltb, leb, if◌then◌else◌, length, take, drop,
}
use goatos.Memory.Ram.{Ram, read_u32}
pub use goatos.Ata.{
  AtaError, not_present, timeout, drive_error, bad_argument, Outcome, ok, err, sector_size,
}

abbrev pub fs_base_lba : ℕ
fs_base_lba = 2048

-- `GOATFS01`
abbrev pub magic : List ℕ
magic = b'G' ∷ b'O' ∷ b'A' ∷ b'T' ∷ b'F' ∷ b'S' ∷ b'0' ∷ b'1' ∷ []

abbrev pub version : ℕ
version = 1

abbrev pub max_files : ℕ
max_files = 8

abbrev pub max_file_size : ℕ
max_file_size = 4096

abbrev pub name_len : ℕ
name_len = 32

abbrev pub dir_entry_size : ℕ
dir_entry_size = 64

pub data FsError : Type 0 where
  ata : AtaError → FsError
  bad_superblock bad_directory not_mounted not_found too_large : FsError

-- `read_lba`: the number of the first sector and the length of the buffer to the buffer's bytes.
abbrev pub Disk : Type 0
Disk = ℕ → ℕ → Outcome AtaError Ram

pub record DirEntry : Type 0 where
  pub name : List ℕ
  pub size : ℕ
  pub lba_off : ℕ

-- The statics `MOUNTED` and `FS`.
pub record Fs : Type 0 where
  pub mounted : Bool
  pub files : List DirEntry

pub record Banner : Type 0 where
  pub mounted : Bool
  pub file_count : ℕ
  pub detail : String

-- `bytes[from..from + count]`
unfoldable pub slice : Ram → ℕ → ℕ → List ℕ
slice bytes from zero = []
slice bytes from (suc count) = bytes from ∷ slice bytes (suc from) count

unfoldable pub same_bytes : List ℕ → List ℕ → Bool
same_bytes [] [] = true
same_bytes [] (y ∷ ys) = false
same_bytes (x ∷ xs) [] = false
same_bytes (x ∷ xs) (y ∷ ys) = x == y && same_bytes xs ys

-- The bytes before the first zero.
unfoldable pub upto_zero : List ℕ → List ℕ
upto_zero [] = []
upto_zero (x ∷ xs) = if x == 0 then [] else x ∷ upto_zero xs

unfoldable pub all_printable : List ℕ → Bool
all_printable [] = true
all_printable (x ∷ xs) = leb b'!' x && leb x b'~' && all_printable xs

-- The body of the loop in `mount`, on the entry at the offset `off`.
unfoldable pub parse_entry : Ram → ℕ → Option DirEntry
unfolding upto_zero all_printable
parse_entry sector off =
    let name = upto_zero (slice sector off name_len) in
    let size = read_u32 sector (off + 32) in
    let lba_off = read_u32 sector (off + 36) in
    if length name == 0
    then none
    else if not (all_printable name)
    then none
    else if ltb max_file_size size || ltb lba_off 2
    then none
    else some (record { name = name; size = size; lba_off = lba_off })

-- The loop in `mount` from entry `i` on, with `left` entries to go: the entries up to the first bad
-- one, and whether all were good.
unfoldable pub parse_entries : Ram → ℕ → ℕ → List DirEntry × Bool
unfolding parse_entry
parse_entries sector i zero = ([], true)
parse_entries sector i (suc left) =
    let (rest, good) = parse_entries sector (i + 1) left in
    elim (parse_entry sector (i * dir_entry_size)) [
      | none ↦ ([], false)
      | some entry ↦ (entry ∷ rest, good)
    ]

-- `mount` once the superblock has been read.
unfoldable pub mount_directory : Disk → Fs → ℕ → Outcome FsError ℕ × Fs
unfolding parse_entries
mount_directory disk fs file_count = elim (disk (fs_base_lba + 1) sector_size) [
  | err e ↦ (err (ata e), fs)
  | ok sector ↦
      let (files, good) = parse_entries sector 0 file_count in
      (if good then ok (length files) else err bad_directory, record fs { files = files })
]

unfoldable pub mount : Disk → Fs → Outcome FsError ℕ × Fs
unfolding mount_directory
mount disk fs = elim (disk fs_base_lba sector_size) [
  | err e ↦ (err (ata e), fs)
  | ok sector ↦
      let file_count = read_u32 sector 12 in
      if not (same_bytes (slice sector 0 8) magic)
      then (err bad_superblock, fs)
      else if not (read_u32 sector 8 == version) || ltb max_files file_count
      then (err bad_superblock, fs)
      else mount_directory disk fs file_count
]

unfoldable pub failure : FsError → String
failure (ata not_present) = "no ata drive"
failure (ata timeout) = "ata timeout"
failure bad_superblock = "bad superblock"
failure _ = "mount failed"

unfoldable pub finish : Outcome FsError ℕ → Fs → Banner × Fs
unfolding failure
finish (ok count) fs = (
  record { mounted = true; file_count = count; detail = "mounted" },
  record fs { mounted = true },
)
finish (err e) fs = (record { mounted = false; file_count = 0; detail = failure e }, fs)

unfoldable pub init : Disk → Fs → Banner × Fs
unfolding finish mount
init disk fs =
    let (result, after) = mount disk (record fs { mounted = false }) in finish result after

-- `files.iter().find(…)`
unfoldable pub find_file : List DirEntry → List ℕ → Option DirEntry
find_file [] name = none
find_file (e ∷ es) name =
    let rest = find_file es name in if same_bytes e.name name then some e else rest

-- `size.div_ceil(SECTOR_SIZE) * SECTOR_SIZE`
unfoldable pub transfer_of : ℕ → ℕ
transfer_of size = (size + 511) / 512 * sector_size

-- The end of `read_file`, for the file found: the result, and what `buf` holds then. Nothing stands for
-- the panic of the sum for the sector's number, a `u32`, in the default build, which checks for overflow.
unfoldable pub read_entry : Disk → DirEntry → List ℕ → Option (Outcome FsError ℕ × List ℕ)
unfolding transfer_of
read_entry disk e buf =
    if ltb (length buf) e.size || ltb max_file_size e.size
    then some (err too_large, buf)
    else if e.size == 0
    then some (ok 0, buf)
    else if leb (2 ^ 32) (fs_base_lba + e.lba_off)
    then none
    else elim (disk (fs_base_lba + e.lba_off) (transfer_of e.size)) [
      | err x ↦ some (err (ata x), buf)
      | ok scratch ↦ some (ok e.size, slice scratch 0 e.size ++ drop e.size buf)
    ]

unfoldable pub read_file : Disk → Fs → List ℕ → List ℕ → Option (Outcome FsError ℕ × List ℕ)
unfolding find_file read_entry
read_file disk fs name buf =
    if not fs.mounted
    then some (err not_mounted, buf)
    else if length name == 0 || ltb name_len (length name)
    then some (err not_found, buf)
    else elim (find_file fs.files name) [
      | none ↦ some (err not_found, buf)
      | some e ↦ read_entry disk e buf
    ]
