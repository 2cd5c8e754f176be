-- ===== src/Fs/Tests.antt =====
-- A disk with two files, and the theorems about it.
use goatos.Base.{
  ℕ, ◌≡◌, refl, false, ◌==◌, if◌then◌else◌, some, List, [], ◌∷◌, ◌++◌, arith, get_or, replicate,
}
use goatos.Memory.Ram.{Ram}
use goatos.Fs.{Disk, DirEntry, Fs, ok, err, not_present, all_printable, init, read_file}
use goatos.Fs.Image.{Image, Stored, entry_bytes, super_bytes}
use goatos.Fs.Mounting.{IsValid, init-IsValid}
use goatos.Fs.Reading.{init-read_file, read_file-Answered}
use goatos.Fs.Answers.{Answered}

-- `a`, of three bytes in the sector 3, and the empty file `b`.
abbrev files : List DirEntry
files =
    record { name = b'a' ∷ []; size = 3; lba_off = 3 }
    ∷ record { name = b'b' ∷ []; size = 0; lba_off = 4 }
    ∷ []

abbrev bytes : List ℕ → Ram
bytes l i = get_or l i 0

abbrev directory : List ℕ
directory =
    entry_bytes (record { name = b'a' ∷ []; size = 3; lba_off = 3 })
    ++ (replicate 24 0 ++ entry_bytes (record { name = b'b' ∷ []; size = 0; lba_off = 4 }))

abbrev disk : Disk
disk lba size =
    if lba == 2048
    then ok (bytes (super_bytes 2))
    else if lba == 2049
    then ok (bytes directory)
    else if lba == 2051
    then ok (bytes (7 ∷ 8 ∷ 9 ∷ []))
    else err not_present

abbrev off : Fs
off = record { mounted = false; files = [] }

files-Image : Image disk files
unfolding all_printable
files-Image = record {
  super = bytes (super_bytes 2);
  directory = bytes directory;
  reads_super = refl;
  reads_directory = refl;
  super_holds = ground arith;
  directory_holds = ground arith;
  proper = ground arith;
  words = ground arith;
  few = omega arith;
}

first-Stored : Stored disk (record { name = b'a' ∷ []; size = 3; lba_off = 3 }) (7 ∷ 8 ∷ 9 ∷ [])
first-Stored = record {
  sectors = bytes (7 ∷ 8 ∷ 9 ∷ []);
  reads_sectors = λ h. refl;
  sectors_hold = ground arith;
  whole = refl;
}

init-IsValid_example : IsValid (init (λ lba size. err not_present) off).1
init-IsValid_example = init-IsValid (λ lba size. err not_present) off (tt, omega arith)

init-read_file_example :
    read_file disk (init disk off).1 (b'a' ∷ []) (0 ∷ 0 ∷ 0 ∷ 5 ∷ [])
    ≡ some (ok 3, 7 ∷ 8 ∷ 9 ∷ 5 ∷ [])
init-read_file_example =
    init-read_file disk off files 0 (record { name = b'a' ∷ []; size = 3; lba_off = 3 })
      (7 ∷ 8 ∷ 9 ∷ []) (0 ∷ 0 ∷ 0 ∷ 5 ∷ []) files-Image (ground arith) refl first-Stored
      (omega arith)

read_file-Answered_example :
    Answered disk
      (init disk off).1
      (b'a' ∷ [])
      (0 ∷ 0 ∷ 0 ∷ [])
      (read_file disk (init disk off).1 (b'a' ∷ []) (0 ∷ 0 ∷ 0 ∷ []))
read_file-Answered_example = read_file-Answered disk (init disk off).1 (b'a' ∷ []) (0 ∷ 0 ∷ 0 ∷ [])
