-- ===== src/Fs/Answers.antt =====
-- The answers that `read_file` has for a name and a buffer.
use goatos.Base.{
  ℕ, zero, suc, ◌+◌, ◌%◌, ◌^◌, ◌≤◌, ◌<◌, ◌≡◌, ◌≢◌, ◌⊎◌, inl, inr, refl, ap, ap₂, subst, ◌∙◌, true,
  false, Option, none, some, List, [], ◌∷◌, ◌++◌, arith, length, length-append, get_elem?, drop,
  All, Bool-cases,
}
use goatos.Memory.Ram.{Ram}
use goatos.Fs.{
  AtaError, Disk, DirEntry, Fs, FsError, Outcome, ok, err, ata, not_mounted, not_found, too_large,
  bad_superblock, bad_directory, slice, same_bytes, find_file,
}
use goatos.Fs.Image.{length-slice, same_bytes_refl}

pub same_bytes_sound : (xs ys : List ℕ) → same_bytes xs ys ≡ true → xs ≡ ys
unfolding same_bytes
same_bytes_sound [] [] h = refl
same_bytes_sound [] (y ∷ ys) h = ground arith
same_bytes_sound (x ∷ xs) [] h = ground arith
same_bytes_sound (x ∷ xs) (y ∷ ys) h =
    ap₂ ◌∷◌ (ground arith) (same_bytes_sound xs ys (ground arith))

-- The first entry with this name.
abbrev pub IsFirst : List DirEntry → List ℕ → DirEntry → Type 0
IsFirst [] name e = ⊥
IsFirst (x ∷ xs) name e = ((x.name ≡ name) × (x ≡ e)) ⊎ ((x.name ≢ name) × IsFirst xs name e)

pub find_file-cases :
    (es : List DirEntry) (name : List ℕ)
    → ((find_file es name ≡ none) × All (λ e. e.name ≢ name) es)
      ⊎ ((e : DirEntry) × (find_file es name ≡ some e) × IsFirst es name e)
unfolding find_file
find_file-cases [] name = inl (refl, tt)
find_file-cases (x ∷ xs) name = elim (Bool-cases (same_bytes x.name name)) [
  | inl e ↦ rw (e, find_file) (inr (x, refl, inl (same_bytes_sound x.name name e, refl)))
  | inr e ↦
      let other : x.name ≢ name = λ same.
        ground (arith, e, subst (λ n. same_bytes x.name n ≡ true) same (same_bytes_refl x.name)) in
      elim (find_file-cases xs name) [
        | inl (f, all) ↦ rw (e, f, find_file) (inl (refl, (other, all)))
        | inr (y, f, first) ↦ rw (e, f, find_file) (inr (y, refl, inr (other, first)))
      ]
]

-- The name is one that a file can have, the file system is mounted, and this entry is the file's.
abbrev pub Found : Fs → List ℕ → DirEntry → Type 0
Found fs name e =
    (fs.mounted ≡ true) × (length name ≢ 0) × (length name ≤ 32) × IsFirst fs.files name e

-- The file has contents, of a size that the buffer and the file system allow for.
abbrev pub Asked : DirEntry → List ℕ → Type 0
Asked e buf = (e.size ≢ 0) × (e.size ≤ length buf) × (e.size ≤ 4096)

-- The disk was asked for the whole sectors of the file, from the one that the entry names on.
abbrev pub Reads : Disk → DirEntry → Outcome AtaError Ram → Type 0
Reads disk e answer =
    (count : ℕ) × (count % 512 ≡ 0)
    × (e.size ≤ count)
    × (count < e.size + 512)
    × (2048 + e.lba_off < 2 ^ 32)
    × (disk (2048 + e.lba_off) count ≡ answer)

-- The first `n` bytes of the buffer are those of the sectors, its length and its other bytes stay.
abbrev pub Copied : Ram → ℕ → List ℕ → List ℕ → Type 0
Copied sectors n buf b =
    (length b ≡ length buf)
    × ((i : ℕ) → i < n → get_elem? b i ≡ some (sectors i))
    × (drop n b ≡ drop n buf)

-- What `read_file` answers, nothing standing for a panic.
abbrev pub Answered : Disk → Fs → List ℕ → List ℕ → Option (Outcome FsError ℕ × List ℕ) → Type 0
Answered disk fs name buf none =
    (e : DirEntry) × Found fs name e × Asked e buf × (2 ^ 32 ≤ 2048 + e.lba_off)
Answered disk fs name buf (some (err not_mounted, b)) = (fs.mounted ≡ false) × (b ≡ buf)
Answered disk fs name buf (some (err not_found, b)) =
    (fs.mounted ≡ true)
    × ((length name ≡ 0) ⊎ (32 < length name) ⊎ All (λ e. e.name ≢ name) fs.files)
    × (b ≡ buf)
Answered disk fs name buf (some (err too_large, b)) =
    (e : DirEntry) × Found fs name e × ((length buf < e.size) ⊎ (4096 < e.size)) × (b ≡ buf)
Answered disk fs name buf (some (err (ata x), b)) =
    (e : DirEntry) × Found fs name e × Asked e buf × Reads disk e (err x) × (b ≡ buf)
Answered disk fs name buf (some (err bad_superblock, b)) = ⊥
Answered disk fs name buf (some (err bad_directory, b)) = ⊥
Answered disk fs name buf (some (ok n, b)) =
    (e : DirEntry) × Found fs name e
    × (n ≡ e.size)
    × (((n ≡ 0) × (b ≡ buf))
        ⊎ (Asked e buf × (sectors : Ram) × Reads disk e (ok sectors) × Copied sectors n buf b))

zero_plus : (i : ℕ) → 0 + i ≡ i
zero_plus i = omega arith

length-drop : (n : ℕ) (xs : List ℕ) → n ≤ length xs → n + length (drop n xs) ≡ length xs
length-drop zero xs h = omega arith
length-drop (suc n) [] h = absurd (omega arith)
length-drop (suc n) (x ∷ xs) h = omega (arith, length-drop n xs (omega arith))

drop-append : (xs ys : List ℕ) → drop (length xs) (xs ++ ys) ≡ ys
drop-append [] ys = refl
drop-append (x ∷ xs) ys = drop-append xs ys

get_elem?-slice :
    (ram : Ram) (a n i : ℕ) (ys : List ℕ)
    → i < n
    → get_elem? (slice ram a n ++ ys) i ≡ some (ram (a + i))
unfolding slice
get_elem?-slice ram a zero i ys lt = absurd (omega arith)
get_elem?-slice ram a (suc n) zero ys lt = rw (plus_zero a) refl
  where
    plus_zero : (a : ℕ) → a + 0 ≡ a
    plus_zero a = omega arith
get_elem?-slice ram a (suc n) (suc i) ys lt =
    rw (plus_suc a i) (get_elem?-slice ram (suc a) n i ys (omega arith))
  where
    plus_suc : (a i : ℕ) → a + suc i ≡ suc a + i
    plus_suc a i = omega arith

pub slice-Copied :
    (sectors : Ram) (n : ℕ) (buf : List ℕ)
    → n ≤ length buf
    → Copied sectors n buf (slice sectors 0 n ++ drop n buf)
slice-Copied sectors n buf h = (
  length-append (slice sectors 0 n) (drop n buf)
      ∙ omega (arith, length-slice sectors 0 n, length-drop n buf h),
  (λ i lt.
      get_elem?-slice sectors 0 n i (drop n buf) lt ∙ ap (λ p. some (sectors p)) (zero_plus i)),
  subst (λ m. drop m (slice sectors 0 n ++ drop n buf) ≡ drop n buf) (length-slice sectors 0 n)
      (drop-append (slice sectors 0 n) (drop n buf)),
)
