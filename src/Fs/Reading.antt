-- ===== src/Fs/Reading.antt =====
-- Reading files: what `read_file` returns, and what it leaves in the caller's buffer.
use goatos.Base.{
  ℕ, zero, suc, ◌+◌, ◌^◌, ◌≤◌, ◌<◌, ◌≡◌, ◌≢◌, ◌⊎◌, inl, inr, refl, sym, subst, ◌∙◌, true, false,
  ◌||◌, some, List, [], ◌∷◌, ◌++◌, arith, ◌==◌, ltb, leb, length, get_elem?, drop, All, Bool-cases,
}
use goatos.Memory.Ram.{Ram}
use goatos.Fs.{
  AtaError, Disk, DirEntry, Fs, Outcome, ok, err, max_file_size, name_len, fs_base_lba, slice,
  same_bytes, find_file, transfer_of, read_entry, read_file, init,
}
use goatos.Fs.Image.{Proper, Image, Stored, Outcome-cases, slice-Holds, same_bytes_refl}
use goatos.Fs.Mounting.{init-Image}
use goatos.Fs.Answers.{
  same_bytes_sound, find_file-cases, Found, Asked, Reads, Answered, slice-Copied,
}

-- No two entries have the same name.
abbrev pub DistinctNames : List DirEntry → Type 0
DistinctNames [] = Unit {0}
DistinctNames (e ∷ es) = All (λ f. e.name ≢ f.name) es × DistinctNames es

All-get_elem? :
    (P : DirEntry → Type 0) (es : List DirEntry) (k : ℕ) (e : DirEntry)
    → All P es
    → get_elem? es k ≡ some e
    → P e
All-get_elem? P [] k e h g = ground arith
All-get_elem? P (x ∷ es) zero e h g = subst P (ground (arith, g)) h.0
All-get_elem? P (x ∷ es) (suc k) e h g = All-get_elem? P es k e h.1 g

find_file-get_elem? :
    (es : List DirEntry) (k : ℕ) (e : DirEntry)
    → DistinctNames es
    → get_elem? es k ≡ some e
    → find_file es e.name ≡ some e
unfolding find_file
find_file-get_elem? [] k e d g = ground arith
find_file-get_elem? (x ∷ es) zero e d g =
    let here : x ≡ e = ground (arith, g) in
    subst (λ y. find_file (y ∷ es) e.name ≡ some e) (sym here)
      (rw (same_bytes_refl e.name, find_file))
find_file-get_elem? (x ∷ es) (suc k) e d g = elim (Bool-cases (same_bytes x.name e.name)) [
  | inl same ↦
      absurd
        (All-get_elem? (λ f. x.name ≢ f.name) es k e d.0 g (same_bytes_sound x.name e.name same))
  | inr other ↦ rw (other, find_file) (find_file-get_elem? es k e d.1 g)
]

length-zero : (xs : List ℕ) → length xs ≡ 0 → xs ≡ []
length-zero [] h = refl
length-zero (x ∷ xs) h = absurd (omega arith)

read_entry-Stored :
    (disk : Disk) (e : DirEntry) (contents buf : List ℕ)
    → e.size ≤ max_file_size
    → fs_base_lba + e.lba_off < 2 ^ 32
    → Stored disk e contents
    → e.size ≤ length buf
    → read_entry disk e buf ≡ some (ok e.size, contents ++ drop e.size buf)
unfolding read_entry
read_entry-Stored disk e contents buf small word s room = elim (Bool-cases (e.size == 0)) [
  | inl empty ↦
      let none_left : e.size ≡ 0 = ground (arith, empty) in
      rw (none_left, length-zero contents (s.whole ∙ none_left), read_entry) (ground arith)
  | inr some_bytes ↦
      let cut : slice s.sectors 0 e.size ≡ contents =
        subst (λ n. slice s.sectors 0 n ≡ contents) s.whole
          (slice-Holds s.sectors 0 contents s.sectors_hold) in
      let fits : ltb (length buf) e.size || ltb max_file_size e.size ≡ false = ground arith in
      let under : leb (2 ^ 32) (fs_base_lba + e.lba_off) ≡ false = ground (arith, word) in
      rw (fits, some_bytes, under, s.reads_sectors (ground (arith, some_bytes)), cut, read_entry)
]

-- On a disk with an image whose names are all different, after `init` any of its files can be read
-- by its name into a buffer that is large enough: the result is the file's size, and the buffer holds
-- the file's bytes in front and what it held before behind them.
pub init-read_file :
    (disk : Disk) (fs : Fs) (es : List DirEntry) (k : ℕ) (e : DirEntry) (contents buf : List ℕ)
    → Image disk es
    → DistinctNames es
    → get_elem? es k ≡ some e
    → Stored disk e contents
    → e.size ≤ length buf
    → read_file disk (init disk fs).1 e.name buf ≡ some (ok e.size, contents ++ drop e.size buf)
unfolding read_file
init-read_file disk fs es k e contents buf m d g s room =
    let p = All-get_elem? Proper es k e m.proper g in
    let w = All-get_elem? (λ f. fs_base_lba + f.lba_off < 2 ^ 32) es k e m.words g in
    let name_fits : (length e.name == 0) || ltb name_len (length e.name) ≡ false =
      ground (arith, p) in
    rw (init-Image disk fs es m, read_file)
      (rw (name_fits, find_file-get_elem? es k e d g)
        (read_entry-Stored disk e contents buf p.3 w s room))

module _ (disk : Disk) (fs : Fs) (name buf : List ℕ) where
  Reads_lem :
      (e : DirEntry) (answer : Outcome AtaError Ram)
      → e.size ≢ 0
      → leb (2 ^ 32) (fs_base_lba + e.lba_off) ≡ false
      → disk (fs_base_lba + e.lba_off) (transfer_of e.size) ≡ answer
      → Reads disk e answer
  unfolding transfer_of
  Reads_lem e answer full word k =
      (transfer_of e.size, omega arith, omega arith, omega (arith, full), ground (arith, word), k)

  read_entry-Answered :
      (e : DirEntry) → Found fs name e → Answered disk fs name buf (read_entry disk e buf)
  unfolding read_entry
  read_entry-Answered e f =
      elim (Bool-cases (ltb (length buf) e.size || ltb max_file_size e.size)) [
        | inl big ↦ rw (big, read_entry) (e, f, ground (arith, big), refl)
        | inr fits ↦ elim (Bool-cases (e.size == 0)) [
          | inl empty ↦ rw (fits, empty, read_entry) (e, f, ground (arith, empty), inl (refl, refl))
          | inr full ↦
              let asked : Asked e buf =
                ((λ z. ground (arith, full, z)), ground (arith, fits), ground (arith, fits)) in
              let word = leb (2 ^ 32) (fs_base_lba + e.lba_off) in
              elim (Bool-cases word) [
                | inl over ↦ rw (fits, full, over, read_entry) (e, f, asked, ground (arith, over))
                | inr under ↦
                    elim (Outcome-cases (disk (fs_base_lba + e.lba_off) (transfer_of e.size))) [
                      | inl (x, k) ↦
                          rw (fits, full, under, k, read_entry)
                            (e, f, asked, Reads_lem e (err x) asked.0 under k, refl)
                      | inr (sectors, k) ↦
                          rw (fits, full, under, k, read_entry)
                            (
                              e,
                              f,
                              refl,
                              inr (
                                asked,
                                sectors,
                                Reads_lem e (ok sectors) asked.0 under k,
                                slice-Copied sectors e.size buf asked.1,
                              ),
                            )
                    ]
              ]
        ]
      ]

  read_file-found :
      (e : DirEntry)
      → fs.mounted ≡ true
      → length name == 0 || ltb name_len (length name) ≡ false
      → find_file fs.files name ≡ some e
      → read_file disk fs name buf ≡ read_entry disk e buf
  unfolding read_file
  read_file-found e on good f = rw (on, good, f, read_file)

  -- For any disk, table of files, name and buffer: `read_file` answers that nothing is mounted just when
  -- that is so; else that there is no such file, where the name is empty, longer than 32 bytes, or no
  -- file's; else, for the first file of that name, that it is too large, where it does not fit into the
  -- buffer or into 4096 bytes; else it reads. An empty file gives 0 without a read. For any other the disk
  -- is asked for the file's sectors, counted from the start of the file system, as many whole ones as hold
  -- the file: an error of the disk is passed on, and success gives the file's size, with the bytes of the
  -- sectors in front of the buffer, whose length and remainder stay. Every error leaves the buffer as it
  -- was. If the sector's number does not fit into 32 bits, it panics instead, and only then.
  pub read_file-Answered : Answered disk fs name buf (read_file disk fs name buf)
  unfolding read_file
  read_file-Answered = elim (Bool-cases fs.mounted) [
    | inr off ↦ rw (off, read_file) (refl, refl)
    | inl on ↦ elim (Bool-cases (length name == 0 || ltb name_len (length name))) [
      | inl bad ↦
          let unusable : (length name ≡ 0) ⊎ (32 < length name) = ground (arith, bad) in
          rw (on, bad, read_file)
            (refl, elim unusable [ inl z ↦ inl z | inr l ↦ inr (inl l) ], refl)
      | inr good ↦ elim (find_file-cases fs.files name) [
        | inl (missing, all) ↦ rw (on, good, missing, read_file) (refl, inr (inr all), refl)
        | inr (e, f, first) ↦
            subst (Answered disk fs name buf) (sym (read_file-found e on good f)) (
              read_entry-Answered e
                (on, (λ z. ground (arith, good, z)), ground (arith, good), first))
      ]
    ]
  ]
