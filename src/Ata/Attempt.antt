-- ===== src/Ata/Attempt.antt =====
-- A call of `read_lba`, from the check of its arguments to the end of the transfer.
use goatos.Base.{
  ℕ, ◌+◌, ◌/◌, ◌%◌, ◌^◌, ◌≤◌, ◌<◌, ◌≡◌, ◌≢◌, ◌⊎◌, inl, inr, refl, subst, ap₂, ◌∙◌, bit_or, Bool,
  true, false, not, ◌||◌, List, [], ◌∷◌, ◌==◌, ltb, if◌then◌else◌, length, arith, Bool-cases,
  ==_iff,
}
use goatos.Base.Bytes.{passes_below, passes_below_sound}
use goatos.Ata.{
  err, timeout, not_present, bad_argument, wrote, Trace, Bus, Transfer, fail, status_cmd,
  sector_count, lba_lo, lba_mid, lba_hi, drive_head, drive_master_lba, status_bsy, sector_size,
  spin_limit, outb, wait_while, start, read_sectors, read_pio, read_lba,
}
use goatos.Ata.Waiting.{BusyFor, FreeAfter, GoneAfter, Waited, Waited-err, wait_while-Waited}
use goatos.Ata.Reading.{Quiet, Filled, wait_while-Quiet, read_sectors-Filled, Outcome-cases}

-- What the doc of `read_lba` asks of its arguments: whole sectors, one to 256 of them, and 28 bits.
abbrev pub IsRequest : ℕ → List ℕ → Type 0
IsRequest lba buf =
    (length buf ≢ 0) × (length buf % 512 ≡ 0) × (length buf / 512 ≤ 256) × (lba < 2 ^ 28)

-- READ SECTORS of the ATA standard, latest write first: the four parts of the address, the top one
-- beside the bits that select the drive, and the count, 0 for 256.
abbrev pub command : ℕ → ℕ → List (ℕ × ℕ)
command lba count =
    (status_cmd, 0x20)
    ∷ (lba_hi, lba / 2 ^ 16 % 2 ^ 8)
    ∷ (lba_mid, lba / 2 ^ 8 % 2 ^ 8)
    ∷ (lba_lo, lba % 2 ^ 8)
    ∷ (sector_count, count % 2 ^ 8)
    ∷ (drive_head, 0xe0 + lba / 2 ^ 24)
    ∷ []

-- The trace goes on by these writes, latest first, and no read.
pub issued : List (ℕ × ℕ) → Trace → Trace
issued [] t = t
issued ((port, value) ∷ ws) t = wrote port value ∷ issued ws t

-- What a call can come to.
pub data Attempt (present : Bool) (lba : ℕ) (buf : List ℕ) (t : Trace) (r : Transfer) : Type 0 where
  malformed : ¬ IsRequest lba buf → r ≡ fail bad_argument buf t → Attempt present lba buf t r
  absent :
      IsRequest lba buf → present ≡ false → r ≡ fail not_present buf t → Attempt present lba buf t r
  busy :
      IsRequest lba buf
      → present ≡ true
      → r.result ≡ err timeout
      → r.buf ≡ buf
      → BusyFor spin_limit t r.trace ⊎ GoneAfter spin_limit t r.trace
      → Quiet t r.trace
      → Attempt present lba buf t r
  started :
      IsRequest lba buf
      → present ≡ true
      → (u : Trace) → FreeAfter spin_limit t u
      → Quiet t u
      → Filled (length buf / 512) buf (issued (command lba (length buf / 512)) u) r
      → Attempt present lba buf t r

head_table : passes_below (λ x. bit_or drive_master_lba x == 0xe0 + x) 16 ≡ true
unfolding passes_below
head_table = refl

head_lem : (x : ℕ) → x < 16 → bit_or drive_master_lba x ≡ 0xe0 + x
head_lem x lt =
    (==_iff _ _).0
      (passes_below_sound (λ y. bit_or drive_master_lba y == 0xe0 + y) 16 x lt head_table)

start_lem :
    (t : Trace) (lba count : ℕ)
    → lba < 2 ^ 28
    → count ≤ 256
    → start t lba (if count == 256 then 0 else count % 2 ^ 8) ≡ issued (command lba count) t
unfolding start outb issued
start_lem t lba count lt le =
    let count_byte : (if count == 256 then 0 else count % 2 ^ 8) ≡ count % 2 ^ 8 =
      ground (arith, le) in
    let head : bit_or drive_master_lba (lba / 2 ^ 24 % 2 ^ 8 % 2 ^ 4) ≡ 0xe0 + lba / 2 ^ 24 =
      head_lem (lba / 2 ^ 24 % 2 ^ 8 % 2 ^ 4) (omega arith) ∙ omega (arith, lt) in
    ap₂
      (λ c h.
        wrote status_cmd 0x20
        ∷ wrote lba_hi (lba / 2 ^ 16 % 2 ^ 8)
        ∷ wrote lba_mid (lba / 2 ^ 8 % 2 ^ 8)
        ∷ wrote lba_lo (lba % 2 ^ 8)
        ∷ wrote sector_count c
        ∷ wrote drive_head h
        ∷ t)
      count_byte head

module _ (bus : Bus) (lba : ℕ) (buf : List ℕ) (t : Trace) where
  read_pio-Attempt :
      IsRequest lba buf → Attempt true lba buf t (read_pio bus lba (length buf / 512) buf t)
  unfolding read_pio
  read_pio-Attempt q =
      let count = length buf / 512 in
      let waited = wait_while bus status_bsy status_bsy spin_limit t in
      let wait = wait_while-Waited bus spin_limit t in
      let quiet = wait_while-Quiet bus status_bsy status_bsy spin_limit t in
      elim (Outcome-cases waited.0) [
        | inl (e, f) ↦
            rw (f, read_pio)
              (busy q refl refl refl
                (Waited-err spin_limit t waited.1 e
                  (subst (λ o. Waited spin_limit t (o, waited.1)) f wait))
                quiet)
        | inr f ↦
            let count_byte = if count == 256 then 0 else count % 2 ^ 8 in
            let begun = start_lem waited.1 lba count q.3 q.2 in
            rw (f, read_pio)
              (started q refl waited.1 (subst (λ o. Waited spin_limit t (o, waited.1)) f wait) quiet
                (subst
                  (λ s.
                    Filled count buf s (read_sectors bus count buf (start waited.1 lba count_byte)))
                  begun (read_sectors-Filled bus count buf (start waited.1 lba count_byte))))
      ]

  -- For every device, a call whose arguments are no request is refused, and one without a drive fails,
  -- both before any access to a port. Else the status is polled. The call times out, having written
  -- nothing and read nothing else, where two million polls in a row find the drive busy, or an earlier
  -- one, after busy ones only, finds that nothing drives the bus. Where an earlier poll, after busy ones
  -- only, finds the drive there and free, the very next accesses are the six writes of one READ SECTORS
  -- command for this address and count, and no further write is made. Then the buffer holds the words
  -- that came from the data port, 256 for each sector, low byte first, its remainder as it was: all
  -- sectors on success, fewer on a timeout or a drive error. The words of a sector are read in one go,
  -- right after two polls of which the first found data, no error and a drive that is not busy, and the
  -- second no error; besides them and the polls nothing is read.
  pub read_lba-Attempt :
      (present : Bool) → Attempt present lba buf t (read_lba bus present lba buf t)
  unfolding read_lba
  read_lba-Attempt present =
      elim (Bool-cases (length buf == 0 || not (length buf % sector_size == 0))) [
        | inl e ↦ rw (e, read_lba) (malformed (λ q. ground (arith, e, q)) refl)
        | inr e ↦
            elim (Bool-cases (ltb 256 (length buf / sector_size) || not (lba / 2 ^ 28 == 0))) [
              | inl f ↦ rw (e, f, read_lba) (malformed (λ q. ground (arith, f, q)) refl)
              | inr f ↦
                  let q : IsRequest lba buf =
                    (ground (arith, e), ground (arith, e), ground (arith, f), ground (arith, f)) in
                  let some_sector : (length buf / sector_size == 0) ≡ false = ground (arith, q) in
                  elim (Bool-cases present) [
                    | inr p ↦ rw (e, f, some_sector, p, read_lba) (absent q refl refl)
                    | inl p ↦ rw (e, f, some_sector, p, read_lba) (read_pio-Attempt q)
                  ]
            ]
      ]
