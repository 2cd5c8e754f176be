-- ===== src/Ata/Steady.antt =====
-- The driver at a drive whose status stays as it is: what the probe finds and how a read ends.
use goatos.Base.{
  ℕ, zero, suc, ◌+◌, ◌-◌, ◌/◌, ◌%◌, ◌^◌, ◌<◌, ◌≡◌, inl, inr, refl, ap, ◌∙◌, bit_and, Bool, true,
  false, not, ◌&&◌, ◌||◌, List, ◌==◌, ltb, if◌then◌else◌, length, drop, arith, Bool-cases,
}
use goatos.Ata.{
  ok, err, AtaError, timeout, not_present, drive_error, Trace, Bus, status_cmd, status_bsy,
  status_err, status_df, status_drq, sector_size, spin_limit, drive_head, drive_master_lba, outb,
  inb, wait_while, wait_for_drq, settle, init, start, read_words, read_sectors, read_pio, read_lba,
}
use goatos.Ata.Reading.{Outcome-cases}
use goatos.Ata.Attempt.{IsRequest}

-- The status has a sector ready: a drive that is there, not busy, without an error, with data.
abbrev pub has_sector : ℕ → Bool
has_sector status =
    not (status == 0xff)
    && (bit_and status status_bsy == 0
        && (bit_and status (status_err + status_df) == 0 && not (bit_and status status_drq == 0)))

module _ (bus : Bus) (status : ℕ) (byte : status < 2 ^ 8)
    (steady : (t : Trace) → bus t status_cmd ≡ status) where
  inb_lem : (t : Trace) → (inb bus t status_cmd).0 ≡ status
  unfolding inb
  inb_lem t = omega (arith, steady t, byte)

  -- A test of the status that is read is one of `status`.
  polled :
      {b : Bool} (t : Trace) (test : ℕ → Bool) → test status ≡ b → test (inb bus t status_cmd).0 ≡ b
  polled t test h = ap test (inb_lem t) ∙ h

  free_at_once :
      (left : ℕ) (t : Trace)
      → (status == 0xff) ≡ false
      → (bit_and status status_bsy == status_bsy) ≡ false
      → (wait_while bus status_bsy status_bsy (suc left) t).0 ≡ ok tt
  unfolding wait_while inb
  free_at_once left t e f =
      rw
        (
          polled t (λ s. s == 0xff) e,
          polled t (λ s. bit_and s status_bsy == status_bsy) f,
          wait_while,
        )
        refl

  never_free :
      (left : ℕ) (t : Trace)
      → (not (status == 0xff) && not (bit_and status status_bsy == status_bsy)) ≡ false
      → (e : AtaError) × ((wait_while bus status_bsy status_bsy left t).0 ≡ err e)
  unfolding wait_while inb
  never_free zero t h = (timeout, refl)
  never_free (suc left) t h = elim (Bool-cases (status == 0xff)) [
    | inl e ↦ rw (polled t (λ s. s == 0xff) e, wait_while) (not_present, refl)
    | inr e ↦ elim (Bool-cases (bit_and status status_bsy == status_bsy)) [
      | inl f ↦
          rw
            (
              polled t (λ s. s == 0xff) e,
              polled t (λ s. bit_and s status_bsy == status_bsy) f,
              wait_while,
            )
            (never_free left (inb bus t status_cmd).1 h)
      | inr f ↦ absurd (ground (arith, e, f, h))
    ]
  ]

  ready_at_once :
      (left : ℕ) (t : Trace) → has_sector status ≡ true → (wait_for_drq bus (suc left) t).0 ≡ ok tt
  unfolding wait_for_drq inb
  ready_at_once left t h =
      let e : (status == 0xff) ≡ false = ground (arith, h) in
      let f : (bit_and status status_bsy == 0) ≡ true = ground (arith, h) in
      let g : (bit_and status (status_err + status_df) == 0) ≡ true = ground (arith, h) in
      let d : (bit_and status status_drq == 0) ≡ false = ground (arith, h) in
      rw
        (
          polled t (λ s. s == 0xff) e,
          polled t (λ s. bit_and s status_bsy == 0) f,
          polled t (λ s. bit_and s (status_err + status_df) == 0) g,
          polled t (λ s. bit_and s status_drq == 0) d,
          wait_for_drq,
        )
        refl

  never_ready :
      (left : ℕ) (t : Trace)
      → has_sector status ≡ false
      → (e : AtaError) × ((wait_for_drq bus left t).0 ≡ err e)
  unfolding wait_for_drq inb
  never_ready zero t h = (timeout, refl)
  never_ready (suc left) t h =
      let again = never_ready left (inb bus t status_cmd).1 h in
      elim (Bool-cases (status == 0xff)) [
        | inl e ↦ rw (polled t (λ s. s == 0xff) e, wait_for_drq) (not_present, refl)
        | inr e ↦ elim (Bool-cases (bit_and status status_bsy == 0)) [
          | inr f ↦
              rw
                (
                  polled t (λ s. s == 0xff) e,
                  polled t (λ s. bit_and s status_bsy == 0) f,
                  wait_for_drq,
                )
                again
          | inl f ↦ elim (Bool-cases (bit_and status (status_err + status_df) == 0)) [
            | inr g ↦
                rw
                  (
                    polled t (λ s. s == 0xff) e,
                    polled t (λ s. bit_and s status_bsy == 0) f,
                    polled t (λ s. bit_and s (status_err + status_df) == 0) g,
                    wait_for_drq,
                  )
                  (drive_error, refl)
            | inl g ↦ elim (Bool-cases (bit_and status status_drq == 0)) [
              | inl d ↦
                  rw
                    (
                      polled t (λ s. s == 0xff) e,
                      polled t (λ s. bit_and s status_bsy == 0) f,
                      polled t (λ s. bit_and s (status_err + status_df) == 0) g,
                      polled t (λ s. bit_and s status_drq == 0) d,
                      wait_for_drq,
                    )
                    again
              | inr d ↦ absurd (ground (arith, e, f, g, d, h))
            ]
          ]
        ]
      ]

  read_sectors-ready :
      (count : ℕ) (buf : List ℕ) (t : Trace)
      → has_sector status ≡ true
      → (read_sectors bus count buf t).result ≡ ok tt
  unfolding read_sectors inb
  read_sectors-ready zero buf t h = refl
  read_sectors-ready (suc count) buf t h =
      let waited = wait_for_drq bus spin_limit t in
      let t' = (inb bus waited.1 status_cmd).1 in
      let g : (bit_and status (status_err + status_df) == 0) ≡ true = ground (arith, h) in
      rw
        (
          ready_at_once 1999999 t h,
          polled waited.1 (λ s. bit_and s (status_err + status_df) == 0) g,
          read_sectors,
        )
        (read_sectors-ready count (drop sector_size buf) (read_words bus 256 t').1 h)

  read_sectors-not_ready :
      (count : ℕ) (buf : List ℕ) (t : Trace)
      → has_sector status ≡ false
      → (read_sectors bus (suc count) buf t).result ≡ err timeout
  unfolding read_sectors inb
  read_sectors-not_ready count buf t h =
      let (e, f) = never_ready spin_limit t h in rw (f, read_sectors) refl

  -- A read whose wait for the drive ends early times out as well.
  read_pio-result :
      (lba count : ℕ) (buf : List ℕ) (t : Trace)
      → (read_pio bus lba (suc count) buf t).result
        ≡ (if has_sector status then ok tt else err timeout)
  unfolding read_pio
  read_pio-result lba count buf t = elim (Bool-cases (has_sector status)) [
    | inl h ↦
        let e : (status == 0xff) ≡ false = ground (arith, h) in
        let f : (bit_and status status_bsy == status_bsy) ≡ false = ground (arith, h) in
        rw (free_at_once 1999999 t e f, h, read_pio)
          (read_sectors-ready (suc count) buf (started t) h)
    | inr h ↦ elim (Outcome-cases (wait_while bus status_bsy status_bsy spin_limit t).0) [
      | inl (e, f) ↦ rw (f, h, read_pio) refl
      | inr f ↦ rw (f, h, read_pio) (read_sectors-not_ready count buf (started t) h)
    ]
  ]
    where
      started : Trace → Trace
      started u =
          start (wait_while bus status_bsy status_bsy spin_limit u).1 lba
            (if suc count == 256 then 0 else suc count % 2 ^ 8)

  init-present :
      (t : Trace)
      → (init bus t).0 ≡ (not (status == 0xff) && not (bit_and status status_bsy == status_bsy))
  unfolding init
  init-present t =
      let t' = settle bus 4 (outb t drive_head drive_master_lba) in
      elim (Bool-cases (status == 0xff)) [
        | inl e ↦ rw (polled t' (λ s. s == 0xff) e, e, init) refl
        | inr e ↦ elim (Bool-cases (bit_and status status_bsy == status_bsy)) [
          | inl f ↦
              let (x, g) = never_free spin_limit (inb bus t' status_cmd).1 (ground (arith, e, f)) in
              rw (polled t' (λ s. s == 0xff) e, g, e, f, init) refl
          | inr f ↦
              rw
                (
                  polled t' (λ s. s == 0xff) e,
                  free_at_once 1999999 (inb bus t' status_cmd).1 e f,
                  e,
                  f,
                  init,
                )
                refl
        ]
      ]

  -- Where the status register reads as the same byte every time, the probe finds a drive unless that
  -- byte is 0xff or has the busy bit, and for a request `read_lba` succeeds when the byte has a sector
  -- ready and otherwise reports a timeout, be it that the drive stays busy, that it has no data, or
  -- that it reports an error or a fault: `DriveError` is never the result.
  pub read_lba-steady :
      (lba : ℕ) (buf : List ℕ) (t : Trace)
      → IsRequest lba buf
      → ((init bus t).0 ≡ (not (status == 0xff) && not (bit_and status status_bsy == status_bsy)))
        × ((read_lba bus true lba buf t).result
            ≡ (if has_sector status then ok tt else err timeout))
  unfolding read_lba
  read_lba-steady lba buf t q =
      let whole : (length buf == 0 || not (length buf % sector_size == 0)) ≡ false =
        ground (arith, q) in
      let fits : (ltb 256 (length buf / sector_size) || not (lba / 2 ^ 28 == 0)) ≡ false =
        ground (arith, q) in
      let some_sector : (length buf / sector_size == 0) ≡ false = ground (arith, q) in
      let count : length buf / sector_size ≡ suc (length buf / sector_size - 1) =
        omega (arith, q) in
      (
        init-present t,
        rw (whole, fits, some_sector, read_lba)
            (ap (λ n. (read_pio bus lba n buf t).result) count
              ∙ read_pio-result lba (length buf / sector_size - 1) buf t),
      )
