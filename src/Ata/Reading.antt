-- ===== src/Ata/Reading.antt =====
-- What a read does to the bus and to the buffer, on every branch.
use goatos.Base.{
  ℕ, zero, suc, ◌+◌, ◌*◌, ◌<◌, ◌≡◌, ◌⊎◌, inl, inr, refl, sym, ap, ap₂, subst, ◌∙◌, bit_and, ==_iff,
  List, [], ◌++◌, ◌==◌, length, length-append, drop, arith, Bool-cases,
}
use mathlib.Core.List.{append-nil, append_assoc}
use goatos.Ata.Handshake.{
  polled, OnlyPolls, Offered, Handshakes, OnlyPolls-snoc, wait-FoundData, wait-OnlyPolls,
}
use goatos.Ata.{
  Outcome, ok, err, AtaError, timeout, drive_error, Trace, Bus, Transfer, status_cmd, status_bsy,
  status_err, status_df, status_drq, sector_size, spin_limit, inb, wait_while, wait_for_drq,
  read_words, read_sectors,
}
use goatos.Ata.Words.{
  writes, received, little_endian, drop_at, drop-drop, little_endian-append, read_words_lem,
}

-- The second trace goes on from the first by reads of the status alone.
abbrev pub Quiet : Trace → Trace → Type 0
Quiet t t' = (writes t' ≡ writes t) × (received t' ≡ received t)

module _ (bus : Bus) where
  inb-Quiet : (t : Trace) → Quiet t (inb bus t status_cmd).1
  unfolding inb writes received
  inb-Quiet t = (refl, refl)

  pub wait_while-Quiet :
      (mask value left : ℕ) (t : Trace) → Quiet t (wait_while bus mask value left t).1
  unfolding wait_while inb writes received
  wait_while-Quiet mask value zero t = (refl, refl)
  wait_while-Quiet mask value (suc left) t = elim (Bool-cases ((inb bus t status_cmd).0 == 0xff)) [
    | inl e ↦ rw (e, wait_while) (refl, refl)
    | inr e ↦ elim (Bool-cases (bit_and (inb bus t status_cmd).0 mask == value)) [
      | inl f ↦ rw (e, f, wait_while) (wait_while-Quiet mask value left (inb bus t status_cmd).1)
      | inr f ↦ rw (e, f, wait_while) (refl, refl)
    ]
  ]

  pub wait_for_drq-Quiet : (left : ℕ) (t : Trace) → Quiet t (wait_for_drq bus left t).1
  unfolding wait_for_drq inb writes received
  wait_for_drq-Quiet zero t = (refl, refl)
  wait_for_drq-Quiet (suc left) t =
      let s = (inb bus t status_cmd).0 in
      let again = wait_for_drq-Quiet left (inb bus t status_cmd).1 in
      elim (Bool-cases (s == 0xff)) [
        | inl e ↦ rw (e, wait_for_drq) (refl, refl)
        | inr e ↦ elim (Bool-cases (bit_and s status_bsy == 0)) [
          | inr f ↦ rw (e, f, wait_for_drq) again
          | inl f ↦ elim (Bool-cases (bit_and s (status_err + status_df) == 0)) [
            | inr g ↦ rw (e, f, g, wait_for_drq) (refl, refl)
            | inl g ↦ elim (Bool-cases (bit_and s status_drq == 0)) [
              | inr h ↦ rw (e, f, g, h, wait_for_drq) (refl, refl)
              | inl h ↦ rw (e, f, g, h, wait_for_drq) again
            ]
          ]
        ]
      ]

pub Outcome-cases : (o : Outcome AtaError Unit) → ((e : AtaError) × (o ≡ err e)) ⊎ (o ≡ ok tt)
Outcome-cases (ok tt) = inr refl
Outcome-cases (err e) = inl (e, refl)

-- The first sectors of the buffer hold the words received, low byte first, each sector after the drive
-- has offered it, and the rest of it is as it was; nothing is written to a port, and the transfer succeeds just when all sectors are there.
pub record Filled (count : ℕ) (buf : List ℕ) (t : Trace) (r : Transfer) : Type 0 where
  pub sectors : ℕ
  pub words : List ℕ
  pub length_words : length words ≡ sectors * 256
  pub received_words : received r.trace ≡ received t ++ words
  pub in_order : Handshakes sectors words t r.trace
  pub writes_same : writes r.trace ≡ writes t
  pub buf_filled : r.buf ≡ little_endian words ++ drop (sectors * 512) buf
  pub ending :
      ((r.result ≡ ok tt) × (sectors ≡ count))
      ⊎ ((sectors < count) × ((r.result ≡ err timeout) ⊎ (r.result ≡ err drive_error)))

module _ (bus : Bus) where
  -- No sector is there.
  unfilled :
      (count : ℕ) (buf : List ℕ) (t t' : Trace) (e : AtaError)
      → Quiet t t'
      → OnlyPolls t t'
      → (e ≡ timeout) ⊎ (e ≡ drive_error)
      → Filled (suc count) buf t (record { result = err e; buf = buf; trace = t' })
  unfolding little_endian
  unfilled count buf t t' e (w, r) polls which = record {
    sectors = 0;
    words = [];
    length_words = refl;
    received_words = r ∙ sym (append-nil (received t));
    in_order = (refl, polls);
    writes_same = w;
    buf_filled = sym (drop_at (0 * 512) 0 buf (omega arith));
    ending = inr (omega arith, elim which [ inl f ↦ inl (ap err f) | inr f ↦ inr (ap err f) ]);
  }

  -- One sector, and then the others.
  extended :
      (count : ℕ) (buf : List ℕ) (t s : Trace)
      → Quiet t s
      → Offered t s
      → (rest : Transfer) → Filled count (drop sector_size buf) (read_words bus 256 s).1 rest
      → Filled (suc count) buf t (record {
        result = rest.result;
        buf = (read_words bus 256 s).0 ++ rest.buf;
        trace = rest.trace;
      })
  extended count buf t s (w, r) offer rest f =
      let (words, n, from_port, bytes, w', order) = read_words_lem bus 256 s in
      record {
        sectors = suc f.sectors;
        words = words ++ f.words;
        length_words = length-append words f.words ∙ omega (arith, n, f.length_words);
        received_words =
            f.received_words
            ∙ ap (λ ws. ws ++ f.words) (from_port ∙ ap (λ ws. ws ++ words) r)
            ∙ append_assoc (received t) words f.words;
        in_order = (
          s,
          offer,
          words,
          f.words,
          n,
          refl,
          subst (λ u. Handshakes f.sectors f.words u rest.trace) order f.in_order,
        );
        writes_same = f.writes_same ∙ w' ∙ w;
        buf_filled =
            ap₂ (λ front back. front ++ back) bytes f.buf_filled
            ∙ sym (
                append_assoc (little_endian words) (little_endian f.words)
                  (drop (f.sectors * 512) (drop 512 buf)))
            ∙ ap₂ (λ front back. front ++ back) (sym (little_endian-append words f.words))
                (drop-drop 512 (f.sectors * 512) buf
                  ∙ drop_at (512 + f.sectors * 512) (suc f.sectors * 512) buf (omega arith));
        ending = elim f.ending [
          | inl (fine, all) ↦ inl (fine, ap suc all)
          | inr (part, which) ↦ inr (omega (arith, part), which)
        ];
      }

  pub read_sectors-Filled :
      (count : ℕ) (buf : List ℕ) (t : Trace) → Filled count buf t (read_sectors bus count buf t)
  unfolding read_sectors little_endian polled inb
  read_sectors-Filled zero buf t = record {
    sectors = 0;
    words = [];
    length_words = refl;
    received_words = sym (append-nil (received t));
    in_order = (refl, ([], refl));
    writes_same = refl;
    buf_filled = sym (drop_at (0 * 512) 0 buf (omega arith));
    ending = inl (refl, refl);
  }
  read_sectors-Filled (suc count) buf t =
      let waited = wait_for_drq bus spin_limit t in
      let (w, r) = wait_for_drq-Quiet bus spin_limit t in
      let polling = inb bus waited.1 status_cmd in
      let (w', r') = inb-Quiet bus waited.1 in
      elim (Outcome-cases waited.0) [
        | inl (e, f) ↦
            rw (f, read_sectors)
              (unfilled count buf t waited.1 timeout (w, r) (wait-OnlyPolls bus spin_limit t)
                (inl refl))
        | inr f ↦ elim (Bool-cases (bit_and polling.0 (status_err + status_df) == 0)) [
          | inr g ↦
              rw (f, g, read_sectors)
                (unfilled count buf t polling.1 drive_error (w' ∙ w, r' ∙ r)
                  (OnlyPolls-snoc t waited.1 polling.0 (wait-OnlyPolls bus spin_limit t))
                  (inr refl))
          | inl g ↦
              rw (f, g, read_sectors)
                (extended count buf t polling.1 (w' ∙ w, r' ∙ r)
                  (record {
                    waited = waited.1;
                    ready = wait-FoundData bus spin_limit t f;
                    again = polling.0;
                    no_error = (==_iff _ _).0 g;
                    last = refl;
                  })
                  (read_sectors bus count (drop sector_size buf) (read_words bus 256 polling.1).1)
                  (read_sectors-Filled count (drop sector_size buf)
                    (read_words bus 256 polling.1).1))
        ]
      ]
