-- ===== src/Ata/Handshake.antt =====
-- The order of the accesses while sectors come in: which status each block of words follows.
use goatos.Base.{
  ℕ, zero, suc, ◌+◌, ◌≡◌, ◌≢◌, inl, inr, refl, sym, ap, subst, ◌∙◌, List, [], ◌∷◌, ◌++◌, ◌==◌,
  length, arith, Bool-cases, ==_iff, bit_and,
}
use goatos.Ata.{
  Outcome, ok, err, AtaError, got, Trace, Bus, data_port, status_cmd, status_bsy, status_err,
  status_df, status_drq, inb, wait_for_drq,
}

-- The trace goes on by these reads of the status, first one first, and by these of the data port.
unfoldable pub polled : List ℕ → Trace → Trace
polled [] t = t
polled (status ∷ ss) t = polled ss (got status_cmd status ∷ t)

unfoldable pub taken : List ℕ → Trace → Trace
taken [] t = t
taken (word ∷ words) t = taken words (got data_port word ∷ t)

abbrev pub OnlyPolls : Trace → Trace → Type 0
OnlyPolls t u = (ss : List ℕ) × (u ≡ polled ss t)

-- The drive is there and not busy, has no error, and has data.
abbrev pub HasData : ℕ → Type 0
HasData status =
    (status ≢ 0xff)
    × (bit_and status status_bsy ≡ 0)
    × (bit_and status (status_err + status_df) ≡ 0)
    × (bit_and status status_drq ≢ 0)

-- The second trace ends with a read of the status that found data; before it, since the first trace, the
-- status was read and nothing else.
pub record FoundData (t u : Trace) : Type 0 where
  pub before : Trace
  pub status : ℕ
  pub polls_before : OnlyPolls t before
  pub has_data : HasData status
  pub last : u ≡ got status_cmd status ∷ before

-- One more read of the status follows, which shows no error either.
pub record Offered (t u : Trace) : Type 0 where
  pub waited : Trace
  pub ready : FoundData t waited
  pub again : ℕ
  pub no_error : bit_and again (status_err + status_df) ≡ 0
  pub last : u ≡ got status_cmd again ∷ waited

-- The words come in as so many blocks of 256, each after an offer, and the status is all that is read
-- besides.
abbrev pub Handshakes : ℕ → List ℕ → Trace → Trace → Type 0
Handshakes zero words t u = (words ≡ []) × OnlyPolls t u
Handshakes (suc n) words t u =
    (offer : Trace) × Offered t offer
    × (chunk : List ℕ) × (rest : List ℕ) × (length chunk ≡ 256)
    × (words ≡ chunk ++ rest)
    × Handshakes n rest (taken chunk offer) u

polled-snoc :
    (ss : List ℕ) (status : ℕ) (t : Trace)
    → got status_cmd status ∷ polled ss t ≡ polled (ss ++ (status ∷ [])) t
unfolding polled
polled-snoc [] status t = refl
polled-snoc (s ∷ ss) status t = polled-snoc ss status (got status_cmd s ∷ t)

pub OnlyPolls-snoc :
    (t u : Trace) (status : ℕ) → OnlyPolls t u → OnlyPolls t (got status_cmd status ∷ u)
OnlyPolls-snoc t u status (ss, e) =
    (ss ++ (status ∷ []), ap (◌∷◌ (got status_cmd status)) e ∙ polled-snoc ss status t)

-- What the wait for data leaves.
abbrev Waited : Trace → Outcome AtaError Unit × Trace → Type 0
Waited t (ok u, t') = FoundData t t'
Waited t (err e, t') = OnlyPolls t t'

Waited-again :
    (t : Trace) (status : ℕ) (r : Outcome AtaError Unit × Trace)
    → Waited (got status_cmd status ∷ t) r
    → Waited t r
unfolding polled
Waited-again t status (ok u, t') w = record {
  before = w.before;
  status = w.status;
  polls_before = (status ∷ w.polls_before.0, w.polls_before.1);
  has_data = w.has_data;
  last = w.last;
}
Waited-again t status (err e, t') (ss, e') = (status ∷ ss, e')

module _ (bus : Bus) where
  wait_for_drq-Waited : (left : ℕ) (t : Trace) → Waited t (wait_for_drq bus left t)
  unfolding wait_for_drq inb polled
  wait_for_drq-Waited zero t = ([], refl)
  wait_for_drq-Waited (suc left) t =
      let s = (inb bus t status_cmd).0 in
      let t' = (inb bus t status_cmd).1 in
      let again = Waited-again t s (wait_for_drq bus left t') (wait_for_drq-Waited left t') in
      elim (Bool-cases (s == 0xff)) [
        | inl e ↦ rw (e, wait_for_drq) (s ∷ [], refl)
        | inr e ↦ elim (Bool-cases (bit_and s status_bsy == 0)) [
          | inr f ↦ rw (e, f, wait_for_drq) again
          | inl f ↦ elim (Bool-cases (bit_and s (status_err + status_df) == 0)) [
            | inr g ↦ rw (e, f, g, wait_for_drq) (s ∷ [], refl)
            | inl g ↦ elim (Bool-cases (bit_and s status_drq == 0)) [
              | inr h ↦
                  rw (e, f, g, h, wait_for_drq)
                    (record {
                      before = t;
                      status = s;
                      polls_before = ([], refl);
                      has_data = (
                        (λ q. ground (arith, e, q)),
                        (==_iff _ _).0 f,
                        (==_iff _ _).0 g,
                        (λ q. ground (arith, h, q)),
                      );
                      last = refl;
                    })
              | inl h ↦ rw (e, f, g, h, wait_for_drq) again
            ]
          ]
        ]
      ]

  pub wait-FoundData :
      (left : ℕ) (t : Trace)
      → (wait_for_drq bus left t).0 ≡ ok tt
      → FoundData t (wait_for_drq bus left t).1
  wait-FoundData left t f =
      subst (λ o. Waited t (o, (wait_for_drq bus left t).1)) f (wait_for_drq-Waited left t)

  pub wait-OnlyPolls : (left : ℕ) (t : Trace) → OnlyPolls t (wait_for_drq bus left t).1
  wait-OnlyPolls left t = polls_of t (wait_for_drq bus left t) (wait_for_drq-Waited left t)
    where
      polls_of : (t : Trace) (r : Outcome AtaError Unit × Trace) → Waited t r → OnlyPolls t r.1
      polls_of t (ok u, t') w =
          subst (OnlyPolls t) (sym w.last) (OnlyPolls-snoc t w.before w.status w.polls_before)
      polls_of t (err e, t') w = w
