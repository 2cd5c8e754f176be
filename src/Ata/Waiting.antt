-- ===== src/Ata/Waiting.antt =====
-- The wait for the drive to be free: what the status read as, poll by poll.
use goatos.Base.{
  ℕ, zero, suc, ◌<◌, ◌≡◌, ◌≢◌, ◌⊎◌, inl, inr, refl, ◌∷◌, ◌==◌, bit_and, arith, Bool-cases, ==_iff,
}
use goatos.Ata.{
  Outcome, ok, err, AtaError, timeout, not_present, got, Trace, Bus, status_cmd, status_bsy, inb,
  wait_while,
}

-- The second trace goes on from the first by this many polls of the status, each of which found a drive
-- that was busy.
abbrev pub BusyFor : ℕ → Trace → Trace → Type 0
BusyFor zero t t' = t' ≡ t
BusyFor (suc n) t t' =
    (status : ℕ) × (status ≢ 0xff)
    × (bit_and status status_bsy ≡ status_bsy)
    × BusyFor n (got status_cmd status ∷ t) t'

-- After fewer than `limit` polls that found a busy drive, one found it free.
pub record FreeAfter (limit : ℕ) (t t' : Trace) : Type 0 where
  pub polls : ℕ
  pub before : Trace
  pub status : ℕ
  pub polls_few : polls < limit
  pub busy_before : BusyFor polls t before
  pub present : status ≢ 0xff
  pub not_busy : bit_and status status_bsy ≢ status_bsy
  pub last : t' ≡ got status_cmd status ∷ before

-- After fewer than `limit` polls that found a busy drive, one found a bus that nothing drives.
pub record GoneAfter (limit : ℕ) (t t' : Trace) : Type 0 where
  pub polls : ℕ
  pub before : Trace
  pub polls_few : polls < limit
  pub busy_before : BusyFor polls t before
  pub last : t' ≡ got status_cmd 0xff ∷ before

-- What the wait ends with.
abbrev pub Waited : ℕ → Trace → Outcome AtaError Unit × Trace → Type 0
Waited limit t (ok u, t') = FreeAfter limit t t'
Waited limit t (err timeout, t') = BusyFor limit t t'
Waited limit t (err not_present, t') = GoneAfter limit t t'
Waited limit t (err _, t') = ⊥

-- A wait that fails has found the drive busy throughout, or has lost it.
pub Waited-err :
    (limit : ℕ) (t t' : Trace) (e : AtaError)
    → Waited limit t (err e, t')
    → BusyFor limit t t' ⊎ GoneAfter limit t t'
Waited-err limit t t' timeout w = inl w
Waited-err limit t t' not_present w = inr w
Waited-err limit t t' _ w = absurd w

-- One busy poll, and then the others.
Waited-again :
    (left : ℕ) (t : Trace) (status : ℕ) (r : Outcome AtaError Unit × Trace)
    → status ≢ 0xff
    → bit_and status status_bsy ≡ status_bsy
    → Waited left (got status_cmd status ∷ t) r
    → Waited (suc left) t r
Waited-again left t status (ok u, t') p b w = record {
  polls = suc w.polls;
  before = w.before;
  status = w.status;
  polls_few = omega (arith, w.polls_few);
  busy_before = (status, p, b, w.busy_before);
  present = w.present;
  not_busy = w.not_busy;
  last = w.last;
}
Waited-again left t status (err timeout, t') p b w = (status, p, b, w)
Waited-again left t status (err not_present, t') p b w = record {
  polls = suc w.polls;
  before = w.before;
  polls_few = omega (arith, w.polls_few);
  busy_before = (status, p, b, w.busy_before);
  last = w.last;
}
Waited-again left t status (err _, t') p b w = absurd w

pub wait_while-Waited :
    (bus : Bus) (left : ℕ) (t : Trace) → Waited left t (wait_while bus status_bsy status_bsy left t)
unfolding wait_while inb
wait_while-Waited bus zero t = refl
wait_while-Waited bus (suc left) t =
    let s = (inb bus t status_cmd).0 in
    let t' = (inb bus t status_cmd).1 in
    elim (Bool-cases (s == 0xff)) [
      | inl e ↦
          rw (e, wait_while)
            (record {
              polls = 0;
              before = t;
              polls_few = omega arith;
              busy_before = refl;
              last = rw ((==_iff _ _).0 e) refl;
            })
      | inr e ↦
          let present : s ≢ 0xff = λ q. ground (arith, e, q) in
          elim (Bool-cases (bit_and s status_bsy == status_bsy)) [
            | inl f ↦
                rw (e, f, wait_while)
                  (Waited-again left t s (wait_while bus status_bsy status_bsy left t') present
                    ((==_iff _ _).0 f) (wait_while-Waited bus left t'))
            | inr f ↦
                rw (e, f, wait_while)
                  (record {
                    polls = 0;
                    before = t;
                    status = s;
                    polls_few = omega arith;
                    busy_before = refl;
                    present = present;
                    not_busy = λ q. ground (arith, f, q);
                    last = refl;
                  })
          ]
    ]
