-- ===== src/Interrupts/Dispatch/Once.antt =====
-- Each vector is reported the first time that it comes up and never again.
use goatos.Base.{
  ℕ, zero, suc, ◌+◌, ◌-◌, ◌/◌, ◌%◌, ◌^◌, ◌≤◌, ◌≡◌, ◌≢◌, inl, inr, refl, ap, ◌∙◌, bit_or, Bool, true,
  false, ◌&&◌, ◌||◌, Option, none, some, List, [], ◌∷◌, ◌==◌, ltb, leb, if◌then◌else◌, arith,
  Bool-cases, All, length,
}
use goatos.Base.Bits.{bit_at, bit_and_power, bit_at-bit_or}
use goatos.Pic.{Device, Log, Acknowledged, serviced, spurious, irq_of_vector}
use goatos.Interrupts.Dispatch.{
  Reports, reset, mark_reported, acknowledge, cause_of, verdict_of, dispatch,
  exception_vector_count, Event, dispatch_all,
}
use goatos.Pic.Protocol.{protocol, is_real, end_of_interrupt-protocol}

-- Marking a vector says whether it was marked, and marks no other.
module _ (r : Reports) (v w : ℕ) where
  mark_reported-same : v ≡ w → (mark_reported (mark_reported r v).1 w).0 ≡ true
  unfolding mark_reported
  mark_reported-same e = ground (
    arith,
    e,
    bit_and_power (w % 32) (bit_or (r.reported (w / 32)) (2 ^ (v % 32))),
    bit_at-bit_or (v % 32) (w % 32) (r.reported (w / 32)),
  )

  mark_reported-other : v ≢ w → (mark_reported (mark_reported r v).1 w).0 ≡ (mark_reported r w).0
  unfolding mark_reported
  mark_reported-other n = ground (
    arith,
    n,
    bit_and_power (w % 32) (bit_or (r.reported (w / 32)) (2 ^ (v % 32))),
    bit_and_power (w % 32) (r.reported (w / 32)),
    bit_at-bit_or (v % 32) (w % 32) (r.reported (w / 32)),
  )

-- Is the vector among those of the events?
abbrev pub came_up : ℕ → List Event → Bool
came_up vector [] = false
came_up vector (e ∷ es) = e.vector == vector || came_up vector es

abbrev pub Returns : Event → Type 0
Returns e = exception_vector_count ≤ e.vector

module _ (device : Device) where
  dispatch_all-step :
      (r : Reports) (log : Log) (e : Event) (es : List Event)
      → Returns e
      → (let o = dispatch device r log e.vector e.error_code e.frame in
          dispatch_all device r log (e ∷ es) ≡ dispatch_all device o.reports o.log es)
  unfolding dispatch_all dispatch
  dispatch_all-step r log e es h = ground (arith, h)

  dispatch-marked :
      (r : Reports) (log : Log) (e : Event) (vector : ℕ)
      → e.vector ≡ vector
      → (mark_reported (dispatch device r log e.vector e.error_code e.frame).reports vector).0
        ≡ true
  unfolding dispatch
  dispatch-marked r log e vector k =
      mark_reported-same (record r { unhandled_total = (r.unhandled_total + 1) % 2 ^ 32 }) e.vector
        vector k

  dispatch-unmarked :
      (r : Reports) (log : Log) (e : Event) (vector : ℕ)
      → e.vector ≢ vector
      → (mark_reported (dispatch device r log e.vector e.error_code e.frame).reports vector).0
        ≡ (mark_reported r vector).0
  unfolding dispatch mark_reported
  dispatch-unmarked r log e vector n =
      mark_reported-other (record r { unhandled_total = (r.unhandled_total + 1) % 2 ^ 32 }) e.vector
        vector n

  dispatch-total :
      (r : Reports) (log : Log) (e : Event)
      → (dispatch device r log e.vector e.error_code e.frame).reports.unhandled_total
        ≡ (r.unhandled_total + 1) % 2 ^ 32
  unfolding dispatch mark_reported
  dispatch-total r log e = refl

  -- The marks after a run are the marks before it and those of its vectors.
  dispatch_all-marks :
      (es : List Event) (r : Reports) (log : Log) (vector : ℕ)
      → All Returns es
      → (mark_reported (dispatch_all device r log es).0 vector).0
        ≡ (came_up vector es || (mark_reported r vector).0)
  unfolding dispatch_all
  dispatch_all-marks [] r log vector h = refl
  dispatch_all-marks (e ∷ es) r log vector h =
      let o = dispatch device r log e.vector e.error_code e.frame in
      rw (dispatch_all-step r log e es h.0) (
        dispatch_all-marks es o.reports o.log vector h.1 ∙ elim (Bool-cases (e.vector == vector)) [
          | inl k ↦ rw (dispatch-marked r log e vector (ground (arith, k)), k) (ground arith)
          | inr k ↦ rw (dispatch-unmarked r log e vector (ground (arith, k)), k) (ground arith)
        ])

  dispatch_all-total :
      (es : List Event) (r : Reports) (log : Log)
      → All Returns es
      → (dispatch_all device r log es).0.unhandled_total % 2 ^ 32
        ≡ (r.unhandled_total + length es) % 2 ^ 32
  unfolding dispatch_all
  dispatch_all-total [] r log h = omega arith
  dispatch_all-total (e ∷ es) r log h =
      let o = dispatch device r log e.vector e.error_code e.frame in
      rw (dispatch_all-step r log e es h.0)
        (omega (arith, dispatch_all-total es o.reports o.log h.1, dispatch-total r log e))

-- What `acknowledge` should find out about a vector, and the port writes.
abbrev pub acknowledged : Device → Log → ℕ → Option (ℕ × Acknowledged) × Log
acknowledged device log vector =
    let irq = vector - 32 in
    let real = is_real device log irq in
    if leb 32 vector && leb vector 47
    then (some (irq, if real then serviced else spurious), protocol real irq log)
    else (none, log)

acknowledge_lem :
    (device : Device) (log : Log) (vector : ℕ)
    → acknowledge device log vector ≡ acknowledged device log vector
unfolding acknowledge irq_of_vector
acknowledge_lem device log vector = elim (Bool-cases (leb 32 vector && leb vector 47)) [
  | inl e ↦ rw (e, acknowledge) (rw (end_of_interrupt-protocol device log (vector - 32)) refl)
  | inr e ↦ rw (e, acknowledge) refl
]

printed_lem :
    (device : Device) (r : Reports) (log : Log) (e : Event)
    → (let o = dispatch device r log e.vector e.error_code e.frame in
        let found = acknowledged device log e.vector in
        (o.printed ≡ (
          if (mark_reported r e.vector).0
          then none
          else some (record {
            vector = e.vector;
            cause = cause_of e.vector found.0;
            frame = e.frame;
            error_code = e.error_code;
            verdict = verdict_of e.vector found.0;
          })))
        × (o.log ≡ found.1)
        × (o.halts ≡ ltb e.vector exception_vector_count))
unfolding dispatch mark_reported
printed_lem device r log e = rw (acknowledge_lem device log e.vector) (refl, refl, refl)

no_bits : (k : ℕ) → bit_at 0 k ≡ 0
no_bits zero = refl
no_bits (suc k) = no_bits k

or_false : (b : Bool) → (b || false) ≡ b
or_false true = refl
or_false false = refl

fresh-marks : (vector : ℕ) → (mark_reported reset vector).0 ≡ false
unfolding mark_reported
fresh-marks vector = ground (arith, bit_and_power (vector % 32) 0, no_bits (vector % 32))

-- After any run of unhandled interrupts of which none was a processor exception, one more is printed
-- exactly if its vector has not come up before, with its own vector, cause, frame, error code and
-- verdict; the ports are written as the controllers' protocol asks, with no end of interrupt for a
-- spurious one except to the master on the slave's behalf; the total counts every interrupt, modulo
-- 2^32; and the kernel halts exactly if the vector is an exception.
pub dispatch-once :
    (device : Device) (log : Log) (es : List Event) (e : Event)
    → All Returns es
    → (let s = dispatch_all device reset log es in
        let o = dispatch device s.0 s.1 e.vector e.error_code e.frame in
        let found = acknowledged device s.1 e.vector in
        (o.printed ≡ (
          if came_up e.vector es
          then none
          else some (record {
            vector = e.vector;
            cause = cause_of e.vector found.0;
            frame = e.frame;
            error_code = e.error_code;
            verdict = verdict_of e.vector found.0;
          })))
        × (o.log ≡ found.1)
        × (o.halts ≡ ltb e.vector exception_vector_count)
        × (o.reports.unhandled_total ≡ (length es + 1) % 2 ^ 32))
dispatch-once device log es e h =
    let s = dispatch_all device reset log es in
    let p = printed_lem device s.0 s.1 e in
    let marks : (mark_reported s.0 e.vector).0 ≡ came_up e.vector es =
      dispatch_all-marks device es reset log e.vector h
      ∙ ap (λ b. came_up e.vector es || b) (fresh-marks e.vector)
      ∙ or_false (came_up e.vector es) in
    (
      p.0
          ∙ ap
              (λ b.
                if b
                then none
                else some (record {
                  vector = e.vector;
                  cause = cause_of e.vector (acknowledged device s.1 e.vector).0;
                  frame = e.frame;
                  error_code = e.error_code;
                  verdict = verdict_of e.vector (acknowledged device s.1 e.vector).0;
                }))
              marks,
      p.1,
      p.2,
      omega (arith, dispatch-total device s.0 s.1 e, dispatch_all-total device es reset log h),
    )
