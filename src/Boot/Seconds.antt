-- ===== src/Boot/Seconds.antt =====
-- The once-a-second reports of kernel/src/main.rs: the bodies of the endless loops of `shell_task` and
-- `demo_counter_task`, at the tick counts that their rounds read.
use goatos.Base.{
  ℕ, ◌+◌, ◌-◌, ◌^◌, ◌≤◌, ◌<◌, ◌≡◌, refl, sym, ap, ◌∙◌, subst, min, Bool, true, false, Option, none,
  some, List, [], ◌∷◌, ltb, if◌then◌else◌, length, arith, All, Bool-cases, inl, inr,
}
use goatos.Pit.{seconds}
use goatos.Task.{System, turns_of}

-- The locals of `demo_counter_task`.
pub record Demo : Type 0 where
  pub last_second : ℕ
  pub count : ℕ

-- One round, up to the yield: whether it prints.
unfoldable pub demo_round : Demo → ℕ → Demo × Bool
unfolding seconds
demo_round d ticks =
    let second = seconds ticks in
    if ltb d.last_second second
    then (record { last_second = second; count = min (d.count + 1) (2 ^ 32 - 1) }, true)
    else (d, false)

-- What `shell_task` prints: the tick count, the second, and the turns of the three tasks.
pub record Report : Type 0 where
  pub ticks : ℕ
  pub second : ℕ
  pub turns : List ℕ

-- The round of `shell_task` after the keys are drained, from its local `last_second`.
unfoldable pub shell_round : System → ℕ → ℕ → ℕ × Option Report
unfolding seconds turns_of
shell_round y last_second ticks =
    let second = seconds ticks in
    if ltb last_second second
    then (
      second,
      some (record {
        ticks = ticks;
        second = second;
        turns = turns_of y 0 ∷ turns_of y 1 ∷ turns_of y 2 ∷ [];
      }),
    )
    else (last_second, none)

-- Rounds of a demo task, with the seconds at which it prints.
unfoldable pub demo_rounds : Demo → List ℕ → Demo × List ℕ
unfolding demo_round seconds
demo_rounds d [] = (d, [])
demo_rounds d (ticks ∷ later) =
    let one = demo_round d ticks in
    let rest = demo_rounds one.0 later in (rest.0, if one.1 then seconds ticks ∷ rest.1 else rest.1)

-- Each number is above the one before, and the first above `from`.
abbrev pub Rises : ℕ → List ℕ → Type 0
Rises from [] = Unit {0}
Rises from (n ∷ ns) = (from < n) × Rises n ns

-- What a run of rounds has printed, and where it has come to.
abbrev pub Told : Demo → List ℕ → Demo × List ℕ → Type 0
Told d readings (after, printed) =
    Rises d.last_second printed
    × (after.count ≡ min (d.count + length printed) (2 ^ 32 - 1))
    × (d.last_second ≤ after.last_second)
    × All (λ t. seconds t ≤ after.last_second) readings

demo_rounds-first :
    (d : Demo) (ticks : ℕ) (later : List ℕ)
    → (let one = demo_round d ticks in
        let rest = demo_rounds one.0 later in
        demo_rounds d (ticks ∷ later) ≡ (rest.0, if one.1 then seconds ticks ∷ rest.1 else rest.1))
unfolding demo_rounds
demo_rounds-first d ticks later = refl

-- Whatever the readings: a demo task prints at most once for each second, at seconds that rise; its
-- counter is the number of its lines, and stays at the largest `u32`; no reading is later than the
-- second that it has seen last.
pub demo_rounds_lem :
    (d : Demo) (readings : List ℕ) → d.count < 2 ^ 32 → Told d readings (demo_rounds d readings)
unfolding demo_rounds demo_round
demo_rounds_lem d [] lt = (tt, omega (arith, lt), omega arith, tt)
demo_rounds_lem d (ticks ∷ later) lt = elim (Bool-cases (ltb d.last_second (seconds ticks))) [
  | inl e ↦
      let d1 : Demo = record {
        last_second = seconds ticks;
        count = min (d.count + 1) (2 ^ 32 - 1);
      } in
      let printed : demo_round d ticks ≡ (d1, true) = rw (e, demo_round) refl in
      let (rise, count, last, all) = demo_rounds_lem d1 later (omega arith) in
      subst (Told d (ticks ∷ later)) (sym (at_first printed))
        ((ground (arith, e), rise), omega (arith, count), ground (arith, e, last), (last, all))
  | inr e ↦
      let quiet : demo_round d ticks ≡ (d, false) = rw (e, demo_round) refl in
      let (rise, count, last, all) = demo_rounds_lem d later lt in
      subst (Told d (ticks ∷ later)) (sym (at_first quiet))
        (rise, count, last, (ground (arith, e, last), all))
]
  where
    at_first :
        {one : Demo × Bool}
        → demo_round d ticks ≡ one
        → demo_rounds d (ticks ∷ later) ≡ (
          (demo_rounds one.0 later).0,
          if one.1
              then seconds ticks ∷ (demo_rounds one.0 later).1
              else (demo_rounds one.0 later).1,
        )
    at_first e =
        demo_rounds-first d ticks later
        ∙ ap
            (λ o. (
              (demo_rounds o.0 later).0,
              if o.1 then seconds ticks ∷ (demo_rounds o.0 later).1 else (demo_rounds o.0 later).1,
            ))
            e
