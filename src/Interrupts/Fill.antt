-- ===== src/Interrupts/Fill.antt =====
-- `init` leaves every vector with a gate, and every gate that was there as it was.
use goatos.Base.{
  ℕ, zero, suc, ◌+◌, ◌≤◌, ◌<◌, ◌≡◌, ◌≢◌, ◌⊎◌, inl, inr, refl, sym, ap, ◌∙◌, Bool, true, false, ◌||◌,
  ◌==◌, if◌then◌else◌, arith, Bool-cases, ==_iff,
}
use goatos.Base.Bytes.{passes_below, passes_below_sound}
use goatos.Idt.{
  Idt, Gate, entry_count, kernel_code_selector, interrupt, is_present, set_gate, has_handler,
  count_present, handlers,
}
use goatos.Interrupts.{Entries, stub, error_code_stub, entry_point, fill, init}

-- The vectors for which the processor pushes an error code.
abbrev pub pushes_error_code : ℕ → Bool
pushes_error_code vector =
    vector == 8
    || (vector == 10
        || (vector == 11
            || (vector == 12
                || (vector == 13
                    || (vector == 14
                        || (vector == 17 || (vector == 21 || (vector == 29 || vector == 30))))))))

-- Every entry of the table of stubs is for the vector that it is found at.
stub_table : passes_below (λ v. stub v == v) 256 ≡ true
unfolding passes_below stub
stub_table = refl

stub_lem : (vector : ℕ) → vector < 256 → stub vector ≡ vector
stub_lem vector lt = (==_iff _ _).0 (passes_below_sound (λ v. stub v == v) 256 vector lt stub_table)

-- The gate of a free vector: an interrupt gate to the entry point of that vector, of the shape in
-- which the processor enters it.
abbrev pub catch_all : Entries → ℕ → Gate
catch_all code vector =
    interrupt
      (if pushes_error_code vector
        then code.unhandled_with_error_code vector
        else code.unhandled vector)
      kernel_code_selector

entry_point_lem :
    (code : Entries) (vector : ℕ)
    → vector < 256
    → entry_point code vector ≡ (
        if pushes_error_code vector
        then code.unhandled_with_error_code vector
        else code.unhandled vector)
unfolding entry_point error_code_stub
entry_point_lem code vector lt = ground (arith, stub_lem vector lt)

plus_zero : (n : ℕ) → n + 0 ≡ n
plus_zero n = omega arith

count_step :
    (idt : Idt) (vector : ℕ)
    → count_present idt (vector + 1)
      ≡ (if is_present (idt vector) then 1 else 0) + count_present idt vector
unfolding count_present
count_step idt vector = ap (count_present idt) (plus_one vector)
  where
    plus_one : (n : ℕ) → n + 1 ≡ suc n
    plus_one n = omega arith

module _ (code : Entries) where
  -- One round of the loop.
  fill-skip :
      (left : ℕ) (idt : Idt) (vector installed : ℕ)
      → has_handler idt vector ≡ true
      → fill (suc left) code idt vector installed ≡ fill left code idt (vector + 1) installed
  unfolding fill
  fill-skip left idt vector installed e = rw (e, fill) refl

  fill-take :
      (left : ℕ) (idt : Idt) (vector installed : ℕ)
      → has_handler idt vector ≡ false
      → fill (suc left) code idt vector installed
        ≡ fill left code
            (set_gate idt vector (entry_point code vector))
            (vector + 1)
            (installed + 1)
  unfolding fill
  fill-take left idt vector installed e = rw (e, fill) refl

  set_gate-other :
      (idt : Idt) (vector offset v : ℕ) → v ≢ vector → set_gate idt vector offset v ≡ idt v
  unfolding set_gate
  set_gate-other idt vector offset v n = ground (arith, n)

  set_gate-here :
      (idt : Idt) (vector offset : ℕ)
      → set_gate idt vector offset vector ≡ interrupt offset kernel_code_selector
  unfolding set_gate
  set_gate-here idt vector offset = ground arith

  -- Vectors outside the loop's range keep their gates.
  fill-outside :
      (left : ℕ) (idt : Idt) (vector installed v : ℕ)
      → (v < vector) ⊎ (vector + left ≤ v)
      → (fill left code idt vector installed).0 v ≡ idt v
  unfolding fill
  fill-outside zero idt vector installed v o = refl
  fill-outside (suc left) idt vector installed v o = elim (Bool-cases (has_handler idt vector)) [
    | inl e ↦
        rw (fill-skip left idt vector installed e)
          (fill-outside left idt (vector + 1) installed v (omega (arith, o)))
    | inr e ↦ rw (fill-take left idt vector installed e) (
        fill-outside left (set_gate idt vector (entry_point code vector)) (vector + 1)
          (installed + 1) v (omega (arith, o))
        ∙ set_gate-other idt vector (entry_point code vector) v (omega (arith, o)))
  ]

  -- In its range, a vector keeps its gate or gets the catch-all.
  fill-inside :
      (left : ℕ) (idt : Idt) (vector installed v : ℕ)
      → vector + left ≤ 256
      → vector ≤ v
      → v < vector + left
      → (fill left code idt vector installed).0 v
        ≡ (if has_handler idt v then idt v else catch_all code v)
  unfolding fill has_handler
  fill-inside zero idt vector installed v room lo hi = absurd (omega arith)
  fill-inside (suc left) idt vector installed v room lo hi = elim (Bool-cases (vector == v)) [
    | inl k ↦
        let here : vector ≡ v = ground (arith, k) in
        elim (Bool-cases (has_handler idt vector)) [
          | inl e ↦
              rw (sym here, fill-skip left idt vector installed e, e)
                (fill-outside left idt (vector + 1) installed vector (omega arith))
          | inr e ↦
              rw (sym here, fill-take left idt vector installed e, e)
                (fill-outside left (set_gate idt vector (entry_point code vector)) (vector + 1)
                    (installed + 1) vector (omega arith)
                  ∙ set_gate-here idt vector (entry_point code vector)
                  ∙ ap (λ a. interrupt a kernel_code_selector)
                      (entry_point_lem code vector (omega arith)))
        ]
    | inr k ↦
        let far : vector + 1 ≤ v = ground (arith, k, lo) in
        elim (Bool-cases (has_handler idt vector)) [
          | inl e ↦
              rw (fill-skip left idt vector installed e)
                (fill-inside left idt (vector + 1) installed v (omega arith) far (omega arith))
          | inr e ↦
              let idt' = set_gate idt vector (entry_point code vector) in
              rw (fill-take left idt vector installed e) (
                fill-inside left idt' (vector + 1) (installed + 1) v (omega arith) far (omega arith)
                ∙ ap (λ g. if is_present g then g else catch_all code v)
                    (set_gate-other idt vector (entry_point code vector) v (omega arith)))
        ]
  ]

  -- The count goes up for each vector that was free in the table `old`.
  fill-count :
      (old : Idt) (left : ℕ) (idt : Idt) (vector installed : ℕ)
      → ((v : ℕ) → vector ≤ v → idt v ≡ old v)
      → (fill left code idt vector installed).1 + count_present old (vector + left)
        ≡ installed + left + count_present old vector
  unfolding fill has_handler count_present
  fill-count old zero idt vector installed same =
      omega (arith, ap (count_present old) (plus_zero vector))
  fill-count old (suc left) idt vector installed same =
      let at_vector : is_present (idt vector) ≡ is_present (old vector) =
        ap is_present (same vector (omega arith)) in
      let next : count_present old (vector + 1)
          ≡ (if is_present (old vector) then 1 else 0) + count_present old vector =
        count_step old vector in
      let last : count_present old (vector + suc left) ≡ count_present old (vector + 1 + left) =
        ap (count_present old) (omega arith) in
      elim (Bool-cases (has_handler idt vector)) [
        | inl e ↦
            let one : ◌≡◌ {A = ℕ} (if is_present (old vector) then 1 else 0) 1 =
              rw (sym at_vector, e) refl in
            rw (fill-skip left idt vector installed e) (
              omega (
                arith,
                next,
                last,
                one,
                fill-count old left idt (vector + 1) installed (λ v le. same v (omega arith)),
              ))
        | inr e ↦
            let none_here : ◌≡◌ {A = ℕ} (if is_present (old vector) then 1 else 0) 0 =
              rw (sym at_vector, e) refl in
            let idt' = set_gate idt vector (entry_point code vector) in
            rw (fill-take left idt vector installed e) (
              omega (
                arith,
                next,
                last,
                none_here,
                fill-count old left idt' (vector + 1) (installed + 1) (λ v le.
                    set_gate-other idt vector (entry_point code vector) v (omega arith)
                    ∙ same v (omega arith)),
              ))
      ]

-- All vectors are present.
pub count_present-all :
    (idt : Idt) (count : ℕ)
    → ((v : ℕ) → v < count → is_present (idt v) ≡ true)
    → count_present idt count ≡ count
unfolding count_present
count_present-all idt zero all = refl
count_present-all idt (suc count) all =
    rw (all count (omega arith), count_present)
      (omega (arith, count_present-all idt count (λ v lt. all v (omega arith))))

pub catch_all-is_present : (code : Entries) (vector : ℕ) → is_present (catch_all code vector) ≡ true
unfolding interrupt is_present
catch_all-is_present code vector = refl

filled_gate :
    (code : Entries) (idt : Idt) (v : ℕ)
    → is_present (if has_handler idt v then idt v else catch_all code v) ≡ true
unfolding has_handler
filled_gate code idt v = elim (Bool-cases (has_handler idt v)) [
  | inl e ↦ rw (e, has_handler) e
  | inr e ↦ rw (e, has_handler) (catch_all-is_present code v)
]

total : (code : Entries) (idt : Idt) → (init code idt).1 + count_present idt 256 ≡ 256
unfolding init count_present
total code idt = omega (arith, fill-count code idt 256 idt 0 0 (λ v le. refl))

-- For every table, `init` keeps the gate of each vector that has one and gives every other vector an
-- interrupt gate to the entry point of that very vector, the one that takes an error code exactly for
-- the vectors that push one; afterwards all 256 vectors have a handler, and the result is the number
-- of those that had none.
pub init-Filled :
    (code : Entries) (idt : Idt)
    → (let r = init code idt in
        ((v : ℕ)
          → v < entry_count
          → r.0 v ≡ (if has_handler idt v then idt v else catch_all code v))
        × (handlers r.0 ≡ entry_count)
        × (r.1 + handlers idt ≡ entry_count))
unfolding init handlers
init-Filled code idt =
    let gates : (v : ℕ)
        → v < 256
        → (init code idt).0 v ≡ (if has_handler idt v then idt v else catch_all code v) =
      λ v lt. fill-inside code 256 idt 0 0 v (omega arith) (omega arith) (omega arith) in
    (
      gates,
      count_present-all (init code idt).0 256
          (λ v lt. ap is_present (gates v lt) ∙ filled_gate code idt v),
      total code idt,
    )
