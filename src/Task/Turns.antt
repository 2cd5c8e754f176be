-- ===== src/Task/Turns.antt =====
-- Fairness: in as many yields as there are tasks, each task gets one turn.
use goatos.Base.{
  ℕ, zero, suc, ◌+◌, ◌%◌, ◌^◌, ◌<◌, ◌≡◌, ◌≢◌, refl, sym, ap, ap₂, ◌∙◌, subst, List, [], ◌∷◌, ◌++◌,
  arith, length, length-append, get_or, length-set, get_or-set_self, get_or-set_ne, All, All-map,
  All-rotate, All-unrotate, All-zip, List-cases, snoc-ne-nil, snoc_injective, inl, inr, Distinct,
  Distinct-rotate,
}
use mathlib.Core.List.{append-nil, append_assoc}
use goatos.Task.{
  System, Yield, panicked, stayed, switched, max_tasks, count_turn, yield_now, turns_of,
}
use goatos.Task.Table.{has_task-lt}
use goatos.Task.Valid.{IsValid, queue, line, Yielded, yield_now-Yielded}

-- The system that the task which runs next finds.
pub after : System → Yield → System
after y panicked = y
after y (stayed z) = z
after y (switched old next z) = z

pub yields : ℕ → System → System
yields zero y = y
yields (suc n) y = yields n (after y (yield_now y))

-- The turns of several tasks, one after the other.
pub count_turns : List ℕ → List ℕ → List ℕ
count_turns turns [] = turns
count_turns turns (id ∷ ids) = count_turns (count_turn turns id) ids

nil≢cons : {x : ℕ} {xs : List ℕ} → ◌≡◌ {A = List ℕ} [] (x ∷ xs) → ⊥
nil≢cons e = cc

record Rotated (y z : System) (next : ℕ) (rest : List ℕ) : Type 0 where
  valid : IsValid z.sched
  runs : z.sched.current ≡ next
  waits : queue z.sched ≡ rest ++ (y.sched.current ∷ [])
  turn : z.turns ≡ count_turn y.turns next

after-Rotated :
    (y : System) (o : Yield) (next : ℕ) (rest : List ℕ)
    → queue y.sched ≡ next ∷ rest
    → Yielded y o
    → Rotated y (after y o) next rest
unfolding after
after-Rotated y panicked next rest e p = absurd p
after-Rotated y (stayed z) next rest e p = absurd (nil≢cons (sym p.1 ∙ e))
after-Rotated y (switched old n z) next rest e p =
    let moved : line z.sched ≡ (next ∷ rest) ++ (y.sched.current ∷ []) =
      p.4 ∙ ap₂ (λ q c. q ++ (c ∷ [])) e p.1 in
    record {
      valid = p.0;
      runs = ground (arith, moved);
      waits = ground (arith, moved);
      turn = p.5 ∙ ap (count_turn y.turns) (p.2 ∙ ground (arith, moved));
    }

yield_rotates :
    (y : System) (next : ℕ) (rest : List ℕ)
    → IsValid y.sched
    → queue y.sched ≡ next ∷ rest
    → Rotated y (after y (yield_now y)) next rest
yield_rotates y next rest v e = after-Rotated y (yield_now y) next rest e (yield_now-Yielded y v)

-- The tasks that run next are those of the line behind the running one, and then that one.
record Ran (y z : System) (ids rest : List ℕ) : Type 0 where
  valid : IsValid z.sched
  turned : z.turns ≡ count_turns y.turns ids
  order : queue z.sched ++ (z.sched.current ∷ []) ≡ rest ++ ids

yields-Ran :
    (ids rest : List ℕ) (y : System)
    → IsValid y.sched
    → queue y.sched ≢ []
    → queue y.sched ++ (y.sched.current ∷ []) ≡ ids ++ rest
    → Ran y (yields (length ids) y) ids rest
unfolding yields count_turns
yields-Ran [] rest y v ne e = record { valid = v; turned = refl; order = e ∙ sym (append-nil rest) }
yields-Ran (id ∷ ids) rest y v ne e = elim (List-cases (queue y.sched)) [
  | inl none_ready ↦ absurd (ne none_ready)
  | inr (next, q, k) ↦
      let current = y.sched.current in
      let r = yield_rotates y next q v k in
      let z = after y (yield_now y) in
      let order : (next ∷ q) ++ (current ∷ []) ≡ id ∷ (ids ++ rest) =
        ap (λ l. l ++ (current ∷ [])) (sym k) ∙ e in
      let first : next ≡ id = cc (order) in
      let behind : q ++ (current ∷ []) ≡ ids ++ rest = cc (order) in
      let ran =
        yields-Ran ids (rest ++ (id ∷ [])) z r.valid
          (λ empty. snoc-ne-nil q current (sym r.waits ∙ empty))
          (ap₂ (λ l c. l ++ (c ∷ [])) (r.waits ∙ behind) (r.runs ∙ first)
            ∙ append_assoc ids rest _) in
      record {
        valid = ran.valid;
        turned = ran.turned ∙ ap (λ t. count_turns t ids) (r.turn ∙ ap (count_turn y.turns) first);
        order = ran.order ∙ append_assoc rest (id ∷ []) ids;
      }
]

count_turns-other :
    (turns ids : List ℕ) (j : ℕ)
    → All (λ i. j ≢ i) ids
    → get_or (count_turns turns ids) j 0 ≡ get_or turns j 0
unfolding count_turns count_turn
count_turns-other turns [] j h = refl
count_turns-other turns (i ∷ ids) j h =
    count_turns-other (count_turn turns i) ids j h.1
    ∙ get_or-set_ne turns i j _ 0 (λ e. h.0 (sym e))

-- Different tasks that each take a turn have one turn more each.
count_turns-each :
    (turns ids : List ℕ)
    → Distinct ids
    → All (λ i. i < length turns) ids
    → All (λ i. get_or (count_turns turns ids) i 0 ≡ (get_or turns i 0 + 1) % 2 ^ 32) ids
unfolding count_turns count_turn
count_turns-each turns [] d h = tt
count_turns-each turns (i ∷ ids) d h = (
  count_turns-other (count_turn turns i) ids i d.0 ∙ get_or-set_self turns i _ 0 h.0,
  All-map _ _ ids (λ j e. e.1 ∙ ap (λ t. (t + 1) % 2 ^ 32) (get_or-set_ne turns i j _ 0 e.0))
      (All-zip _ _ ids d.0 (
        count_turns-each (count_turn turns i) ids d.1
          (subst (λ n. All (λ j. j < n) ids) (sym (length-set turns i _)) h.1))),
)

turns_of-step :
    (y z : System) (id : ℕ)
    → id < max_tasks
    → get_or z.turns id 0 ≡ (get_or y.turns id 0 + 1) % 2 ^ 32
    → turns_of z id ≡ (turns_of y id + 1) % 2 ^ 32
unfolding turns_of
turns_of-step y z id h e = ground arith

-- Between `y` and `z` each task of the line has had one turn, counted modulo 2^32, and the line is
-- again what it was.
abbrev pub EachOnce : System → System → Type 0
EachOnce y z =
    (line z.sched ≡ line y.sched)
    × All (λ id. turns_of z id ≡ (turns_of y id + 1) % 2 ^ 32) (line y.sched)

-- One round of a valid system with at least one ready task: after as many yields as there are tasks
-- the line is the one it was, and each task of the line has had exactly one turn (counted modulo
-- 2^32).
pub round_fair :
    (y : System)
    → IsValid y.sched
    → queue y.sched ≢ []
    → length y.turns ≡ max_tasks
    → EachOnce y (yields (length (line y.sched)) y)
round_fair y v ne slots =
    let ids = queue y.sched ++ (y.sched.current ∷ []) in
    let ran = yields-Ran ids [] y v ne (sym (append-nil ids)) in
    let same = snoc_injective (queue (yields (length ids) y).sched) (queue y.sched) _ _ ran.order in
    let z = yields (length ids) y in
    let below : All (λ id. id < length y.turns) ids = All-rotate _ y.sched.current (queue y.sched) (
      All-map _ _ (line y.sched) (λ id a. omega (arith, has_task-lt y.sched.tasks id a, v.table))
        v.alive) in
    let each =
      count_turns-each y.turns ids (Distinct-rotate y.sched.current (queue y.sched) v.distinct)
        below in
    let turns : All (λ id. turns_of z id ≡ (turns_of y id + 1) % 2 ^ 32) ids =
      All-map _ _ ids
        (λ id p. turns_of-step y z id (omega arith) (ap (λ t. get_or t id 0) ran.turned ∙ p.1))
        (All-zip _ _ ids below each) in
    let count : length ids ≡ length (line y.sched) =
      length-append (queue y.sched) (y.sched.current ∷ []) ∙ omega arith in
    subst (λ n. EachOnce y (yields n y)) count
      (ap₂ ◌∷◌ same.1 same.0, All-unrotate _ y.sched.current (queue y.sched) turns)
