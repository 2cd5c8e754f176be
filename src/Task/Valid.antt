-- ===== src/Task/Valid.antt =====
-- The scheduler's invariant, and what each operation does to the line of tasks: the running one,
-- then the ready ones in the order in which they will run.
use goatos.Base.{
  ℕ, ◌+◌, ◌%◌, ◌<◌, ◌≡◌, ◌≢◌, refl, sym, ap, ap₂, ◌∙◌, subst, true, some, List, [], ◌∷◌, ◌++◌,
  arith, length, length-set, All, All-rotate, Distinct, Distinct-rotate,
}
use native.Mathlib.Numerals.{add-one}
use goatos.Base.Ring.{slots, length-slots, slots_step, slots-set}
use goatos.Task.{
  Scheduler, System, Yield, panicked, stayed, switched, max_tasks, enqueue_ready, dequeue_ready,
  has_task, count_turn, hand_over, yield_now,
}
use goatos.Task.Table.{tasks_in}

abbrev pub queue : Scheduler → List ℕ
queue s = slots 0 s.ready max_tasks s.ready_head s.ready_len

abbrev pub line : Scheduler → List ℕ
line s = s.current ∷ queue s

-- The table and the queue have their sizes, the queue has room for one more task, and the line
-- names each task once: it holds tasks only, all different, and as many as there are.
pub record IsValid (s : Scheduler) : Type 0 where
  pub table : length s.tasks ≡ max_tasks
  pub storage : length s.ready ≡ max_tasks
  pub head_in : s.ready_head < max_tasks
  pub room : s.ready_len < max_tasks
  pub counted : tasks_in s.tasks ≡ s.ready_len + 1
  pub alive : All (λ id. has_task s.tasks id ≡ true) (line s)
  pub distinct : Distinct (line s)

pub queue-enqueue_ready :
    (s : Scheduler) (id : ℕ)
    → length s.ready ≡ max_tasks
    → s.ready_len < max_tasks
    → queue (enqueue_ready s id) ≡ queue s ++ (id ∷ [])
unfolding enqueue_ready
queue-enqueue_ready s id storage room =
    rw add-one (slots-set 0 s.ready max_tasks id s.ready_len s.ready_head _ (omega arith) room refl)

pub queue-dequeue_ready :
    (s : Scheduler) (id : ℕ) (ids : List ℕ)
    → s.ready_head < max_tasks
    → queue s ≡ id ∷ ids
    → ((dequeue_ready s).1 ≡ some id) × (queue (dequeue_ready s).0 ≡ ids)
unfolding dequeue_ready
queue-dequeue_ready s id ids h e =
    let some_ready : 0 < s.ready_len =
      omega (arith, ap length e, length-slots 0 s.ready max_tasks s.ready_head s.ready_len) in
    ground (arith, slots_step 0 s.ready max_tasks s.ready_head s.ready_len h some_ready)

-- What a yield has done to the system `y`: it has not panicked; a task that is alone goes on, and
-- otherwise the running task `old` has gone to the end of the line, the first ready task `next`
-- runs, and its turn is counted.
abbrev pub Yielded : System → Yield → Type 0
Yielded y panicked = ⊥
Yielded y (stayed z) =
    IsValid z.sched × (queue y.sched ≡ []) × (line z.sched ≡ line y.sched) × (z.turns ≡ y.turns)
Yielded y (switched old next z) =
    IsValid z.sched
    × (old ≡ y.sched.current)
    × (next ≡ z.sched.current)
    × (old ≢ next)
    × (line z.sched ≡ queue y.sched ++ (old ∷ []))
    × (z.turns ≡ count_turn y.turns next)

-- The queue of a yielding system once the running task has joined it.
abbrev joined : System → Scheduler
joined y = enqueue_ready y.sched y.sched.current

abbrev left : System → Scheduler
left y = (dequeue_ready (joined y)).0

length-queue : (s : Scheduler) → length (queue s) ≡ s.ready_len
length-queue s = length-slots 0 s.ready max_tasks s.ready_head s.ready_len

-- The parts of the scheduler that the queue operations do not touch.
left_frame :
    (y : System)
    → IsValid y.sched
    → ((left y).tasks ≡ y.sched.tasks)
      × (length (left y).ready ≡ max_tasks)
      × ((left y).ready_head < max_tasks)
      × ((left y).ready_len ≡ y.sched.ready_len)
      × ((left y).current ≡ y.sched.current)
unfolding enqueue_ready dequeue_ready
left_frame y v = ground (
  arith,
  length-set y.sched.ready ((y.sched.ready_head + y.sched.ready_len) % max_tasks) y.sched.current,
)

yield_now-hand_over :
    (y : System) {id : ℕ}
    → (dequeue_ready (joined y)).1 ≡ some id
    → yield_now y ≡ hand_over (record y { sched = left y }) y.sched.current id
unfolding yield_now
yield_now-hand_over y e = rw (e, yield_now)

hand_over_self : (y : System) (id : ℕ) → hand_over y id id ≡ stayed y
unfolding hand_over
hand_over_self y id = ground arith

hand_over_other :
    (y : System) (old next : ℕ)
    → old ≢ next
    → has_task y.sched.tasks old ≡ true
    → has_task y.sched.tasks next ≡ true
    → hand_over y old next
      ≡ switched old next (record y {
        sched = record (y.sched) { current = next };
        turns = count_turn y.turns next;
      })
unfolding hand_over
hand_over_other y old next ne a b = ground arith

-- The queue after the running task has joined it and the first has left.
left_queue :
    (y : System) (id : ℕ) (ids : List ℕ)
    → IsValid y.sched
    → queue y.sched ++ (y.sched.current ∷ []) ≡ id ∷ ids
    → ((dequeue_ready (joined y)).1 ≡ some id) × (queue (left y) ≡ ids)
unfolding enqueue_ready
left_queue y id ids v e =
    queue-dequeue_ready (joined y) id ids v.head_in
      (queue-enqueue_ready y.sched y.sched.current v.storage v.room ∙ e)

-- The scheduler after a yield, with `current` running, is valid if its line is.
relined :
    (y : System) (current : ℕ) (l : List ℕ)
    → IsValid y.sched
    → current ∷ queue (left y) ≡ l
    → All (λ id. has_task y.sched.tasks id ≡ true) l
    → Distinct l
    → IsValid (record (left y) { current = current })
relined y current l v e a d =
    let f = left_frame y v in
    record {
      table = rw f.0 v.table;
      storage = f.1;
      head_in = f.2;
      room = rw f.3 v.room;
      counted = rw (f.0, f.3) v.counted;
      alive =
          subst (λ ts. All (λ id. has_task ts id ≡ true) (current ∷ queue (left y))) (sym f.0)
            (subst (All (λ id. has_task y.sched.tasks id ≡ true)) (sym e) a);
      distinct = subst Distinct (sym e) d;
    }

yield_cases :
    (y : System) (ids : List ℕ) → queue y.sched ≡ ids → IsValid y.sched → Yielded y (yield_now y)
yield_cases y [] e v =
    let q = left_queue y y.sched.current [] v (ap (λ l. l ++ (y.sched.current ∷ [])) e) in
    let f = left_frame y v in
    let same : y.sched.current ∷ queue (left y) ≡ line y.sched =
      ap (◌∷◌ y.sched.current) (q.1 ∙ sym e) in
    rw (yield_now-hand_over y q.0, hand_over_self)
      (
        subst (λ c. IsValid (record (left y) { current = c })) (sym f.4)
            (relined y y.sched.current (line y.sched) v same v.alive v.distinct),
        e,
        ap₂ ◌∷◌ f.4 (q.1 ∙ sym e),
        refl,
      )
yield_cases y (next ∷ ids) e v =
    let current = y.sched.current in
    let q = left_queue y next (ids ++ (current ∷ [])) v (ap (λ l. l ++ (current ∷ [])) e) in
    let f = left_frame y v in
    let alive : All (λ id. has_task y.sched.tasks id ≡ true) (current ∷ next ∷ ids) =
      subst (λ l. All (λ id. has_task y.sched.tasks id ≡ true) (current ∷ l)) e v.alive in
    let distinct : Distinct (current ∷ next ∷ ids) =
      subst (λ l. Distinct (current ∷ l)) e v.distinct in
    let rotated : next ∷ queue (left y) ≡ (next ∷ ids) ++ (current ∷ []) = ap (◌∷◌ next) q.1 in
    rw
      (
        yield_now-hand_over y q.0,
        hand_over_other (record y { sched = left y }) current next distinct.0.0 (rw f.0 alive.0)
            (rw f.0 alive.1.0),
      )
      (
        relined y next _ v rotated (All-rotate _ current (next ∷ ids) alive)
            (Distinct-rotate current (next ∷ ids) distinct),
        refl,
        refl,
        distinct.0.0,
        rotated ∙ ap (λ l. l ++ (current ∷ [])) (sym e),
        refl,
      )

-- In a valid system a yield never panics, keeps the system valid, and hands the processor to the
-- task that has been ready longest, or back to the running task if it is the only one.
pub yield_now-Yielded : (y : System) → IsValid y.sched → Yielded y (yield_now y)
yield_now-Yielded y v = yield_cases y (queue y.sched) refl v
