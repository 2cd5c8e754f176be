-- ===== src/Task/Spawn.antt =====
-- Which tasks there are: `init` and the locked part of `spawn`.
use goatos.Base.{
  ℕ, suc, ◌+◌, ◌<◌, ◌≡◌, ◌≢◌, refl, sym, ap, ◌∙◌, subst, true, false, Option, none, some, List, [],
  ◌∷◌, ◌++◌, arith, length, set, length-set, get_elem?, All, All-append, All-map, Distinct,
  Distinct-rotate, Option-cases, inl, inr,
}
use goatos.Task.{
  Task, Scheduler, System, max_tasks, enqueue_ready, position_none, enlist, has_task, init,
}
use goatos.Task.Table.{
  tasks_in, tasks_in-le, position_none-free, position_none-full, tasks_in-set, has_task-set_self,
  has_task-set, get_elem?-set_self, get_elem?-set,
}
use goatos.Task.Valid.{IsValid, line, queue-enqueue_ready}

-- Over a table without tasks, `init` makes the calling context task 0, which is the only task and
-- runs, whatever the queue held; the turns stay.
pub init-line :
    (y : System)
    → y.sched.tasks ≡ none ∷ none ∷ none ∷ none ∷ []
    → length y.sched.ready ≡ max_tasks
    → IsValid (init y).sched
      × (line (init y).sched ≡ 0 ∷ [])
      × ((init y).task_count ≡ 1)
      × ((init y).turns ≡ y.turns)
unfolding init has_task tasks_in
init-line y e storage = (
  record {
    table = rw e refl;
    storage = storage;
    head_in = omega arith;
    room = omega arith;
    counted = rw e refl;
    alive = (rw e refl, tt);
    distinct = (tt, tt);
  },
  refl,
  refl,
  refl,
)

module _ (y : System) (v : IsValid y.sched) where
  -- The scheduler once the slot `id` holds the new task.
  abbrev placed : ℕ → Task → Scheduler
  placed id t = record (y.sched) { tasks = set y.sched.tasks id (some t) }

  not-in-line :
      (id : ℕ) (l : List ℕ)
      → has_task y.sched.tasks id ≡ false
      → All (λ j. has_task y.sched.tasks j ≡ true) l
      → All (λ j. id ≢ j) l
  not-in-line id l free alive = All-map _ _ l (λ j a e. cc (ap (has_task y.sched.tasks) e)) alive

  placed-IsValid :
      (id : ℕ) (t : Task)
      → has_task y.sched.tasks id ≡ false
      → id < length y.sched.tasks
      → IsValid (enqueue_ready (placed id t) id)
        × (line (enqueue_ready (placed id t) id) ≡ line y.sched ++ (id ∷ []))
  unfolding enqueue_ready
  placed-IsValid id t free lt =
      let ts = set y.sched.tasks id (some t) in
      let more = tasks_in-set y.sched.tasks id t free lt in
      let shift = queue-enqueue_ready (placed id t) id v.storage v.room in
      let same : line (enqueue_ready (placed id t) id) ≡ line y.sched ++ (id ∷ []) =
        ap (◌∷◌ y.sched.current) shift in
      (
        record {
          table = length-set y.sched.tasks id (some t) ∙ v.table;
          storage = length-set y.sched.ready _ id ∙ v.storage;
          head_in = v.head_in;
          room = omega (
            arith,
            more,
            tasks_in-le ts,
            length-set y.sched.tasks id (some t),
            v.table,
            v.counted,
          );
          counted = more ∙ ap suc v.counted ∙ omega arith;
          alive = subst (All (λ j. has_task ts j ≡ true)) (sym same) (
              All-append _ (line y.sched) (id ∷ [])
                (All-map _ _ (line y.sched) (λ j. has_task-set y.sched.tasks id t j) v.alive)
                (has_task-set_self y.sched.tasks id t lt, tt));
          distinct = subst Distinct (sym same) (
              Distinct-rotate id (line y.sched)
                (not-in-line id (line y.sched) free v.alive, v.distinct));
        },
        same,
      )

-- What `spawn` leaves: with no free slot the system as it was, all slots being taken; otherwise the
-- new task has a slot that was free, with its stack, the other slots are as they were, and the task
-- stands at the end of the line.
abbrev pub Enlisted : System → ℕ → ℕ → System × Option ℕ → Type 0
Enlisted y block esp (z, none) = (z ≡ y) × (tasks_in y.sched.tasks ≡ max_tasks)
Enlisted y block esp (z, some id) =
    IsValid z.sched
    × (has_task y.sched.tasks id ≡ false)
    × (get_elem? z.sched.tasks id ≡ some (some (record { esp = esp; stack = some block })))
    × ((j : ℕ) → j ≢ id → get_elem? z.sched.tasks j ≡ get_elem? y.sched.tasks j)
    × (line z.sched ≡ line y.sched ++ (id ∷ []))
    × (z.task_count ≡ y.task_count + 1)
    × (z.turns ≡ y.turns)

-- On a valid scheduler, the locked part of `spawn` either answers that no slot is free, where all of
-- them have a task and nothing has changed; or it answers a slot that had none, which now holds a task
-- with the saved stack pointer and the stack it was given, every other slot holds what it held, the
-- task runs after all others (the running one and the ready ones, whose order stays), the count of
-- tasks is one more, the turns stay, and the scheduler is valid again.
pub enlist-Enlisted :
    (y : System) (block esp : ℕ) → IsValid y.sched → Enlisted y block esp (enlist y block esp)
unfolding enlist enqueue_ready
enlist-Enlisted y block esp v = elim (Option-cases (position_none y.sched.tasks)) [
  | inl e ↦ rw (e, enlist) (refl, position_none-full y.sched.tasks e ∙ v.table)
  | inr (id, e) ↦
      let free = position_none-free y.sched.tasks id e in
      let p = placed-IsValid y v id (record { esp = esp; stack = some block }) free.0 free.1 in
      let task : Task = record { esp = esp; stack = some block } in
      rw (e, enlist)
        (
          p.0,
          free.0,
          get_elem?-set_self y.sched.tasks id (some task) free.1,
          (λ j n. get_elem?-set y.sched.tasks id j (some task) n),
          p.1,
          refl,
          refl,
        )
]
