-- ===== src/Task/Tests.antt =====
-- Runs of the scheduler, and the theorems about it at a concrete system.
use goatos.Base.{refl, none, some, [], ◌∷◌, arith, length}
use goatos.Task.{Task, System, enlist, yield_now, has_task}
use goatos.Task.Table.{tasks_in}
use goatos.Task.Valid.{IsValid, line, Yielded, yield_now-Yielded}
use goatos.Task.Spawn.{Enlisted, enlist-Enlisted}
use goatos.Task.Turns.{EachOnce, yields, round_fair}

abbrev spawned : Task
spawned = record { esp = 0x104f00; stack = some 0x103000 }

-- Task 2 runs; tasks 0 and 1 are ready, in this order, past the end of the ring's array.
abbrev three : System
three = record {
  sched = record {
    tasks = some (record { esp = 0x6ff0; stack = none }) ∷ some spawned ∷ some spawned ∷ none ∷ [];
    ready = 1 ∷ 2 ∷ 2 ∷ 0 ∷ [];
    ready_head = 3;
    ready_len = 2;
    current = 2;
  };
  task_count = 3;
  turns = 5 ∷ 4 ∷ 4 ∷ 0 ∷ [];
}

three-IsValid : IsValid three.sched
unfolding has_task tasks_in
three-IsValid = record {
  table = refl;
  storage = refl;
  head_in = omega arith;
  room = omega arith;
  counted = refl;
  alive = (refl, (refl, (refl, tt)));
  distinct = ((omega arith, (omega arith, tt)), ((omega arith, tt), (tt, tt)));
}

yield_now-Yielded_example : Yielded three (yield_now three)
yield_now-Yielded_example = yield_now-Yielded three three-IsValid

enlist-Enlisted_example : Enlisted three 0x105000 0x106fe0 (enlist three 0x105000 0x106fe0)
enlist-Enlisted_example = enlist-Enlisted three 0x105000 0x106fe0 three-IsValid

round_fair_example : EachOnce three (yields (length (line three.sched)) three)
round_fair_example = round_fair three three-IsValid (λ e. cc e) refl
