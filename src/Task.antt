-- ===== src/Task.antt =====
-- The cooperative scheduler of kernel/src/task/mod.rs: a fixed table of tasks and a circular queue of
-- the ready ones. The running task is not in the queue. The part of `spawn` that
-- prepares a stack, and the stack switch itself, stand in Task.Switch.
pub mod Table
pub mod Valid
pub mod Spawn
pub mod Turns
pub mod Switch
mod Tests
use goatos.Base.{
  ℕ, zero, suc, ◌+◌, ◌-◌, ◌*◌, ◌%◌, ◌^◌, Bool, true, false, Option, none, some, List, [], ◌∷◌, ◌==◌,
  leb, if◌then◌else◌, get_elem?, get_or, set, replicate,
}

abbrev pub max_tasks : ℕ
max_tasks = 4

abbrev pub stack_size : ℕ
stack_size = 8 * 1024

-- `esp` is the saved stack pointer, `stack` the address of the heap block that a spawned task owns.
pub record Task : Type 0 where
  pub esp : ℕ
  pub stack : Option ℕ

pub record Scheduler : Type 0 where
  pub tasks : List (Option Task)
  pub ready : List ℕ
  pub ready_head : ℕ
  pub ready_len : ℕ
  pub current : ℕ

unfoldable pub new : Scheduler
new = record {
  tasks = none ∷ none ∷ none ∷ none ∷ [];
  ready = replicate max_tasks 0;
  ready_head = 0;
  ready_len = 0;
  current = 0;
}

-- The debug assertion that the queue has room, and the indices, are shown to hold in `Valid`.
unfoldable pub enqueue_ready : Scheduler → ℕ → Scheduler
enqueue_ready s id =
    let tail = (s.ready_head + s.ready_len) % max_tasks in
    record s { ready = set s.ready tail id; ready_len = s.ready_len + 1 }

unfoldable pub dequeue_ready : Scheduler → Scheduler × Option ℕ
dequeue_ready s = if s.ready_len == 0 then (s, none) else (
  record s { ready_head = (s.ready_head + 1) % max_tasks; ready_len = s.ready_len - 1 },
  some (get_or s.ready s.ready_head 0),
)

-- The statics `SCHEDULER`, `TASK_COUNT` and `TURNS`.
pub record System : Type 0 where
  pub sched : Scheduler
  pub task_count : ℕ
  pub turns : List ℕ

unfoldable pub init : System → System
init y = record y {
  sched = record (y.sched) {
    tasks = set (y.sched.tasks) 0 (some (record { esp = 0; stack = none }));
    current = 0;
    ready_head = 0;
    ready_len = 0;
  };
  task_count = 1;
}

unfoldable pub turns_of : System → ℕ → ℕ
turns_of y id = if leb max_tasks id then 0 else get_or y.turns id 0

-- `iter().position(|slot| slot.is_none())`
unfoldable pub position_none : List (Option Task) → Option ℕ
position_none [] = none
position_none (none ∷ ts) = some 0
position_none (some t ∷ ts) = elim (position_none ts) [ none ↦ none | some i ↦ some (suc i) ]

-- The part of `spawn` that holds the scheduler's lock: `block` and `esp` are the new stack and the
-- pointer into it that the part before has prepared.
unfoldable pub enlist : System → ℕ → ℕ → System × Option ℕ
enlist y block esp = elim (position_none y.sched.tasks) [
  | none ↦ (y, none)
  | some id ↦ (
    record y {
      sched =
          enqueue_ready
            (record (y.sched) {
              tasks = set y.sched.tasks id (some (record { esp = esp; stack = some block }));
            })
            id;
      task_count = y.task_count + 1;
    },
    some id,
  )
]

-- What `yield_now` does before the stacks are switched: it may find itself the only task, or hand
-- over from the task `old` to the task `next`; `panicked` stands for its `expect` and `unwrap`s.
pub data Yield : Type 0 where
  panicked : Yield
  stayed : System → Yield
  switched : ℕ → ℕ → System → Yield

unfoldable pub has_task : List (Option Task) → ℕ → Bool
has_task [] i = false
has_task (none ∷ ts) zero = false
has_task (some t ∷ ts) zero = true
has_task (t ∷ ts) (suc i) = has_task ts i

-- A task's count of turns goes up by one, and wraps.
unfoldable pub count_turn : List ℕ → ℕ → List ℕ
count_turn turns id = set turns id ((get_or turns id 0 + 1) % 2 ^ 32)

unfoldable pub hand_over : System → ℕ → ℕ → Yield
unfolding count_turn
hand_over y current next =
    if next == current
    then stayed y
    else if has_task y.sched.tasks current
    then (if has_task y.sched.tasks next
        then switched current next (record y {
          sched = record (y.sched) { current = next };
          turns = count_turn y.turns next;
        })
        else panicked)
    else panicked

unfoldable pub yield_now : System → Yield
unfolding hand_over
yield_now y =
    let current = y.sched.current in
    let (s, next) = dequeue_ready (enqueue_ready y.sched current) in
    elim next [ none ↦ panicked | some id ↦ hand_over (record y { sched = s }) current id ]
