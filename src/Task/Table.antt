-- ===== src/Task/Table.antt =====
-- The task table: which slots hold a task, and how many.
use goatos.Base.{
  ℕ, zero, suc, ◌≤◌, ◌<◌, ◌≡◌, ◌≢◌, refl, ap, true, false, Option, none, some, List, [], ◌∷◌, arith,
  length, set, get_elem?,
}
use goatos.Task.{Task, has_task, position_none}

-- The slots that hold a task.
unfoldable pub tasks_in : List (Option Task) → ℕ
tasks_in [] = 0
tasks_in (none ∷ ts) = tasks_in ts
tasks_in (some t ∷ ts) = suc (tasks_in ts)

pub tasks_in-le : (ts : List (Option Task)) → tasks_in ts ≤ length ts
unfolding tasks_in
tasks_in-le [] = omega arith
tasks_in-le (none ∷ ts) = omega (arith, tasks_in-le ts)
tasks_in-le (some t ∷ ts) = omega (arith, tasks_in-le ts)

pub has_task-lt : (ts : List (Option Task)) (i : ℕ) → has_task ts i ≡ true → i < length ts
unfolding has_task
has_task-lt [] i h = ground arith
has_task-lt (none ∷ ts) zero h = ground arith
has_task-lt (some t ∷ ts) zero h = omega arith
has_task-lt (none ∷ ts) (suc i) h = omega (arith, has_task-lt ts i h)
has_task-lt (some t ∷ ts) (suc i) h = omega (arith, has_task-lt ts i h)

pub position_none-free :
    (ts : List (Option Task)) (i : ℕ)
    → position_none ts ≡ some i
    → (has_task ts i ≡ false) × (i < length ts)
unfolding has_task position_none
position_none-free [] i e = ground arith
position_none-free (none ∷ ts) zero e = (refl, omega arith)
position_none-free (none ∷ ts) (suc i) e = ground arith
position_none-free (some t ∷ ts) zero e = ground arith
position_none-free (some t ∷ ts) (suc i) e = ground (arith, position_none-free ts i)

-- A table with no free slot is full of tasks.
pub position_none-full :
    (ts : List (Option Task)) → position_none ts ≡ none → tasks_in ts ≡ length ts
unfolding position_none tasks_in
position_none-full [] e = refl
position_none-full (none ∷ ts) e = ground arith
position_none-full (some t ∷ ts) e = ground (arith, position_none-full ts)

pub tasks_in-set :
    (ts : List (Option Task)) (i : ℕ) (t : Task)
    → has_task ts i ≡ false
    → i < length ts
    → tasks_in (set ts i (some t)) ≡ suc (tasks_in ts)
unfolding has_task tasks_in
tasks_in-set [] i t h lt = absurd (omega arith)
tasks_in-set (none ∷ ts) zero t h lt = refl
tasks_in-set (some u ∷ ts) zero t h lt = ground arith
tasks_in-set (none ∷ ts) (suc i) t h lt = tasks_in-set ts i t h (omega arith)
tasks_in-set (some u ∷ ts) (suc i) t h lt = ap suc (tasks_in-set ts i t h (omega arith))

pub has_task-set_self :
    (ts : List (Option Task)) (i : ℕ) (t : Task)
    → i < length ts
    → has_task (set ts i (some t)) i ≡ true
unfolding has_task
has_task-set_self [] i t lt = absurd (omega arith)
has_task-set_self (none ∷ ts) zero t lt = refl
has_task-set_self (some u ∷ ts) zero t lt = refl
has_task-set_self (none ∷ ts) (suc i) t lt = has_task-set_self ts i t (omega arith)
has_task-set_self (some u ∷ ts) (suc i) t lt = has_task-set_self ts i t (omega arith)

pub has_task-set :
    (ts : List (Option Task)) (i : ℕ) (t : Task) (j : ℕ)
    → has_task ts j ≡ true
    → has_task (set ts i (some t)) j ≡ true
unfolding has_task
has_task-set [] i t j h = h
has_task-set (none ∷ ts) zero t zero h = refl
has_task-set (some u ∷ ts) zero t zero h = refl
has_task-set (none ∷ ts) zero t (suc j) h = h
has_task-set (some u ∷ ts) zero t (suc j) h = h
has_task-set (none ∷ ts) (suc i) t zero h = h
has_task-set (some u ∷ ts) (suc i) t zero h = h
has_task-set (none ∷ ts) (suc i) t (suc j) h = has_task-set ts i t j h
has_task-set (some u ∷ ts) (suc i) t (suc j) h = has_task-set ts i t j h

module _ {ℓ} {A : Type ℓ} where
  pub get_elem?-set_self :
      (xs : List A) (i : ℕ) (v : A) → i < length xs → get_elem? (set xs i v) i ≡ some v
  get_elem?-set_self [] i v lt = absurd (omega arith)
  get_elem?-set_self (x ∷ xs) zero v lt = refl
  get_elem?-set_self (x ∷ xs) (suc i) v lt = get_elem?-set_self xs i v (omega arith)

  pub get_elem?-set :
      (xs : List A) (i j : ℕ) (v : A) → j ≢ i → get_elem? (set xs i v) j ≡ get_elem? xs j
  get_elem?-set [] i j v n = refl
  get_elem?-set (x ∷ xs) zero zero v n = absurd (n refl)
  get_elem?-set (x ∷ xs) zero (suc j) v n = refl
  get_elem?-set (x ∷ xs) (suc i) zero v n = refl
  get_elem?-set (x ∷ xs) (suc i) (suc j) v n = get_elem?-set xs i j v (λ e. n (ap suc e))
