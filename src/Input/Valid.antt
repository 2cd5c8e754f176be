-- ===== src/Input/Valid.antt =====
-- The representation invariant of the input queue.
use goatos.Base.{◌+◌, ◌%◌, ◌^◌, ◌≤◌, ◌<◌, ◌≡◌, refl, arith, length, length-set}
use goatos.Input.{Queue, KeyEvent, capacity, new, push, pop}

-- The buffer has all its slots, the indices are in range, and the next slot to write is `len` slots
-- past the next to read.
pub record IsValid (q : Queue) : Type 0 where
  pub storage : length q.buf ≡ capacity
  pub tail_in : q.tail < capacity
  pub len_in : q.len ≤ capacity
  pub head_at : q.head ≡ (q.tail + q.len) % capacity
  pub dropped_in : q.dropped < 2 ^ 32

pub new-IsValid : IsValid new
unfolding new
new-IsValid = record {
  storage = refl;
  tail_in = omega arith;
  len_in = omega arith;
  head_at = refl;
  dropped_in = omega arith;
}

pub push-IsValid : (q : Queue) (e : KeyEvent) → IsValid q → IsValid (push q e).0
unfolding push
push-IsValid q e v = ground (arith, length-set q.buf q.head e)

pub pop-IsValid : (q : Queue) → IsValid q → IsValid (pop q).0
unfolding pop
pop-IsValid q v = ground arith
