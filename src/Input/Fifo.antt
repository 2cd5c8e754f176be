-- ===== src/Input/Fifo.antt =====
-- What the input queue promises its two users: a bounded first-in first-out queue that counts what
-- it has to drop.
use goatos.Base.{
  ℕ, ◌+◌, ◌-◌, ◌^◌, min, ◌≡◌, refl, ap, ◌∙◌, Bool, true, false, Option, none, some, List, [], ◌∷◌,
  ◌++◌, arith, ◌==◌, if◌then◌else◌, length,
}
use goatos.Base.Ring.{slots, length-slots, slots_step, slots-set}
use goatos.Input.{Queue, KeyEvent, char, capacity, push, pop}
use goatos.Input.Valid.{IsValid, push-IsValid, pop-IsValid}

-- The waiting events, oldest first, and how many were dropped.
pub record Fifo : Type 0 where
  pub waiting : List KeyEvent
  pub lost : ℕ

abbrev pub view : Queue → Fifo
view q = record { waiting = slots (char 0) q.buf capacity q.tail q.len; lost = q.dropped }

abbrev pub fifo_push : Fifo → KeyEvent → Fifo × Bool
fifo_push f e =
    if length f.waiting == capacity
    then (record f { lost = min (f.lost + 1) (2 ^ 32 - 1) }, false)
    else (record f { waiting = f.waiting ++ (e ∷ []) }, true)

abbrev pub fifo_take : List KeyEvent → ℕ → Fifo × Option KeyEvent
fifo_take [] n = (record { waiting = []; lost = n }, none)
fifo_take (e ∷ es) n = (record { waiting = es; lost = n }, some e)

abbrev pub fifo_pop : Fifo → Fifo × Option KeyEvent
fifo_pop f = fifo_take f.waiting f.lost

-- One call of either side, and what it sees.
pub data Call : Type 0 where
  pushes : KeyEvent → Call
  pops : Call

pub data Reply : Type 0 where
  pushed : Bool → Reply
  popped : Option KeyEvent → Reply

unfoldable pub step : Queue → Call → Queue × Reply
step q (pushes e) = let (q', b) = push q e in (q', pushed b)
step q pops = let (q', o) = pop q in (q', popped o)

unfoldable pub run : Queue → List Call → Queue × List Reply
run q [] = (q, [])
run q (c ∷ cs) = let (q', r) = step q c in let (q'', rs) = run q' cs in (q'', r ∷ rs)

abbrev pub fifo_step : Fifo → Call → Fifo × Reply
fifo_step f (pushes e) = let (f', b) = fifo_push f e in (f', pushed b)
fifo_step f pops = let (f', o) = fifo_pop f in (f', popped o)

unfoldable pub fifo_run : Fifo → List Call → Fifo × List Reply
fifo_run f [] = (f, [])
fifo_run f (c ∷ cs) = let (f', r) = fifo_step f c in let (f'', rs) = fifo_run f' cs in (f'', r ∷ rs)

abbrev pub seen {ℓ} : {A : Type ℓ} → Queue × A → Fifo × A
seen (q, a) = (view q, a)

pub push_refines : (q : Queue) (e : KeyEvent) → IsValid q → seen (push q e) ≡ fifo_push (view q) e
unfolding push
push_refines q e v = ground (
  arith,
  length-slots (char 0) q.buf capacity q.tail q.len,
  slots-set (char 0) q.buf capacity e q.len q.tail q.head,
)

pub pop_refines : (q : Queue) → IsValid q → seen (pop q) ≡ fifo_pop (view q)
unfolding pop
pop_refines q v = ground (arith, slots_step (char 0) q.buf capacity q.tail q.len)

step-IsValid : (q : Queue) (c : Call) → IsValid q → IsValid (step q c).0
unfolding step
step-IsValid q (pushes e) v = push-IsValid q e v
step-IsValid q pops v = pop-IsValid q v

step_refines : (q : Queue) (c : Call) → IsValid q → seen (step q c) ≡ fifo_step (view q) c
unfolding step
step_refines q (pushes e) v = ap (λ p. (p.0, pushed p.1)) (push_refines q e v)
step_refines q pops v = ap (λ p. (p.0, popped p.1)) (pop_refines q v)

-- From a valid queue, any interleaving of pushes by the interrupt handler and pops by its consumer
-- gets the replies of the bounded queue of the waiting events, drops included, and leaves its
-- contents.
pub run_refines : (q : Queue) (cs : List Call) → IsValid q → seen (run q cs) ≡ fifo_run (view q) cs
unfolding run fifo_run
run_refines q [] v = refl
run_refines q (c ∷ cs) v =
    ap (λ p. (p.0, (step q c).1 ∷ p.1)) (run_refines (step q c).0 cs (step-IsValid q c v))
    ∙ ap (λ s. ((fifo_run s.0 cs).0, s.1 ∷ (fifo_run s.0 cs).1)) (step_refines q c v)
