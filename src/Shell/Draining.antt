-- ===== src/Shell/Draining.antt =====
-- The loop of `drain_input`: it ends, with all waiting keys handled.
use goatos.Base.{ℕ, zero, suc, ◌<◌, ◌≡◌, refl, ap, ◌∙◌, List, [], ◌∷◌, arith, length}
use goatos.Base.Ring.{length-slots}
use goatos.Input.{KeyEvent, char, capacity, Queue}
use goatos.Input
use goatos.Input.Fifo.{view, fifo_take, pop_refines}
use goatos.Input.Valid.{IsValid, pop-IsValid}
use goatos.Shell.{Machine, Effect, LineEditor, as_str, handle_event, drain, drain_input}
use goatos.Shell.Editing.{Fits, edited_by, handle_event-Handled}

abbrev waiting : Queue → List KeyEvent
waiting q = (view q).waiting

-- A pop takes the first of the waiting keys, if there is one.
popped :
    (q : Queue) (ks : List KeyEvent)
    → IsValid q
    → waiting q ≡ ks
    → ((Input.pop q).1 ≡ (fifo_take ks 0).1)
      × (waiting (Input.pop q).0 ≡ (fifo_take ks 0).0.waiting)
popped q [] v e = (
  ap (λ p. p.1) (pop_refines q v) ∙ ap (λ w. (fifo_take w q.dropped).1) e,
  ap (λ p. p.0.waiting) (pop_refines q v) ∙ ap (λ w. (fifo_take w q.dropped).0.waiting) e,
)
popped q (k ∷ ks) v e = (
  ap (λ p. p.1) (pop_refines q v) ∙ ap (λ w. (fifo_take w q.dropped).1) e,
  ap (λ p. p.0.waiting) (pop_refines q v) ∙ ap (λ w. (fifo_take w q.dropped).0.waiting) e,
)

-- No key waits any more, and the line is what the keys that waited make of it.
pub record Drained (ks : List KeyEvent) (e : LineEditor) (r : Queue × LineEditor × List Effect)
    : Type 0 where
  pub empty : waiting r.0 ≡ []
  pub fits : Fits r.1
  pub line : as_str r.1 ≡ edited_by (as_str e) ks

drain-Drained :
    (m : Machine) (fuel : ℕ) (ks : List KeyEvent) (q : Queue) (e : LineEditor)
    → length ks < fuel
    → IsValid q
    → waiting q ≡ ks
    → Fits e
    → Drained ks e (drain m fuel q e)
unfolding drain edited_by
drain-Drained m zero ks q e h v w f = absurd (omega arith)
drain-Drained m (suc fuel) [] q e h v w f =
    let p = popped q [] v w in rw (p.0, drain) (record { empty = p.1; fits = f; line = refl })
drain-Drained m (suc fuel) (k ∷ ks) q e h v w f =
    let p = popped q (k ∷ ks) v w in
    let one = handle_event-Handled m e k f in
    let rest =
      drain-Drained m fuel ks (Input.pop q).0 (handle_event m e k).0 (omega arith) (pop-IsValid q v)
        p.1 one.fits in
    rw (p.0, drain)
      (record {
        empty = rest.empty;
        fits = rest.fits;
        line = rest.line ∙ ap (λ l. edited_by l ks) one.line;
      })

-- Unless a command panics on the way: for a valid queue and an editor that fits, `drain_input` ends with an empty queue, and the line is
-- what the keys that waited, in order, make of the line before; the editor still fits.
pub drain_input-Drained :
    (m : Machine) (q : Queue) (e : LineEditor)
    → IsValid q
    → Fits e
    → Drained (waiting q) e (drain_input m q e)
unfolding drain_input
drain_input-Drained m q e v f =
    drain-Drained m (suc q.len) (waiting q) q e
      (omega (arith, length-slots (char 0) q.buf capacity q.tail q.len)) v refl f
