-- ===== src/Sync/Nested.antt =====
-- Critical sections that exceptions and software interrupts nest into each other.
use goatos.Base.{
  ℕ, zero, suc, ◌+◌, ◌≡◌, inl, inr, refl, ap, ◌∙◌, Bool, true, false, List, [], ◌∷◌, ◌++◌,
  replicate, arith, Bool-cases,
}
use goatos.Sync.{World, with_lock}

-- The body of a critical section: it updates the value, and a handler that takes the lock for a body of
-- its own comes between.
pub data Body (T : Type 0) : Type 0 where
  done : Body T
  update : (T → T) → Body T → Body T
  interrupted : Body T → Body T → Body T

replicate_at : {A : Type 0} (a : A) (m n : ℕ) → m ≡ n → replicate m a ≡ replicate n a
replicate_at a m n e = ap (λ k. replicate k a) e

replicate-append :
    {A : Type 0} (a : A) (m n : ℕ) → replicate m a ++ replicate n a ≡ replicate (m + n) a
replicate-append a zero n = replicate_at a n (0 + n) (omega arith)
replicate-append a (suc m) n =
    ap (λ l. a ∷ l) (replicate-append a m n)
    ∙ replicate_at a (suc (m + n)) (suc m + n) (omega arith)

module _ {T : Type 0} where
  -- The interrupt flag and the lock at each update, and the world afterwards.
  unfoldable pub perform : Body T → World T → List (Bool × Bool) × World T
  unfolding with_lock
  perform done w = ([], w)
  perform (update g body) w =
      let rest = perform body (record w { value = g w.value }) in
      ((w.interrupts, w.locked) ∷ rest.0, rest.1)
  perform (interrupted handler body) w =
      let first = with_lock (perform handler) w in
      let rest = perform body first.1 in (first.0 ++ rest.0, rest.1)

  -- All updates, those of handlers included, in the order in which they come.
  abbrev pub final : Body T → T → T
  final done x = x
  final (update g body) x = final body (g x)
  final (interrupted handler body) x = final body (final handler x)

  abbrev pub updates : Body T → ℕ
  updates done = 0
  updates (update g body) = suc (updates body)
  updates (interrupted handler body) = updates handler + updates body

  -- The world inside a critical section.
  abbrev held : T → World T
  held x = record { interrupts = false; locked = true; value = x }

  perform_inside :
      (body : Body T) (x : T)
      → perform body (held x) ≡ (replicate (updates body) (false, true), held (final body x))
  unfolding perform with_lock
  perform_inside done x = refl
  perform_inside (update g body) x = rw (perform_inside body (g x)) refl
  perform_inside (interrupted handler body) x =
      rw (perform_inside handler x, perform_inside body (final handler x))
        (ap (λ l. (l, held (final body (final handler x))))
          (replicate-append (false, true) (updates handler) (updates body)))

  -- A critical section is never blocked: whatever the interrupt flag is, and also when the lock is held,
  -- `with` runs its body and the handlers nested in it to the end; each update finds interrupts off and
  -- the lock taken, all take effect in the order in which they come, and the flag and the lock end as
  -- they were.
  pub with_lock-nested :
      (body : Body T) (w : World T)
      → with_lock (perform body) w
        ≡ (replicate (updates body) (false, true), record w { value = final body w.value })
  unfolding with_lock
  with_lock-nested body w =
      let e = perform_inside body w.value in
      elim (Bool-cases w.locked) [
        | inl l ↦ elim (Bool-cases w.interrupts) [
          | inl i ↦ rw (e, l, i) refl
          | inr i ↦ rw (e, l, i) refl
        ]
        | inr l ↦ elim (Bool-cases w.interrupts) [
          | inl i ↦ rw (e, l, i) refl
          | inr i ↦ rw (e, l, i) refl
        ]
      ]
