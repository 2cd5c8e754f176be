-- ===== src/Sync/Tests.antt =====
-- The theorem on critical sections at one that an exception interrupts.
use goatos.Base.{ℕ, ◌*◌, ◌+◌, ◌≡◌, true, false, replicate}
use goatos.Sync.{new, with_lock}
use goatos.Sync.Nested.{Body, done, update, interrupted, perform, updates, final, with_lock-nested}

-- Doubles, and an exception's handler adds one before the end.
abbrev body : Body ℕ
body = update (λ x. x * 2) (interrupted (update (λ x. x + 1) done) (update (λ x. x * 2) done))

with_lock-nested_example : with_lock (perform body) (new true 5) ≡ (
  replicate (updates body) (false, true),
  record (new true 5) { value = final body (new true 5).value },
)
with_lock-nested_example = with_lock-nested body (new true 5)
