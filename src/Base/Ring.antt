-- ===== src/Base/Ring.antt =====
-- The elements of a circular array in the order of their age. Both fixed-size queues of the kernel
-- (input.rs and task/mod.rs) are read through it.
use Prim.Native.Nat.{ℕ, zero, suc, ◌+◌, ◌-◌, ◌%◌, ◌≤◌, ◌<◌}
use mathlib.Core.Path.{◌≡◌, refl, sym, ap, ap₂, ◌∙◌}
use mathlib.Core.Logic.{◌≢◌}
use mathlib.Core.List.{List, [], ◌∷◌, ◌++◌}
use native.Mathlib.Nat.{mod-add-mod, mod-eq_of_lt, mod-eq-sub-mod, mod-lt, mod-mod}
use native.Mathlib.Decide.{dec_lt}
use native.Mathlib.Omega.{arith}
use goatos.Base.Lists.{length, get_or, set, get_or-set_self, get_or-set_ne}

-- The index runs on past the sizeacity and is reduced at each access; `d` stands for an access out
-- of range.
abbrev pub slots {ℓ} : {A : Type ℓ} → A → List A → ℕ → ℕ → ℕ → List A
slots d buf size h zero = []
slots d buf size h (suc n) = get_or buf (h % size) d ∷ slots d buf size (suc h) n

pub length-slots {ℓ} :
    {A : Type ℓ} (d : A) (buf : List A) (size h n : ℕ) → length (slots d buf size h n) ≡ n
length-slots d buf size h zero = refl
length-slots d buf size h (suc n) = ap suc (length-slots d buf size (suc h) n)

mod_suc : (size h : ℕ) → (h % size + 1) % size ≡ suc h % size
mod_suc size h = mod-add-mod h size 1 ∙ ap (λ k. k % size) (omega arith)

-- Only the remainder of the start matters.
slots_congr {ℓ} :
    {A : Type ℓ} (d : A) (buf : List A) (size n h k : ℕ)
    → h % size ≡ k % size
    → slots d buf size h n ≡ slots d buf size k n
slots_congr d buf size zero h k e = refl
slots_congr d buf size (suc n) h k e = ap₂ ◌∷◌ (ap (λ i. get_or buf i d) e) (
    slots_congr d buf size n (suc h) (suc k)
      (sym (mod_suc size h) ∙ ap (λ i. (i + 1) % size) e ∙ mod_suc size k))

-- Taking the oldest element moves the start on by one, reduced as the source reduces it.
pub slots_step {ℓ} :
    {A : Type ℓ} (d : A) (buf : List A) (size h n : ℕ)
    → h < size
    → 0 < n
    → slots d buf size h n ≡ get_or buf h d ∷ slots d buf size ((h + 1) % size) (n - 1)
slots_step d buf size h zero lt p = absurd (omega arith)
slots_step d buf size h (suc n) lt p = ap₂ ◌∷◌ (ap (λ i. get_or buf i d) (mod-eq_of_lt lt)) (
    slots_congr d buf size n (suc h) ((h + 1) % size)
      (ap (λ k. k % size) (omega arith) ∙ sym (mod-mod (h + 1) size))
    ∙ ap (slots d buf size ((h + 1) % size)) (omega arith))

-- Two indices less than a whole round apart name different slots.
apart : (size h k : ℕ) → 0 < k → k < size → h % size ≢ (h + k) % size
apart size h k p q e = elim (dec_lt (h % size + k) size) [
  | yes in_round ↦ omega (arith, mod-add-mod h size k, mod-eq_of_lt in_round)
  | no beyond ↦ omega (
    arith,
    mod-lt h {m = size} (omega arith),
    mod-add-mod h size k,
    mod-eq-sub-mod {n = h % size + k} {m = size} (omega arith),
    mod-eq_of_lt {n = h % size + k - size} {m = size}
        (omega (arith, mod-lt h {m = size} (omega arith))),
  )
]

-- A write to the slot after the last of a ring that is not full adds that element at the end.
pub slots-set {ℓ} :
    {A : Type ℓ} (d : A) (buf : List A) (size : ℕ) (x : A) (n h i : ℕ)
    → size ≤ length buf
    → n < size
    → i ≡ (h + n) % size
    → slots d (set buf i x) size h (suc n) ≡ slots d buf size h n ++ (x ∷ [])
slots-set d buf size x zero h i hs hn e =
    let e' : h % size ≡ i = ap (λ k. k % size) (omega arith) ∙ sym e in
    rw e' (rw (get_or-set_self buf i x d (omega (arith, mod-lt h {m = size} hn))))
slots-set d buf size x (suc n) h i hs hn e =
    ap₂ ◌∷◌
      (get_or-set_ne buf i (h % size) x d
        (λ k. apart size h (suc n) (omega arith) hn (sym (sym e ∙ k))))
      (slots-set d buf size x n (suc h) i hs (omega arith) (e ∙ ap (λ k. k % size) (omega arith)))
