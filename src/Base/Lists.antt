-- ===== src/Base/Lists.antt =====
-- Arrays and slices as lists with native indices, and predicates on lists that compute.
use Prim.Native.Nat.{ℕ, zero, suc, ◌+◌, ◌<◌}
use mathlib.Core.Path.{◌≡◌, refl, sym, ap}
use mathlib.Core.Logic.{◌≢◌, ◌⊎◌, inl, inr}
use mathlib.Core.List.{List, [], ◌∷◌, ◌++◌}
use mathlib.Core.Option.{Option, none, some}
use native.Mathlib.Omega.{arith}

module _ {ℓ} {A : Type ℓ} where
  abbrev pub length : List A → ℕ
  length [] = 0
  length (x ∷ xs) = suc (length xs)

  abbrev pub get_elem? : List A → ℕ → Option A
  get_elem? [] i = none
  get_elem? (x ∷ xs) zero = some x
  get_elem? (x ∷ xs) (suc i) = get_elem? xs i

  abbrev pub get_or : List A → ℕ → A → A
  get_or [] i d = d
  get_or (x ∷ xs) zero d = x
  get_or (x ∷ xs) (suc i) d = get_or xs i d

  -- A write out of bounds changes nothing.
  abbrev pub set : List A → ℕ → A → List A
  set [] i v = []
  set (x ∷ xs) zero v = v ∷ xs
  set (x ∷ xs) (suc i) v = x ∷ set xs i v

  abbrev pub take : ℕ → List A → List A
  take zero xs = []
  take (suc n) [] = []
  take (suc n) (x ∷ xs) = x ∷ take n xs

  abbrev pub drop : ℕ → List A → List A
  drop zero xs = xs
  drop (suc n) [] = []
  drop (suc n) (x ∷ xs) = drop n xs

  abbrev pub replicate : ℕ → A → List A
  replicate zero a = []
  replicate (suc n) a = a ∷ replicate n a

  pub length-append : (xs ys : List A) → length (xs ++ ys) ≡ length xs + length ys
  length-append [] ys = omega arith
  length-append (x ∷ xs) ys = omega (arith, length-append xs ys)

  pub length-replicate : (n : ℕ) (a : A) → length (replicate n a) ≡ n
  length-replicate zero a = refl
  length-replicate (suc n) a = ap suc (length-replicate n a)

module _ {ℓ} {A : Type ℓ} where
  pub length-set : (xs : List A) (i : ℕ) (v : A) → length (set xs i v) ≡ length xs
  length-set [] i v = refl
  length-set (x ∷ xs) zero v = refl
  length-set (x ∷ xs) (suc i) v = ap suc (length-set xs i v)

  pub get_or-set_self :
      (xs : List A) (i : ℕ) (v d : A) → i < length xs → get_or (set xs i v) i d ≡ v
  get_or-set_self [] i v d h = absurd (omega arith)
  get_or-set_self (x ∷ xs) zero v d h = refl
  get_or-set_self (x ∷ xs) (suc i) v d h = get_or-set_self xs i v d (omega arith)

  pub get_or-set_ne :
      (xs : List A) (i j : ℕ) (v d : A) → i ≢ j → get_or (set xs i v) j d ≡ get_or xs j d
  get_or-set_ne [] i j v d h = refl
  get_or-set_ne (x ∷ xs) zero zero v d h = absurd (h refl)
  get_or-set_ne (x ∷ xs) zero (suc j) v d h = refl
  get_or-set_ne (x ∷ xs) (suc i) zero v d h = refl
  get_or-set_ne (x ∷ xs) (suc i) (suc j) v d h = get_or-set_ne xs i j v d (λ e. h (ap suc e))

-- Every element satisfies `P`: a nested tuple, which the tactics read and build.
abbrev pub All {ℓ κ} : {A : Type ℓ} (P : A → Type κ) → List A → Type κ
All P (a ∷ rest) = P a × All P rest
All P [] = Unit

module _ {ℓ κ} {A : Type ℓ} (P : A → Type κ) where
  pub All-append : (front back : List A) → All P front → All P back → All P (front ++ back)
  All-append [] back h k = k
  All-append (a ∷ front) back h k = (h.0, All-append front back h.1 k)

pub All-map {ℓ κ μ} :
    {A : Type ℓ} (P : A → Type κ) (Q : A → Type μ) (xs : List A)
    → ((x : A) → P x → Q x)
    → All P xs
    → All Q xs
All-map P Q [] f h = tt
All-map P Q (x ∷ xs) f h = (f x h.0, All-map P Q xs f h.1)

-- No element stands twice.
abbrev pub Distinct {ℓ} : {A : Type ℓ} → List A → Type ℓ
Distinct [] = Unit
Distinct (x ∷ xs) = All (λ y. x ≢ y) xs × Distinct xs

module _ {ℓ} {A : Type ℓ} where
  Distinct-snoc :
      (x : A) (xs : List A) → All (λ y. x ≢ y) xs → Distinct xs → Distinct (xs ++ (x ∷ []))
  Distinct-snoc x [] h d = (tt, tt)
  Distinct-snoc x (y ∷ ys) h d =
      (All-append (λ z. y ≢ z) ys (x ∷ []) d.0 ((λ e. h.0 (sym e)), tt), Distinct-snoc x ys h.1 d.1)

  -- Moving the first element to the end keeps the elements distinct.
  pub Distinct-rotate : (x : A) (xs : List A) → Distinct (x ∷ xs) → Distinct (xs ++ (x ∷ []))
  Distinct-rotate x xs d = Distinct-snoc x xs d.0 d.1

  pub All-rotate {κ} :
      (P : A → Type κ) (x : A) (xs : List A) → All P (x ∷ xs) → All P (xs ++ (x ∷ []))
  All-rotate P x xs h = All-append P xs (x ∷ []) h.1 (h.0, tt)

pub List-cases {ℓ} : {A : Type ℓ} (l : List A) → (l ≡ []) ⊎ ((x : A) × (xs : List A) × (l ≡ x ∷ xs))
List-cases [] = inl refl
List-cases (x ∷ xs) = inr (x, xs, refl)

module _ {ℓ} {A : Type ℓ} where
  pub snoc-ne-nil : (xs : List A) (x : A) → xs ++ (x ∷ []) ≢ []
  snoc-ne-nil [] x e = cc
  snoc-ne-nil (y ∷ ys) x e = cc

  pub snoc_injective :
      (xs ys : List A) (x y : A) → xs ++ (x ∷ []) ≡ ys ++ (y ∷ []) → (xs ≡ ys) × (x ≡ y)
  snoc_injective [] [] x y e = (refl, cc)
  snoc_injective [] (b ∷ ys) x y e = absurd (snoc-ne-nil ys y (cc))
  snoc_injective (a ∷ xs) [] x y e = absurd (snoc-ne-nil xs x (cc))
  snoc_injective (a ∷ xs) (b ∷ ys) x y e =
      let rest = snoc_injective xs ys x y (cc) in (cc (rest.0), rest.1)

pub All-zip {ℓ κ μ} :
    {A : Type ℓ} (P : A → Type κ) (Q : A → Type μ) (xs : List A)
    → All P xs
    → All Q xs
    → All (λ x. P x × Q x) xs
All-zip P Q [] h k = tt
All-zip P Q (x ∷ xs) h k = ((h.0, k.0), All-zip P Q xs h.1 k.1)

All-split_end {ℓ κ} :
    {A : Type ℓ} (P : A → Type κ) (xs : List A) (x : A) → All P (xs ++ (x ∷ [])) → All P xs × P x
All-split_end P [] x h = (tt, h.0)
All-split_end P (y ∷ ys) x h = let rest = All-split_end P ys x h.1 in ((h.0, rest.0), rest.1)

-- Back from `All-rotate`.
pub All-unrotate {ℓ κ} :
    {A : Type ℓ} (P : A → Type κ) (x : A) (xs : List A) → All P (xs ++ (x ∷ [])) → All P (x ∷ xs)
All-unrotate P x xs h = let parts = All-split_end P xs x h in (parts.1, parts.0)

-- No element of the one list is in the other.
abbrev pub AllApart {ℓ} : {A : Type ℓ} → List A → List A → Type ℓ
AllApart xs ys = All (λ x. All (λ y. x ≢ y) ys) xs

module _ {ℓ} {A : Type ℓ} where
  pub Distinct-append :
      (xs ys : List A) → Distinct xs → Distinct ys → AllApart xs ys → Distinct (xs ++ ys)
  Distinct-append [] ys d e a = e
  Distinct-append (x ∷ xs) ys d e a =
      (All-append (λ z. x ≢ z) xs ys d.0 a.0, Distinct-append xs ys d.1 e a.1)

  -- From `x` apart from each of a list to each of the list apart from `x`.
  pub All-ne_sym : (x : A) (xs : List A) → All (λ y. x ≢ y) xs → All (λ y. y ≢ x) xs
  All-ne_sym x xs h = All-map _ _ xs (λ y n e. n (sym e)) h
