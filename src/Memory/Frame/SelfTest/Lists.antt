-- ===== src/Memory/Frame/SelfTest/Lists.antt =====
-- Frames that go to a caller one after the other, and come back.
use goatos.Base.{
  ℕ, zero, suc, ◌+◌, ◌≡◌, ◌≢◌, refl, sym, ap, ◌∙◌, true, List, [], ◌∷◌, ◌++◌, length, get_or, arith,
  All, Distinct,
}
use goatos.Memory.Frame.Chain.{member, member-All}
use goatos.Memory.Frame.Owners.Give.{remove}

-- The frames in `xs` on top of those in `held`, the last one first.
unfoldable pub onto : List ℕ → List ℕ → List ℕ
onto [] held = held
onto (x ∷ xs) held = onto xs (x ∷ held)

pub onto-append : (xs ys held : List ℕ) → onto (xs ++ ys) held ≡ onto ys (onto xs held)
unfolding onto
onto-append [] ys held = refl
onto-append (x ∷ xs) ys held = onto-append xs ys (x ∷ held)

pub onto-All : (P : ℕ → Type 0) (xs held : List ℕ) → All P (onto xs held) → All P xs × All P held
unfolding onto
onto-All P [] held h = (tt, h)
onto-All P (x ∷ xs) held h = let rest = onto-All P xs (x ∷ held) h in ((rest.1.0, rest.0), rest.1.1)

pub onto-Distinct : (xs held : List ℕ) → Distinct (onto xs held) → Distinct held
unfolding onto
onto-Distinct [] held d = d
onto-Distinct (x ∷ xs) held d = (onto-Distinct xs (x ∷ held) d).1

-- Each of them differs from those before and from those held before.
pub onto-apart : (x : ℕ) (xs held : List ℕ) → Distinct (onto (x ∷ xs) held) → All (λ y. x ≢ y) held
unfolding onto
onto-apart x xs held d = (onto-Distinct xs (x ∷ held) d).0

-- A frame held before differs from all of them.
pub onto-later :
    (x : ℕ) (xs held : List ℕ)
    → Distinct (onto xs held)
    → member x held ≡ true
    → All (λ y. x ≢ y) xs
unfolding onto
onto-later x [] held d m = tt
onto-later x (y ∷ ys) held d m = (
  (λ e. member-All (λ z. y ≢ z) x held (onto-apart y ys held d) m (sym e)),
  onto-later x ys (y ∷ held) d (ground (arith, m)),
)

pub member_here : (x : ℕ) (xs : List ℕ) → member x (x ∷ xs) ≡ true
member_here x xs = ground arith

pub remove_here : (x : ℕ) (xs : List ℕ) → remove x (x ∷ xs) ≡ xs
unfolding remove
remove_here x xs = ground arith

pub member-onto : (x : ℕ) (xs held : List ℕ) → member x held ≡ true → member x (onto xs held) ≡ true
unfolding onto
member-onto x [] held m = m
member-onto x (y ∷ ys) held m = member-onto x ys (y ∷ held) (ground (arith, m))

-- Giving back one that lies below others.
remove-below :
    (x : ℕ) (front held : List ℕ)
    → All (λ y. x ≢ y) front
    → remove x (front ++ (x ∷ held)) ≡ front ++ held
unfolding remove
remove-below x [] held n = ground arith
remove-below x (y ∷ ys) held n = ground (arith, n.0, remove-below x ys held n.1)

pub remove-onto :
    (x : ℕ) (xs front held : List ℕ)
    → All (λ y. x ≢ y) xs
    → All (λ y. x ≢ y) front
    → remove x (onto xs (front ++ (x ∷ held))) ≡ onto xs (front ++ held)
unfolding onto
remove-onto x [] front held n k = remove-below x front held k
remove-onto x (y ∷ ys) front held n k = remove-onto x ys (y ∷ front) held n.1 (n.0, k)

-- The last two of a list with two or more.
pub last_two :
    (xs : List ℕ) (n : ℕ)
    → length xs ≡ suc (suc n)
    → (front : List ℕ) × (y z : ℕ) × (xs ≡ front ++ (y ∷ z ∷ []))
last_two (y ∷ z ∷ []) n e = ([], y, z, refl)
last_two (x ∷ y ∷ z ∷ rest) zero e = absurd (omega (arith, e))
last_two (x ∷ y ∷ z ∷ rest) (suc n) e =
    let (front, a, b, q) = last_two (y ∷ z ∷ rest) n (omega (arith, e)) in
    (x ∷ front, a, b, ap (λ l. x ∷ l) q)
last_two [] n e = absurd (omega (arith, e))
last_two (x ∷ []) n e = absurd (omega (arith, e))

pub get_or-behind :
    (front : List ℕ) (rest : List ℕ) (i : ℕ)
    → get_or (front ++ rest) (length front + i) 0 ≡ get_or rest i 0
get_or-behind [] rest i = let e : 0 + i ≡ i = omega arith in ap (λ k. get_or rest k 0) e
get_or-behind (x ∷ front) rest i =
    let e : suc (length front) + i ≡ suc (length front + i) = omega arith in
    ap (λ k. get_or (x ∷ (front ++ rest)) k 0) e ∙ get_or-behind front rest i
