-- ===== src/Memory/Ram.antt =====
-- Physical memory as the kernel's volatile reads see it: one byte at each address, wider values
-- little-endian, as the processor stores them.
use goatos.Base.{
  ℕ, suc, ◌+◌, ◌*◌, ◌/◌, ◌%◌, ◌^◌, ◌<◌, ◌≡◌, List, [], ◌∷◌, ◌++◌, arith, length, subst, ◌==◌,
  if◌then◌else◌, ◌≤◌, ◌⊎◌,
}

abbrev pub Ram : Type 0
Ram = ℕ → ℕ

unfoldable pub read_u32 : Ram → ℕ → ℕ
read_u32 ram a =
    ram a + 2 ^ 8 * ram (suc a) + 2 ^ 16 * ram (suc (suc a)) + 2 ^ 24 * ram (suc (suc (suc a)))

unfoldable pub read_u64 : Ram → ℕ → ℕ
read_u64 ram a = read_u32 ram a + 2 ^ 32 * read_u32 ram (a + 4)

-- The bytes of a value, lowest first.
abbrev pub bytes_u32 : ℕ → List ℕ
bytes_u32 n = n % 256 ∷ n / 256 % 256 ∷ n / 65536 % 256 ∷ n / 16777216 % 256 ∷ []

abbrev pub bytes_u64 : ℕ → List ℕ
bytes_u64 n = bytes_u32 (n % 2 ^ 32) ++ bytes_u32 (n / 2 ^ 32)

-- Memory holds these bytes from this address on.
abbrev pub Holds : Ram → ℕ → List ℕ → Type 0
Holds ram a [] = Unit {0}
Holds ram a (b ∷ bs) = (ram a ≡ b) × Holds ram (suc a) bs

pub read_u32_lem :
    (ram : Ram) (a n : ℕ) → n < 2 ^ 32 → Holds ram a (bytes_u32 n) → read_u32 ram a ≡ n
unfolding read_u32
read_u32_lem ram a n lt h = omega arith

pub Holds-append_left :
    (ram : Ram) (a : ℕ) (xs ys : List ℕ) → Holds ram a (xs ++ ys) → Holds ram a xs
Holds-append_left ram a [] ys h = tt
Holds-append_left ram a (x ∷ xs) ys h = (h.0, Holds-append_left ram (suc a) xs ys h.1)

pub Holds-append_right :
    (ram : Ram) (a b : ℕ) (xs ys : List ℕ)
    → a + length xs ≡ b
    → Holds ram a (xs ++ ys)
    → Holds ram b ys
Holds-append_right ram a b [] ys e h = subst_at ys (omega arith) h
  where
    subst_at : (zs : List ℕ) → a ≡ b → Holds ram a zs → Holds ram b zs
    subst_at zs p = subst (λ c. Holds ram c zs) p
Holds-append_right ram a b (x ∷ xs) ys e h =
    Holds-append_right ram (suc a) b xs ys (omega arith) h.1

pub read_u64_lem :
    (ram : Ram) (a n : ℕ) → n < 2 ^ 64 → Holds ram a (bytes_u64 n) → read_u64 ram a ≡ n
unfolding read_u64
read_u64_lem ram a n lt h = omega (
  arith,
  read_u32_lem ram a (n % 2 ^ 32) (omega arith)
      (Holds-append_left ram a (bytes_u32 (n % 2 ^ 32)) (bytes_u32 (n / 2 ^ 32)) h),
  read_u32_lem ram (a + 4) (n / 2 ^ 32) (omega arith) (
      Holds-append_right ram a (a + 4) (bytes_u32 (n % 2 ^ 32)) (bytes_u32 (n / 2 ^ 32))
        (omega arith) h),
)

unfoldable pub write_u32 : Ram → ℕ → ℕ → Ram
write_u32 ram a v b =
    if b == a
    then v % 256
    else if b == a + 1
    then v / 256 % 256
    else if b == a + 2
    then v / 65536 % 256
    else if b == a + 3
    then v / 16777216 % 256
    else ram b

write_u32-Holds : (ram : Ram) (a v : ℕ) → Holds (write_u32 ram a v) a (bytes_u32 v)
unfolding write_u32
write_u32-Holds ram a v = ground arith

pub read_u32-write_u32 : (ram : Ram) (a v : ℕ) → v < 2 ^ 32 → read_u32 (write_u32 ram a v) a ≡ v
read_u32-write_u32 ram a v h = read_u32_lem (write_u32 ram a v) a v h (write_u32-Holds ram a v)

pub write_u32-apart : (ram : Ram) (a v b : ℕ) → (b < a) ⊎ (a + 4 ≤ b) → write_u32 ram a v b ≡ ram b
unfolding write_u32
write_u32-apart ram a v b h = ground arith

-- A word that no byte written belongs to reads as before.
pub read_u32-write_u32_apart :
    (ram : Ram) (a v b : ℕ)
    → (b + 4 ≤ a) ⊎ (a + 4 ≤ b)
    → read_u32 (write_u32 ram a v) b ≡ read_u32 ram b
unfolding read_u32
read_u32-write_u32_apart ram a v b h = omega (
  arith,
  write_u32-apart ram a v b (omega arith),
  write_u32-apart ram a v (suc b) (omega arith),
  write_u32-apart ram a v (suc (suc b)) (omega arith),
  write_u32-apart ram a v (suc (suc (suc b))) (omega arith),
)

-- A word reads the same in two memories that agree on its four bytes.
pub read_u32-same :
    (ram ram' : Ram) (a : ℕ)
    → ((y : ℕ) → a ≤ y → y < a + 4 → ram' y ≡ ram y)
    → read_u32 ram' a ≡ read_u32 ram a
unfolding read_u32
read_u32-same ram ram' a same = omega (
  arith,
  same a (omega arith) (omega arith),
  same (suc a) (omega arith) (omega arith),
  same (suc (suc a)) (omega arith) (omega arith),
  same (suc (suc (suc a))) (omega arith) (omega arith),
)
