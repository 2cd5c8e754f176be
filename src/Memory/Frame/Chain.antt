-- ===== src/Memory/Frame/Chain.antt =====
-- The intrusive free list: the frames that the links in memory run through.
use goatos.Base.{
  ℕ, zero, suc, ◌-◌, ◌^◌, ◌<◌, ◌≡◌, ◌≢◌, inl, inr, refl, sym, subst, Bool, true, false, none, some,
  List, [], ◌∷◌, ◌||◌, ◌==◌, arith, length, Bool-cases, All, All-map, All-zip,
}
use goatos.Memory.Ram.{Ram, read_u32, write_u32, read_u32-write_u32, read_u32-write_u32_apart}
use goatos.Memory.Frame.{FrameAllocator, no_frame, max_frame_index, start_address}
use goatos.Memory.Frame.Ops.{link_of, push_free, pop_free, walk}

-- The list that starts at `head` runs through these frames, and ends there.
abbrev pub Chain : Ram → ℕ → List ℕ → Type 0
Chain ram head [] = head ≡ no_frame
Chain ram head (x ∷ xs) = (head ≡ x) × Chain ram (read_u32 ram (link_of x)) xs

abbrev pub member : ℕ → List ℕ → Bool
member i [] = false
member i (x ∷ xs) = i == x || member i xs

-- Two memories hold the same link in each of these frames.
abbrev pub SameLinks : Ram → Ram → List ℕ → Type 0
SameLinks ram ram' = All (λ x. read_u32 ram' (link_of x) ≡ read_u32 ram (link_of x))

pub Chain-SameLinks :
    (ram ram' : Ram) (head : ℕ) (xs : List ℕ)
    → SameLinks ram ram' xs
    → Chain ram head xs
    → Chain ram' head xs
Chain-SameLinks ram ram' head [] s c = c
Chain-SameLinks ram ram' head (x ∷ xs) s c = (
  c.0,
  subst (λ h. Chain ram' h xs) (sym s.0)
      (Chain-SameLinks ram ram' (read_u32 ram (link_of x)) xs s.1 c.1),
)

-- A write of a link does not touch the links of other frames.
pub write_u32-SameLinks :
    (ram : Ram) (i v : ℕ) (xs : List ℕ)
    → i < max_frame_index
    → All (λ x. x < max_frame_index) xs
    → All (λ x. i ≢ x) xs
    → SameLinks ram (write_u32 ram (link_of i) v) xs
unfolding start_address
write_u32-SameLinks ram i v xs h b n =
    All-map _ _ xs
      (λ x p. read_u32-write_u32_apart ram (link_of i) v (link_of x) (omega (arith, p.0, p.1)))
      (All-zip _ _ xs b n)

-- Pushing a frame that is not on the list puts it at the front.
pub push_free-Chain :
    (ram : Ram) (a : FrameAllocator) (i : ℕ) (xs : List ℕ)
    → i < max_frame_index
    → a.free_list < 2 ^ 32
    → All (λ x. x < max_frame_index) xs
    → All (λ x. i ≢ x) xs
    → Chain ram a.free_list xs
    → let (ram', b) = push_free ram a i in Chain ram' b.free_list (i ∷ xs)
unfolding push_free
push_free-Chain ram a i xs h w b n c = (
  refl,
  subst (λ l. Chain (write_u32 ram (link_of i) a.free_list) l xs)
      (sym (read_u32-write_u32 ram (link_of i) a.free_list w))
      (Chain-SameLinks ram _ a.free_list xs (write_u32-SameLinks ram i a.free_list xs h b n) c),
)

-- Popping takes the frame at the front.
pub pop_free-cons :
    (ram : Ram) (a : FrameAllocator) (x : ℕ) (xs : List ℕ)
    → x < max_frame_index
    → Chain ram a.free_list (x ∷ xs)
    → (pop_free ram a ≡ (
      some x,
      record a { free_list = read_u32 ram (link_of x); free_count = a.free_count - 1 },
    ))
unfolding pop_free
pop_free-cons ram a x xs h c = ground (arith, c.0)

pub pop_free-nil :
    (ram : Ram) (a : FrameAllocator) → a.free_list ≡ no_frame → pop_free ram a ≡ (none, a)
unfolding pop_free
pop_free-nil ram a e = ground arith

-- Walking the list decides membership, if the count of steps is the length of the list.
pub walk-member :
    (ram : Ram) (i head n : ℕ) (xs : List ℕ)
    → n ≡ length xs
    → All (λ x. x < max_frame_index) xs
    → Chain ram head xs
    → walk ram i head n ≡ member i xs
unfolding walk
walk-member ram i head zero [] e b c = refl
walk-member ram i head (suc n) [] e b c = absurd (omega arith)
walk-member ram i head zero (x ∷ xs) e b c = absurd (omega arith)
walk-member ram i head (suc n) (x ∷ xs) e b c =
    rw c.0
      (ground (arith, b.0, walk-member ram i (read_u32 ram (link_of x)) n xs (omega arith) b.1 c.1))

pub member-All : (P : ℕ → Type 0) (i : ℕ) (xs : List ℕ) → All P xs → member i xs ≡ true → P i
member-All P i [] h m = ground arith
member-All P i (x ∷ xs) h m = elim (Bool-cases (i == x)) [
  | inl here ↦ subst P (ground (arith, here)) h.0
  | inr other ↦ member-All P i xs h.1 (ground (arith, other))
]

pub not-member : (i : ℕ) (xs : List ℕ) → member i xs ≡ false → All (λ x. i ≢ x) xs
not-member i [] m = tt
not-member i (x ∷ xs) m = (ground arith, not-member i xs (ground arith))
