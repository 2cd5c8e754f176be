-- ===== src/Memory/Heap/Chain.antt =====
-- The free list in memory: the blocks that the headers run through, and what a write to one header
-- leaves of the others.
use goatos.Base.{
  ℕ, suc, ◌+◌, ◌-◌, ◌^◌, ◌≤◌, ◌<◌, ◌≡◌, ◌≢◌, ◌⊎◌, inl, inr, refl, sym, ◌∙◌, subst, List, [], ◌∷◌,
  ◌==◌, if◌then◌else◌, arith, Bool-cases, All,
}
use goatos.Memory.Ram.{Ram, read_u32-write_u32, read_u32-same, write_u32-apart}
use goatos.Memory.Heap.{Heap, size_of, next_of, set_size, set_next, unlink}
use goatos.Memory.Heap.Blocks.{Block, end_of, Spaced, Below}

abbrev pub Chain : Ram → ℕ → List Block → Type 0
Chain ram head [] = head ≡ 0
Chain ram head (b ∷ bs) =
    (head ≡ b.start) × (size_of ram b.start ≡ b.size) × Chain ram (next_of ram b.start) bs

-- The pointer that `unlink` writes: the list's head, or the link of the block at `prev`.
unfoldable pub link : Ram → Heap → ℕ → ℕ
link ram h prev = if prev == 0 then h.free_list else next_of ram prev

-- Neither a byte of the block nor, for `prev`, one of its link.
abbrev pub Outside : ℕ → Block → Type 0
Outside y b = (y < b.start) ⊎ (end_of b ≤ y)

abbrev pub OffLink : ℕ → ℕ → Type 0
OffLink y prev = (prev ≡ 0) ⊎ ((y < prev + 4) ⊎ (prev + 8 ≤ y))

pub set_size-frame : (ram : Ram) (b v y : ℕ) → (y < b) ⊎ (b + 4 ≤ y) → set_size ram b v y ≡ ram y
unfolding set_size
set_size-frame ram b v y h = write_u32-apart ram b v y h

pub set_next-frame :
    (ram : Ram) (b v y : ℕ) → (y < b + 4) ⊎ (b + 8 ≤ y) → set_next ram b v y ≡ ram y
unfolding set_next
set_next-frame ram b v y h = write_u32-apart ram (b + 4) v y (omega arith)

-- The two fields of a header from the bytes.
module _ (ram ram' : Ram) (b : ℕ) where
  pub size_of-same : ((y : ℕ) → b ≤ y → y < b + 4 → ram' y ≡ ram y) → size_of ram' b ≡ size_of ram b
  unfolding size_of
  size_of-same same = read_u32-same ram ram' b same

  pub next_of-same :
      ((y : ℕ) → b + 4 ≤ y → y < b + 8 → ram' y ≡ ram y) → next_of ram' b ≡ next_of ram b
  unfolding next_of
  next_of-same same = read_u32-same ram ram' (b + 4) (λ y p q. same y p (omega arith))

pub size_of-set_size : (ram : Ram) (b v : ℕ) → v < 2 ^ 32 → size_of (set_size ram b v) b ≡ v
unfolding size_of set_size
size_of-set_size ram b v h = read_u32-write_u32 ram b v h

pub next_of-set_next : (ram : Ram) (b v : ℕ) → v < 2 ^ 32 → next_of (set_next ram b v) b ≡ v
unfolding next_of set_next
next_of-set_next ram b v h = read_u32-write_u32 ram (b + 4) v h

pub size_of-set_next : (ram : Ram) (b v : ℕ) → size_of (set_next ram b v) b ≡ size_of ram b
size_of-set_next ram b v =
    size_of-same ram (set_next ram b v) b (λ y p q. set_next-frame ram b v y (omega arith))

pub next_of-set_size : (ram : Ram) (b v : ℕ) → next_of (set_size ram b v) b ≡ next_of ram b
next_of-set_size ram b v =
    next_of-same ram (set_size ram b v) b (λ y p q. set_size-frame ram b v y (omega arith))

pub unlink-frame :
    (ram : Ram) (h : Heap) (prev x y : ℕ) → OffLink y prev → (unlink ram h prev x).0 y ≡ ram y
unfolding unlink
unlink-frame ram h prev x y o = elim (Bool-cases (prev == 0)) [
  | inl e ↦ rw (e, unlink) refl
  | inr e ↦ rw (e, unlink) (set_next-frame ram prev x y (ground (arith, o, e)))
]

pub link-unlink :
    (ram : Ram) (h : Heap) (prev x : ℕ)
    → x < 2 ^ 32
    → link (unlink ram h prev x).0 (unlink ram h prev x).1 prev ≡ x
unfolding unlink link
link-unlink ram h prev x lt = elim (Bool-cases (prev == 0)) [
  | inl e ↦ rw (e, unlink) refl
  | inr e ↦ rw (e, unlink) (next_of-set_next ram prev x lt)
]

-- `unlink` changes nothing of the heap but the head of the list, and that only without `prev`.
pub unlink-heap :
    (ram : Ram) (h : Heap) (prev x : ℕ)
    → ((unlink ram h prev x).1 ≡ record h { free_list = (unlink ram h prev x).1.free_list })
      × (prev ≢ 0 → (unlink ram h prev x).1.free_list ≡ h.free_list)
unfolding unlink
unlink-heap ram h prev x = elim (Bool-cases (prev == 0)) [
  | inl e ↦ rw (e, unlink) (refl, λ n. absurd (n (ground (arith, e))))
  | inr e ↦ rw (e, unlink) (refl, λ n. refl)
]

pub link-same :
    (ram ram' : Ram) (h h' : Heap) (prev : ℕ)
    → (prev ≡ 0 → h'.free_list ≡ h.free_list)
    → (prev ≢ 0 → (y : ℕ) → prev + 4 ≤ y → y < prev + 8 → ram' y ≡ ram y)
    → link ram' h' prev ≡ link ram h prev
unfolding link
link-same ram ram' h h' prev heap same = elim (Bool-cases (prev == 0)) [
  | inl e ↦ rw e (heap (ground (arith, e)))
  | inr e ↦ rw e (next_of-same ram ram' prev (same (λ z. ground (arith, e, z))))
]

-- A list from `lo` on is the same in two memories that agree from `lo` on.
pub Chain-frame :
    (ram ram' : Ram) (bs : List Block) (lo head : ℕ)
    → Spaced lo bs
    → ((y : ℕ) → lo ≤ y → ram' y ≡ ram y)
    → Chain ram head bs
    → Chain ram' head bs
Chain-frame ram ram' [] lo head s same c = c
Chain-frame ram ram' (b ∷ bs) lo head s same c = (
  c.0,
  size_of-same ram ram' b.start (λ y p q. same y (omega (arith, s.0))) ∙ c.1,
  subst (λ n. Chain ram' n bs)
      (sym (next_of-same ram ram' b.start (λ y p q. same y (omega (arith, s.0)))))
      (Chain-frame ram ram' bs (suc (end_of b)) (next_of ram b.start) s.2
        (λ y p. same y (omega (arith, s.0))) c.2),
)

-- The head of a list below the limit is a word.
pub Chain-head :
    (ram : Ram) (head limit : ℕ) (bs : List Block)
    → limit ≤ 2 ^ 32 - 1
    → All (Below limit) bs
    → Chain ram head bs
    → head < 2 ^ 32
Chain-head ram head limit [] h w c = omega (arith, c)
Chain-head ram head limit (b ∷ bs) h w c = omega (arith, c.0, w.0)
