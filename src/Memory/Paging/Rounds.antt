-- ===== src/Memory/Paging/Rounds.antt =====
-- The rounds of `build_tables`, from an empty directory to all the tables.
use goatos.Base.{
  ℕ, zero, suc, ◌+◌, ◌≤◌, ◌<◌, ◌≡◌, ◌≢◌, inl, inr, refl, sym, ap, ◌∙◌, subst, Bool, true, false,
  Option, none, some, List, ◌∷◌, ◌==◌, arith, Bool-cases,
}
use goatos.Memory.Ram.{Ram}
use goatos.Memory.Frame.{FrameAllocator, max_frame_index}
use goatos.Memory.Frame.Ops.{allocate}
use goatos.Memory.Frame.Chain.{member, member-All}
use goatos.Memory.Frame.Owners.{Owns, Owned-lt}
use goatos.Memory.Frame.Owners.Take.{Allocated, Exhausted, allocate-Allocated}
use goatos.Memory.Paging.{
  entries, clear_frame, wiped, allocate_zeroed_frame, hang_table, build_tables,
}
use goatos.Memory.Paging.Entries.{Inside, Beside, Inside-Beside}
use goatos.Memory.Paging.Build.{
  Hung, Partial, hang_table-frame, hang_table-other, hang_table-Hung, Hung-kept, Owns-kept,
}

member-later : (x t : ℕ) (held : List ℕ) → member x held ≡ true → member x (t ∷ held) ≡ true
member-later x t held m = ground (arith, m)

-- A new frame is not the frame of an old holder.
fresh :
    (ram : Ram) (a : FrameAllocator) (t : ℕ) (held free : List ℕ) (x : ℕ)
    → Owns ram a (t ∷ held) free
    → member x held ≡ true
    → t ≢ x
fresh ram a t held free x w m = member-All (λ y. t ≢ y) x held w.held_once.0 m

-- A wiped frame, by what the allocator gives.
pub zeroed-none :
    (ram : Ram) (a b : FrameAllocator)
    → allocate ram a ≡ (none, b)
    → allocate_zeroed_frame ram a ≡ (none, ram, b)
unfolding allocate_zeroed_frame wiped
zeroed-none ram a b e = ap (wiped ram) e

pub zeroed-some :
    (ram : Ram) (a b : FrameAllocator) (t : ℕ)
    → allocate ram a ≡ (some t, b)
    → allocate_zeroed_frame ram a ≡ (some t, clear_frame ram t, b)
unfolding allocate_zeroed_frame wiped
zeroed-some ram a b t e = ap (wiped ram) e

module _ (ram0 : Ram) (held0 : List ℕ) (directory stack_guard : ℕ) where
  round-Partial :
      (count : ℕ) (ram : Ram) (a b : FrameAllocator) (held free rest : List ℕ) (t : ℕ)
      → Partial ram0 held0 directory stack_guard count ram a held free
      → Owns ram b (t ∷ held) rest
      → count < entries
      → Partial ram0 held0 directory stack_guard
          (suc count)
          (hang_table (clear_frame ram t) directory stack_guard count t)
          b
          (t ∷ held)
          rest
  round-Partial count ram a b held free rest t p w room =
      let small_t : t < max_frame_index = Owned-lt b t w.fits w.held_owned.0 in
      let apart : t ≢ directory = fresh ram b t held rest directory w p.owned in
      let ram' = hang_table (clear_frame ram t) directory stack_guard count t in
      let frame : (y : ℕ) → Beside y t → Beside y directory → ram' y ≡ ram y =
        hang_table-frame ram directory stack_guard count t p.small small_t apart room in
      let others : (x y : ℕ) → member x held ≡ true → directory ≢ x → Inside y x → ram' y ≡ ram y =
        λ x y m n i.
          frame y (Inside-Beside y x t (λ e. fresh ram b t held rest x w m (sym e)) i)
            (Inside-Beside y x directory (λ e. n (sym e)) i) in
      record {
        owns =
            Owns-kept ram ram' b (t ∷ held) rest t directory w (ground arith)
              (member-later directory t held p.owned) frame;
        small = p.small;
        owned = member-later directory t held p.owned;
        hung = λ index lt. elim (Bool-cases (index == count)) [
          | inl e ↦
              subst (Hung ram' directory stack_guard (t ∷ held)) (sym (ground (arith, e)))
                (hang_table-Hung ram directory stack_guard count t p.small small_t apart room held)
          | inr e ↦
              let old : index < count = ground (arith, e, lt) in
              let h = p.hung index old in
              Hung-kept ram ram' directory stack_guard index t held h
                (hang_table-other ram directory stack_guard count t p.small small_t apart room index
                  (omega (arith, old)) (omega (arith, room)))
                (λ y i. others h.table y h.owned h.apart i)
        ];
        rest = λ index le lt.
            hang_table-other ram directory stack_guard count t p.small small_t apart room index
              (omega (arith, le)) lt
            ∙ p.rest index (omega arith) lt;
        apart = p.apart;
        grew = λ x m. member-later x t held (p.grew x m);
        kept = λ x y m i. others x y (p.grew x m) (p.apart x m) i ∙ p.kept x y m i;
      }

  -- What the loop comes to: all the tables, or an allocator with no frame left.
  abbrev pub Tables : ℕ → Bool × Ram × FrameAllocator → Type 0
  Tables count (true, ram, a) =
      (held : List ℕ) × (free : List ℕ) × Partial ram0 held0 directory stack_guard count ram a held
        free
  Tables count (false, ram, a) = Exhausted a

  -- One round, by what the allocator gives.
  abbrev after_wiping : ℕ → ℕ → Option ℕ × Ram × FrameAllocator → Bool × Ram × FrameAllocator
  after_wiping left index r =
      let (frame, ram', a') = r in
      elim frame [
        | none ↦ (false, ram', a')
        | some table ↦
            build_tables left (hang_table ram' directory stack_guard index table) a' directory
              stack_guard (index + 1)
      ]

  build-none :
      (left index : ℕ) (ram : Ram) (a b : FrameAllocator)
      → allocate ram a ≡ (none, b)
      → build_tables (suc left) ram a directory stack_guard index ≡ (false, ram, b)
  unfolding build_tables
  build-none left index ram a b e = ap (after_wiping left index) (zeroed-none ram a b e)

  build-some :
      (left index t : ℕ) (ram : Ram) (a b : FrameAllocator)
      → allocate ram a ≡ (some t, b)
      → build_tables (suc left) ram a directory stack_guard index
        ≡ build_tables left
            (hang_table (clear_frame ram t) directory stack_guard index t)
            b
            directory
            stack_guard
            (index + 1)
  unfolding build_tables
  build-some left index t ram a b e = ap (after_wiping left index) (zeroed-some ram a b t e)

  -- A round with the rounds after it.
  round-Tables :
      (left index : ℕ) (ram : Ram) (a : FrameAllocator) (held free : List ℕ)
      (r : Option ℕ × FrameAllocator)
      → Partial ram0 held0 directory stack_guard index ram a held free
      → index < entries
      → ((ram' : Ram) (b : FrameAllocator) (held' free' : List ℕ)
          → Partial ram0 held0 directory stack_guard (index + 1) ram' b held' free'
          → Tables (index + 1 + left) (build_tables left ram' b directory stack_guard (index + 1)))
      → allocate ram a ≡ r
      → Allocated ram held free r
      → Tables (index + suc left) (build_tables (suc left) ram a directory stack_guard index)
  round-Tables left index ram a held free (none, b) p room later e g =
      rw (build-none left index ram a b e) g.1
  round-Tables left index ram a held free (some t, b) p room later e g =
      let ram' = hang_table (clear_frame ram t) directory stack_guard index t in
      let next : Partial ram0 held0 directory stack_guard (index + 1) ram' b (t ∷ held) g.0 =
        subst (λ n. Partial ram0 held0 directory stack_guard n ram' b (t ∷ held) g.0) (omega arith)
          (round-Partial index ram a b held free g.0 t p g.2 room) in
      rw (build-some left index t ram a b e) (
        subst (λ n. Tables n (build_tables left ram' b directory stack_guard (index + 1)))
          (omega arith) (later ram' b (t ∷ held) g.0 next))

  pub build-Tables :
      (left index : ℕ) (ram : Ram) (a : FrameAllocator) (held free : List ℕ)
      → Partial ram0 held0 directory stack_guard index ram a held free
      → index + left ≤ entries
      → Tables (index + left) (build_tables left ram a directory stack_guard index)
  unfolding build_tables
  build-Tables zero index ram a held free p room = (
    held,
    free,
    subst (λ n. Partial ram0 held0 directory stack_guard n ram a held free) (omega arith) p,
  )
  build-Tables (suc left) index ram a held free p room =
      round-Tables left index ram a held free (allocate ram a) p (omega (arith, room))
        (λ ram' b held' free' q.
          build-Tables left (index + 1) ram' b held' free' q (omega (arith, room)))
        refl (allocate-Allocated ram a held free p.owns)
