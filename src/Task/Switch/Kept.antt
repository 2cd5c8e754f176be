-- ===== src/Task/Switch/Kept.antt =====
-- The frame that a task leaves on its stack when it is switched away from, and what becomes of it.
use goatos.Base.{ℕ, ◌+◌, ◌-◌, ◌%◌, ◌^◌, ◌≤◌, ◌<◌, ◌≡◌, ◌⊎◌, refl, sym, ap, ◌∙◌, arith}
use goatos.Memory.Ram.{
  Ram, read_u32, write_u32, read_u32-write_u32, read_u32-write_u32_apart, read_u32-same,
  write_u32-apart,
}
use goatos.Task.Switch.{Cpu, Machine, below, push, park, resume, pop}

-- The registers of `c` that a task relies on, and the address it goes on at, stand from `p` on.
pub record Frame (ram : Ram) (p : ℕ) (c : Cpu) : Type 0 where
  pub ebx : read_u32 ram p ≡ c.ebx
  pub esi : read_u32 ram (p + 4) ≡ c.esi
  pub edi : read_u32 ram (p + 8) ≡ c.edi
  pub ebp : read_u32 ram (p + 12) ≡ c.ebp
  pub eip : read_u32 ram (p + 16) ≡ c.eip

-- The bytes from `lo` up to `hi` are the same.
abbrev pub Same : Ram → Ram → ℕ → ℕ → Type 0
Same ram ram' lo hi = (a : ℕ) → lo ≤ a → a < hi → ram' a ≡ ram a

pub Frame-Same :
    (ram ram' : Ram) (p : ℕ) (c : Cpu) → Same ram ram' p (p + 20) → Frame ram p c → Frame ram' p c
Frame-Same ram ram' p c same f = record {
  ebx = read_u32-same ram ram' p (λ y lo hi. same y (omega arith) (omega arith)) ∙ f.ebx;
  esi = read_u32-same ram ram' (p + 4) (λ y lo hi. same y (omega arith) (omega arith)) ∙ f.esi;
  edi = read_u32-same ram ram' (p + 8) (λ y lo hi. same y (omega arith) (omega arith)) ∙ f.edi;
  ebp = read_u32-same ram ram' (p + 12) (λ y lo hi. same y (omega arith) (omega arith)) ∙ f.ebp;
  eip = read_u32-same ram ram' (p + 16) (λ y lo hi. same y (omega arith) (omega arith)) ∙ f.eip;
}

-- From a frame, the second half of the switch restores the registers and goes on behind it.
pub resume_lem :
    (m : Machine) (slot p : ℕ) (c : Cpu)
    → read_u32 m.ram slot ≡ p
    → p + 20 < 2 ^ 32
    → Frame m.ram p c
    → resume m slot ≡ record m { cpu = record c { esp = p + 20 } }
unfolding resume pop
resume_lem m slot p c at fits f =
    let s1 : (p + 4) % 2 ^ 32 ≡ p + 4 = omega arith in
    let s2 : (p + 4 + 4) % 2 ^ 32 ≡ p + 8 = omega arith in
    let s3 : (p + 8 + 4) % 2 ^ 32 ≡ p + 12 = omega arith in
    let s4 : (p + 12 + 4) % 2 ^ 32 ≡ p + 16 = omega arith in
    let s5 : (p + 16 + 4) % 2 ^ 32 ≡ p + 20 = omega arith in
    rw (at, s1, s2, s3, s4, s5, f.ebx, f.esi, f.edi, f.ebp, f.eip) refl

-- The registers are numbers of 32 bits.
abbrev pub Fits : Cpu → Type 0
Fits c = (c.ebx < 2 ^ 32) × (c.esi < 2 ^ 32) × (c.edi < 2 ^ 32) × (c.ebp < 2 ^ 32)

-- The address of the context that `park` stores the stack pointer to.
abbrev pub old_slot : Machine → ℕ
old_slot m = read_u32 m.ram ((m.cpu.esp + 4) % 2 ^ 32)

-- The memory that the first half leaves, for a stack pointer of `p + 16`.
abbrev pub parked : Machine → ℕ → Ram
parked m p =
    let ram1 = write_u32 m.ram (p + 12) m.cpu.ebp in
    let ram2 = write_u32 ram1 (p + 8) m.cpu.edi in
    let ram3 = write_u32 ram2 (p + 4) m.cpu.esi in
    let ram4 = write_u32 ram3 p m.cpu.ebx in write_u32 ram4 (old_slot m) p

pub park_lem :
    (m : Machine) (p : ℕ)
    → m.cpu.esp ≡ p + 16
    → p + 16 < 2 ^ 32
    → park m ≡ record { cpu = record (m.cpu) { esp = p }; ram = parked m p }
unfolding park push below
park_lem m p top small =
    let s1 : (m.cpu.esp + (2 ^ 32 - 4)) % 2 ^ 32 ≡ p + 12 = omega (arith, top, small) in
    let s2 : (p + 12 + (2 ^ 32 - 4)) % 2 ^ 32 ≡ p + 8 = omega (arith, small) in
    let s3 : (p + 8 + (2 ^ 32 - 4)) % 2 ^ 32 ≡ p + 4 = omega (arith, small) in
    let s4 : (p + 4 + (2 ^ 32 - 4)) % 2 ^ 32 ≡ p = omega (arith, small) in rw (s1, s2, s3, s4) refl

-- The word at `slot` has no byte from `lo` up to `hi`.
abbrev pub Apart : ℕ → ℕ → ℕ → Type 0
Apart slot lo hi = (slot + 4 ≤ lo) ⊎ (hi ≤ slot)

module _ (m : Machine) (p : ℕ) where
  -- Nothing but the stack below and the context is written.
  pub parked-apart :
      (y : ℕ)
      → (y < p) ⊎ (p + 16 ≤ y)
      → (y < old_slot m) ⊎ (old_slot m + 4 ≤ y)
      → parked m p y ≡ m.ram y
  parked-apart y stack slot =
      let ram1 = write_u32 m.ram (p + 12) m.cpu.ebp in
      let ram2 = write_u32 ram1 (p + 8) m.cpu.edi in
      let ram3 = write_u32 ram2 (p + 4) m.cpu.esi in
      let ram4 = write_u32 ram3 p m.cpu.ebx in
      write_u32-apart ram4 (old_slot m) p y (omega (arith, slot))
      ∙ write_u32-apart ram3 p m.cpu.ebx y (omega (arith, stack))
      ∙ write_u32-apart ram2 (p + 4) m.cpu.esi y (omega (arith, stack))
      ∙ write_u32-apart ram1 (p + 8) m.cpu.edi y (omega (arith, stack))
      ∙ write_u32-apart m.ram (p + 12) m.cpu.ebp y (omega (arith, stack))

  -- The frame of the task is on its stack, and its context points at it.
  pub parked-Frame :
      Fits m.cpu
      → Apart (old_slot m) p (p + 20)
      → m.cpu.esp ≡ p + 16
      → Frame (parked m p) p (record (m.cpu) { eip = read_u32 m.ram m.cpu.esp })
  parked-Frame (b, si, di, bp) apart top =
      let c = m.cpu in
      let ram1 = write_u32 m.ram (p + 12) c.ebp in
      let ram2 = write_u32 ram1 (p + 8) c.edi in
      let ram3 = write_u32 ram2 (p + 4) c.esi in
      let ram4 = write_u32 ram3 p c.ebx in
      let slot = old_slot m in
      record {
        ebx =
            read_u32-write_u32_apart ram4 slot p p (omega (arith, apart))
            ∙ read_u32-write_u32 ram3 p c.ebx b;
        esi =
            read_u32-write_u32_apart ram4 slot p (p + 4) (omega (arith, apart))
            ∙ read_u32-write_u32_apart ram3 p c.ebx (p + 4) (omega arith)
            ∙ read_u32-write_u32 ram2 (p + 4) c.esi si;
        edi =
            read_u32-write_u32_apart ram4 slot p (p + 8) (omega (arith, apart))
            ∙ read_u32-write_u32_apart ram3 p c.ebx (p + 8) (omega arith)
            ∙ read_u32-write_u32_apart ram2 (p + 4) c.esi (p + 8) (omega arith)
            ∙ read_u32-write_u32 ram1 (p + 8) c.edi di;
        ebp =
            read_u32-write_u32_apart ram4 slot p (p + 12) (omega (arith, apart))
            ∙ read_u32-write_u32_apart ram3 p c.ebx (p + 12) (omega arith)
            ∙ read_u32-write_u32_apart ram2 (p + 4) c.esi (p + 12) (omega arith)
            ∙ read_u32-write_u32_apart ram1 (p + 8) c.edi (p + 12) (omega arith)
            ∙ read_u32-write_u32 m.ram (p + 12) c.ebp bp;
        eip =
            read_u32-same m.ram (parked m p) (p + 16)
              (λ y lo hi. parked-apart y (omega (arith, lo)) (omega (arith, apart, lo, hi)))
            ∙ ap (read_u32 m.ram) (sym top);
      }

  pub parked-slot : p < 2 ^ 32 → read_u32 (parked m p) (old_slot m) ≡ p
  parked-slot lt =
      let ram1 = write_u32 m.ram (p + 12) m.cpu.ebp in
      let ram2 = write_u32 ram1 (p + 8) m.cpu.edi in
      let ram3 = write_u32 ram2 (p + 4) m.cpu.esi in
      read_u32-write_u32 (write_u32 ram3 p m.cpu.ebx) (old_slot m) p lt
