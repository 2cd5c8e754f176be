-- ===== src/Boot/DoubleFault.antt =====
-- How the processor enters the handler of a double fault, through the tables that booting sets up.
use goatos.Base.{ℕ, ◌+◌, ◌/◌, ◌^◌, ◌≤◌, ◌<◌, ◌≡◌, ◌≢◌, refl, ◌∙◌, get_or, arith}
use goatos.Base.Bits.{bit_at}
use goatos.Idt.{interrupt, task, put, set_gate, set_task_gate}
use goatos.Gdt.{
  access_kernel_code, access_kernel_data, access_tss_available, descriptor, flat, tss_descriptor,
}
use goatos.Gdt.Fields.{base_of, limit_of, access_of, flags_of, descriptor-fields}
use goatos.Interrupts.{Entries}
use goatos.Interrupts.Fill.{init-Filled}
use goatos.Pic.{Log}
use goatos.Boot.{Image, TakenOver, take_over}
use goatos.Boot.Vectors.{exceptions_gate}
use goatos.Exceptions
use goatos.Gdt
use goatos.Idt
use goatos.Interrupts
use goatos.Tss

-- The descriptor that a selector into the global table names.
abbrev pub descriptor_at : TakenOver → ℕ → ℕ
descriptor_at t selector = get_or t.gdt.entries (selector / 8) 0

-- A segment descriptor for all of memory, from address 0 on.
abbrev pub IsFlat : ℕ → ℕ → Type 0
IsFlat access d =
    (base_of d ≡ 0) × (limit_of d ≡ 0xfffff) × (access_of d ≡ access) × (flags_of d ≡ 12)

-- An available task state segment of 104 bytes at this address.
abbrev pub IsTss : ℕ → ℕ → Type 0
IsTss address d = (base_of d ≡ address) × (limit_of d ≡ 103) × (access_of d ≡ access_tss_available)

flat-IsFlat : (access : ℕ) → access < 2 ^ 8 → IsFlat access (flat access)
unfolding flat
flat-IsFlat access lt =
    let (b, l, a, f, w) =
      descriptor-fields 0 0xfffff access 12 (omega arith) (omega arith) lt (omega arith) in
    (b, l, a, f)

tss_descriptor-IsTss :
    (address : ℕ)
    → address < 2 ^ 32
    → IsTss address (tss_descriptor (goatos.Tss.location_of address))
unfolding tss_descriptor goatos.Tss.location_of
tss_descriptor-IsTss address lt =
    let (b, l, a, f, w) =
      descriptor-fields address 103 0x89 0 lt (omega arith) (omega arith) (omega arith) in
    (b, l, a)

gate_lem : (image : Image) (log : Log) → (take_over image log).idt 8 ≡ task 0x20
unfolding take_over
gate_lem image log =
    (init-Filled image.entries (goatos.Exceptions.init image.exceptions goatos.Idt.init)).0 8
      (omega arith)
    ∙ exceptions_gate image.exceptions 8 (goatos.Interrupts.Fill.catch_all image.entries 8)

-- After the tables are set up, vector 8 has a present task gate; its selector names an entry inside the
-- table, an available task state segment of 104 bytes at the place of the double fault's own, and not
-- the one that the task register holds, which describes the main one. The segment entered starts at the
-- handler, at the top of the private stack, with interrupts off. Its code selector is the one that is
-- loaded, and names a flat kernel code segment; its stack selector, its other data selectors (ds, es,
-- fs and gs) and the stack selector of ring 0 are the data selector that is loaded, which names a flat
-- kernel data segment, and the stack of ring 0 is the private one.
pub double_fault-ready :
    (image : Image) (log : Log)
    → image.main_tss < 2 ^ 32
    → image.double_fault_tss < 2 ^ 32
    → (let t = take_over image log in
        let gate = t.idt 8 in
        let entered = t.segments.double_fault in
        (gate.type_attr ≡ 0x85)
        × (gate.selector + 7 ≤ t.gdt.limit)
        × IsTss image.double_fault_tss (descriptor_at t gate.selector)
        × IsTss image.main_tss (descriptor_at t t.gdt.tr)
        × (gate.selector ≢ t.gdt.tr)
        × (entered.eip ≡ image.double_fault_entry)
        × (entered.esp ≡ image.stack_top)
        × (bit_at entered.eflags 9 ≡ 0)
        × (entered.cs ≡ t.gdt.cs)
        × (entered.ss ≡ t.gdt.ds)
        × (entered.ds ≡ t.gdt.ds)
        × (entered.es ≡ t.gdt.ds)
        × (entered.fs ≡ t.gdt.ds)
        × (entered.gs ≡ t.gdt.ds)
        × (entered.esp0 ≡ image.stack_top)
        × (entered.ss0 ≡ t.gdt.ds)
        × IsFlat access_kernel_code (descriptor_at t entered.cs)
        × IsFlat access_kernel_data (descriptor_at t t.gdt.ds))
unfolding take_over goatos.Gdt.init goatos.Tss.init task
double_fault-ready image log main own =
    rw (gate_lem image log, task)
      (
        refl,
        omega arith,
        tss_descriptor-IsTss image.double_fault_tss own,
        tss_descriptor-IsTss image.main_tss main,
        omega arith,
        refl,
        refl,
        refl,
        refl,
        refl,
        refl,
        refl,
        refl,
        refl,
        refl,
        refl,
        flat-IsFlat access_kernel_code (omega arith),
        flat-IsFlat access_kernel_data (omega arith),
      )
